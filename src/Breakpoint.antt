-- ===== src/Breakpoint.antt =====
-- chitcpd/breakpoint.c: the monitors through which clients debug sockets. A monitor is an index; a
-- destroyed one keeps its place, so that a use after its end can be told. A watch is what a place of the
-- socket table says of its monitor. What the client answers is an argument.
pub mod Life
mod Keep
mod Answers
mod Fresh
mod Shrink
pub mod Safety
mod Tests
use Prim.Native.Nat.{bit_and}
use chitcp.Base.{
  ℕ, zero, suc, ◌+◌, ◌-◌, ◌<◌, ◌≡◌, Bool, true, false, not, ◌&&◌, List, [], ◌∷◌, ◌++◌, Option, none,
  some, ◌==◌, if◌then◌else◌, get_elem?, set, length, ℤ,
}
use chitcp.Server.{Server, DaemonState, ready, starting, running, stopping, stopped}
use chitcp.Handlers.{Errno, ebadf, eagain, usable}
use chitcp.Delivery.{
  Response, none_resp, stop, accept_monitor, drop, duplicate, withhold, draw_withheld,
}

-- The thread that holds a monitor's `lock_sockfd`, if any: at a breakpoint of a socket, before and after
-- it looks whether the socket still has the monitor; about to detach it from a socket, to take it off all
-- sockets, or to release it.
pub data Phase : Type 0 where
  unlocked removing leaving : Phase
  breaking talking detaching : ℕ → Phase

pub record Monitor : Type 0 where
  pub ref_count : ℕ
  pub numwaiters : ℕ
  pub dying : Bool
  pub phase : Phase
  pub destroyed : Bool

pub record Watch : Type 0 where
  pub monitor : Option ℕ
  pub event_flags : ℕ

pub record Debug : Type 0 where
  pub watches : List Watch
  pub monitors : List Monitor

abbrev pub unwatched : Watch
unwatched = record { monitor = none; event_flags = 0 }

abbrev pub update : Debug → ℕ → (Monitor → Monitor) → Debug
update d m f = elim (get_elem? d.monitors m) [
  | none ↦ d
  | some x ↦ record d { monitors = set d.monitors m (f x) }
]

abbrev pub has : ℕ → Watch → Bool
has m w = elim w.monitor [ none ↦ false | some k ↦ k == m ]

-- `valid_parameters`
unfoldable pub valid_parameters : Server → ℤ → Bool
valid_parameters si fd = elim si.state [
  | ready ↦ false
  | starting ↦ false
  | running ↦ elim (usable si fd) [ none ↦ false | some x ↦ true ]
  | stopping ↦ false
  | stopped ↦ false
]

-- `socket_monitors_event`
unfoldable pub monitors_event : Watch → ℕ → Bool
monitors_event w flag = elim w.monitor [
  | none ↦ false
  | some m ↦ not (bit_and flag w.event_flags == 0)
]

-- `chitcpd_init_debug_connection`, at a place of the table
abbrev pub new_monitor : Monitor
new_monitor = record {
  ref_count = 1;
  numwaiters = 0;
  dying = false;
  phase = unlocked;
  destroyed = false;
}

unfoldable pub attach_new : Debug → ℕ → ℕ → Debug
attach_new d s flags = record {
  watches = set d.watches s (record { monitor = some (length d.monitors); event_flags = flags });
  monitors = d.monitors ++ new_monitor ∷ [];
}

-- `none`: it is done
unfoldable pub init_debug_connection : Server → Debug → ℤ → ℕ → Option Errno × Debug
unfolding attach_new
init_debug_connection si d fd flags = elim (usable si fd) [
  | none ↦ (some ebadf, d)
  | some x ↦ elim (get_elem? d.watches x.0) [
    | none ↦ (some ebadf, d)
    | some w ↦ elim w.monitor [ none ↦ (none, attach_new d x.0 flags) | some m ↦ (some eagain, d) ]
  ]
]

-- `debug_mon_lock`, up to the wait and after it
unfoldable pub wait_for : Debug → ℕ → Debug
wait_for d m = update d m (λ x. record x { numwaiters = x.numwaiters + 1 })

unfoldable pub take_lock : Debug → ℕ → Phase → Debug
take_lock d m p = update d m (λ x. record x { numwaiters = x.numwaiters - 1; phase = p })

-- `detach_monitor_from_entry`
abbrev pub drop_ref : Monitor → Monitor
drop_ref x = record x {
  ref_count = x.ref_count - 1;
  dying = if x.ref_count == 1 then true else x.dying;
}

unfoldable pub detach_watch : Debug → ℕ → ℕ → Watch → Debug
detach_watch d m s w =
    if has m w then update (record d { watches = set d.watches s unwatched }) m drop_ref else d

unfoldable pub detach : Debug → ℕ → ℕ → Debug
unfolding detach_watch
detach d m s = elim (get_elem? d.watches s) [ none ↦ d | some w ↦ detach_watch d m s w ]

-- `debug_mon_remove_from_chisocket_table`, from place `s` on, for so many places
pub remove_from : Debug → ℕ → ℕ → ℕ → Debug
unfolding detach
remove_from d m s zero = d
remove_from d m s (suc n) = remove_from (detach d m s) m (s + 1) n

unfoldable pub remove_all : Debug → ℕ → Debug
unfolding remove_from
remove_all d m = remove_from d m 0 (length d.watches)

-- `attach_monitor_and_flags_to_entry`
unfoldable pub attach : Debug → ℕ → ℕ → ℕ → Debug
attach d m flags s =
    update
      (record d { watches = set d.watches s (record { monitor = some m; event_flags = flags }) }) m
      (λ x. record x { ref_count = x.ref_count + 1 })

-- `debug_mon_release`
abbrev pub released : Monitor → Monitor
released x = record x { phase = unlocked; destroyed = x.dying && (x.numwaiters == 0) }

unfoldable pub release : Debug → ℕ → Debug
release d m = update d m released

-- Where the holder goes on after the client's answer: a monitor that is dying is taken off all sockets.
abbrev pub after : Monitor → Monitor
after x = record x { phase = if x.dying then removing else leaving }

-- `obtain_debug_mon` with the lock: has the socket still this monitor?
unfoldable pub recheck : Debug → ℕ → ℕ → Watch → Debug
recheck d m s w = update d m (λ x. record x { phase = if has m w then talking s else leaving })

-- The client is gone: `exchange_breakpoint_messages` fails.
unfoldable pub fail : Debug → ℕ → Debug
fail d m = update d m (λ x. record x { dying = true; phase = removing })

-- `handle_special_breakpoint_responses`, and what the breakpoint returns. The events are a pending
-- connection, with its new socket, or another.
unfoldable pub answered : Debug → ℕ → ℕ → ℕ → Option ℕ → Response → Response × Debug
unfolding detach attach
answered d m s flags new stop = (none_resp, update (detach d m s) m after)
answered d m s flags none accept_monitor = (accept_monitor, update d m after)
answered d m s flags (some t) accept_monitor = (none_resp, update (attach d m flags t) m after)
answered d m s flags new none_resp = (none_resp, update d m after)
answered d m s flags new drop = (drop, update d m after)
answered d m s flags new duplicate = (duplicate, update d m after)
answered d m s flags new withhold = (withhold, update d m after)
answered d m s flags new draw_withheld = (draw_withheld, update d m after)
