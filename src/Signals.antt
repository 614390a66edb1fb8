-- ===== src/Signals.antt =====
-- chitcpd/serverinfo.c: changes of the TCP state and timeouts, which other threads learn of.
pub mod Laws
mod Tests
use chitcp.Base.{ℕ, Bool, true, false, ◌&&◌, Option, none, some, if◌then◌else◌, ◌==◌, get_elem?}
use chitcp.Types.{TcpState, closed, active}
use chitcp.Server.{Server, Entry, Flags}
use chitcp.Sockets.{change}
use chitcp.Delivery.{
  Response, none_resp, stop, accept_monitor, drop, duplicate, withhold, draw_withheld, Time,
  draw_withheld_segment,
}
use chitcp.Handlers.{is_state, is_type, raise}

-- The new state, under the state's lock.
pub set_state : Server → ℕ → TcpState → Server
set_state si i s = change si i (λ e. record e { tcp_state = s })

pub drawn : Response → Server → ℕ → Time → Server
drawn none_resp si i now = si
drawn stop si i now = si
drawn accept_monitor si i now = si
drawn drop si i now = si
drawn duplicate si i now = si
drawn withhold si i now = si
drawn draw_withheld si i now = draw_withheld_segment si i now

pub ask_cleanup : TcpState → Entry → Entry
ask_cleanup s e =
    if is_state s closed && is_type e.actpas_type active
    then raise (λ f. record f { cleanup = true }) e
    else e

-- `chitcpd_update_tcp_state`, with the answer of the debug monitor.
pub update_tcp_state : Server → ℕ → TcpState → Response → Time → Server
unfolding set_state drawn ask_cleanup
update_tcp_state si i s resp now = change (drawn resp (set_state si i s) i now) i (ask_cleanup s)

-- `tcp_timer_type_t`
pub data Timer : Type 0 where
  retransmission persist : Timer

-- `chitcpd_timeout`
pub timeout : Server → ℕ → Timer → Server
timeout si i retransmission = change si i (raise (λ f. record f { timeout_rtx = true }))
timeout si i persist = change si i (raise (λ f. record f { timeout_pst = true }))
