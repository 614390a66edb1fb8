-- ===== src/Breakpoint/Life.antt =====
-- The life of the monitors under any interleaving of threads. Each step is what one thread does under one
-- lock; a thread that waits for a monitor is counted in `numwaiters`.
use chitcp.Base.{
  ℕ, suc, ◌≤◌, ◌<◌, ◌≡◌, ◌≢◌, true, List, [], ◌∷◌, Option, none, some, if◌then◌else◌, get_elem?,
}
use chitcp.Delivery.{Response}
use chitcp.Breakpoint.{
  unlocked, removing, leaving, breaking, talking, detaching, Monitor, Watch, Debug, update, has,
  monitors_event, attach_new, wait_for, take_lock, detach, remove_all, release, recheck, fail,
  answered,
}

-- How many sockets have the monitor.
unfoldable pub count : ℕ → List Watch → ℕ
count m [] = 0
count m (w ∷ ws) = let rest = count m ws in if has m w then suc rest else rest

-- That a thread does first what it must with the monitor's lock is the phases' part.
pub data Step (d : Debug) : Debug → Type 0 where
  creates :
      (s flags : ℕ) (w : Watch)
      → get_elem? d.watches s ≡ some w
      → w.monitor ≡ none
      → Step d (attach_new d s flags)
  -- a breakpoint, and a socket that is freed
  meets :
      (s m flag : ℕ) (w : Watch)
      → get_elem? d.watches s ≡ some w
      → w.monitor ≡ some m
      → monitors_event w flag ≡ true
      → Step d (wait_for d m)
  frees :
      (s m : ℕ) (w : Watch)
      → get_elem? d.watches s ≡ some w
      → w.monitor ≡ some m
      → Step d (wait_for d m)
  locks_to_break :
      (s m : ℕ) (x : Monitor)
      → get_elem? d.monitors m ≡ some x
      → x.phase ≡ unlocked
      → 0 < x.numwaiters
      → Step d (take_lock d m (breaking s))
  locks_to_detach :
      (s m : ℕ) (x : Monitor)
      → get_elem? d.monitors m ≡ some x
      → x.phase ≡ unlocked
      → 0 < x.numwaiters
      → Step d (take_lock d m (detaching s))
  looks :
      (s m : ℕ) (x : Monitor) (w : Watch)
      → get_elem? d.monitors m ≡ some x
      → x.phase ≡ breaking s
      → get_elem? d.watches s ≡ some w
      → Step d (recheck d m s w)
  loses :
      (s m : ℕ) (x : Monitor)
      → get_elem? d.monitors m ≡ some x
      → x.phase ≡ talking s
      → Step d (fail d m)
  hears :
      (s m flags : ℕ) (x : Monitor) (new : Option ℕ) (resp : Response)
      → get_elem? d.monitors m ≡ some x
      → x.phase ≡ talking s
      → Step d (answered d m s flags new resp).1
  removes :
      (m : ℕ) (x : Monitor)
      → get_elem? d.monitors m ≡ some x
      → x.phase ≡ removing
      → Step d (update (remove_all d m) m (λ y. record y { phase = leaving }))
  detaches :
      (s m : ℕ) (x : Monitor)
      → get_elem? d.monitors m ≡ some x
      → x.phase ≡ detaching s
      → Step d (update (detach d m s) m (λ y. record y { phase = leaving }))
  releases :
      (m : ℕ) (x : Monitor)
      → get_elem? d.monitors m ≡ some x
      → x.phase ≡ leaving
      → Step d (release d m)

-- The states from a daemon whose sockets have no monitor.
pub data Reach (watches : List Watch) : Debug → Type 0 where
  start :
      ((m : ℕ) → count m watches ≡ 0) → Reach watches (record { watches = watches; monitors = [] })
  then_step : {u v : Debug} → Reach watches u → Step u v → Reach watches v

-- What holds of a monitor that `n` sockets have.
pub record Good (n : ℕ) (x : Monitor) : Type 0 where
  pub refs : n ≤ x.ref_count
  pub clear : x.dying ≡ true → x.phase ≢ removing → n ≡ 0
  pub over : x.destroyed ≡ true → (x.numwaiters ≡ 0) × (x.phase ≡ unlocked) × (x.dying ≡ true)
  pub ended : x.dying ≡ true → x.phase ≡ unlocked → x.numwaiters ≡ 0 → x.destroyed ≡ true

pub record Inv (d : Debug) : Type 0 where
  pub good : (m : ℕ) (x : Monitor) → get_elem? d.monitors m ≡ some x → Good (count m d.watches) x
  pub known : (m : ℕ) → get_elem? d.monitors m ≡ none → count m d.watches ≡ 0
