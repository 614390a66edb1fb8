-- ===== src/Debugger/Handshake.antt =====
-- libchitcp/debug_api.c: how `debug_thread` passes an event to the thread of an active socket and waits for
-- its response (`send_and_get_from_active`, `active_thread`). Each step is what one thread does while it
-- holds the lock of `active_thread_args`, up to a wait or the unlocking; a wake-up may come at any time.
use chitcp.Base.{
  ℕ, ◌≡◌, ◌≢◌, refl, Bool, false, List, [], ◌∷◌, Option, none, some, if◌then◌else◌, ◌==◌, ◌||◌, sym,
  ap, ap₂, ◌∙◌,
}

-- `DBG_EVT_KILL` and `DBG_RESP_STOP`; 0 is no event, and `none` the response -1.
abbrev pub kill : ℕ
kill = 16

abbrev pub stop : ℕ
stop = 1

-- `event_flag` and `response` of the shared structure; whether `send_and_get_from_active` waits for the
-- response to an event; and whether the active thread is done.
pub record Shared : Type 0 where
  pub event_flag : ℕ
  pub response : Option ℕ
  pub waiting : Option ℕ
  pub done : Bool

-- What `active_thread` does when it finds an event, with the handler's response to it
unfoldable pub handle : (ℕ → ℕ) → ℕ → ℕ
handle respond flag = if flag == kill then 0 else respond flag

unfoldable pub handled : (ℕ → ℕ) → Shared → Shared
unfolding handle
handled respond s =
    let r = handle respond s.event_flag in
    record s { event_flag = 0; response = some r; done = (s.event_flag == kill) || (r == stop) }

-- The start of `send_and_get_from_active`, and its end
abbrev pub sent : ℕ → Shared → Shared
sent flag s = record s { event_flag = flag; waiting = some flag }

abbrev pub taken : Shared → Shared
taken s = record s { response = none; waiting = none }

abbrev pub at_start : Shared
at_start = record { event_flag = 0; response = none; waiting = none; done = false }

-- The steps, with what `debug_thread` has got so far: events with their responses, the last first. It sends
-- no event to a thread that is done: such a thread is joined and freed.
pub data Step (respond : ℕ → ℕ) (s : Shared) (got : List (ℕ × ℕ))
    : Shared → List (ℕ × ℕ) → Type 0 where
  sends :
      (flag : ℕ)
      → flag ≢ 0
      → s.waiting ≡ none
      → s.done ≡ false
      → Step respond s got (sent flag s) got
  acts : s.event_flag ≢ 0 → s.done ≡ false → Step respond s got (handled respond s) got
  gets :
      (flag r : ℕ)
      → s.waiting ≡ some flag
      → s.response ≡ some r
      → Step respond s got (taken s) ((flag, r) ∷ got)

pub data Reach (respond : ℕ → ℕ) : Shared → List (ℕ × ℕ) → Type 0 where
  start : Reach respond at_start []
  then_step :
      {s s' : Shared} {got got' : List (ℕ × ℕ)}
      → Reach respond s got
      → Step respond s got s' got'
      → Reach respond s' got'

-- Each response that was got is the one to its event.
abbrev pub Matched : (ℕ → ℕ) → List (ℕ × ℕ) → Type 0
Matched respond [] = Unit {0}
Matched respond ((flag, r) ∷ got) = (r ≡ handle respond flag) × Matched respond got

-- Whether a response ends the active thread, and whether the last one did.
abbrev pub ends : ℕ → ℕ → Bool
ends flag r = (flag == kill) || (r == stop)

abbrev pub ended : List (ℕ × ℕ) → Bool
ended [] = false
ended ((flag, r) ∷ got) = ends flag r

-- Between two events nothing is left over; during one, either the event or its response is there.
data Phase (respond : ℕ → ℕ) (s : Shared) (got : List (ℕ × ℕ)) : Type 0 where
  idle :
      s.waiting ≡ none
      → s.event_flag ≡ 0
      → s.response ≡ none
      → s.done ≡ ended got
      → Phase respond s got
  asked :
      (flag : ℕ)
      → s.waiting ≡ some flag
      → flag ≢ 0
      → s.event_flag ≡ flag
      → s.response ≡ none
      → s.done ≡ false
      → Phase respond s got
  told :
      (flag : ℕ)
      → s.waiting ≡ some flag
      → s.event_flag ≡ 0
      → s.response ≡ some (handle respond flag)
      → s.done ≡ ends flag (handle respond flag)
      → Phase respond s got

same {ℓ} : {A : Type ℓ} {x : Option A} {a b : A} → x ≡ some a → x ≡ some b → a ≡ b
same p q = cc

Step-Phase :
    {respond : ℕ → ℕ} {s s' : Shared} {got got' : List (ℕ × ℕ)}
    → Step respond s got s' got'
    → Phase respond s got
    → Matched respond got
    → Phase respond s' got' × Matched respond got'
unfolding handled
Step-Phase (sends flag some_flag w d) (idle w' f r d') m = (asked flag refl some_flag refl r d, m)
Step-Phase (sends flag some_flag w d) (asked f w' nz e r d') m = cc (sym w ∙ w')
Step-Phase (sends flag some_flag w d) (told f w' e r d') m = cc (sym w ∙ w')
Step-Phase (acts e d) (idle w f r d') m = absurd (e f)
Step-Phase {respond} (acts e d) (asked flag w nz f r d') m = (
  told flag w refl (ap (λ x. some (handle respond x)) f) (ap (λ x. ends x (handle respond x)) f),
  m,
)
Step-Phase (acts e d) (told flag w f r d') m = absurd (e f)
Step-Phase (gets flag r w q) (idle w' f r' d) m = cc (sym w' ∙ w)
Step-Phase (gets flag r w q) (asked f w' nz e r' d) m = cc (sym r' ∙ q)
Step-Phase {respond} (gets flag r w q) (told f w' e r' d) m =
    let same_flag : f ≡ flag = same w' w in
    let same_response : r ≡ handle respond flag = same q r' ∙ ap (handle respond) same_flag in
    (idle refl e refl (d ∙ ap₂ ends same_flag (same r' q)), (same_response, m))

Reach-Phase :
    {respond : ℕ → ℕ} {s : Shared} {got : List (ℕ × ℕ)}
    → Reach respond s got
    → Phase respond s got × Matched respond got
Reach-Phase start = (idle refl refl refl refl, tt)
Reach-Phase (then_step r st) = let (p, m) = Reach-Phase r in Step-Phase st p m

-- Along every interleaving, each response that `debug_thread` got is the active thread's to the event that
-- it was got for; and when `debug_thread` does not wait, no event and no response is left over, and the
-- active thread is done exactly if the last event was DBG_EVT_KILL or its response DBG_RESP_STOP.
pub handshake_lem :
    {respond : ℕ → ℕ} {s : Shared} {got : List (ℕ × ℕ)}
    → Reach respond s got
    → Matched respond got
      × (s.waiting ≡ none → (s.event_flag ≡ 0) × (s.response ≡ none) × (s.done ≡ ended got))
handshake_lem r = let (p, m) = Reach-Phase r in (m, between p)
  where
    between :
        {respond : ℕ → ℕ} {s : Shared} {got : List (ℕ × ℕ)}
        → Phase respond s got
        → s.waiting ≡ none
        → (s.event_flag ≡ 0) × (s.response ≡ none) × (s.done ≡ ended got)
    between (idle w f r d) q = (f, r, d)
    between (asked flag w nz f r d) q = cc (sym q ∙ w)
    between (told flag w f r d) q = cc (sym q ∙ w)
