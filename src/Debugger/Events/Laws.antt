-- ===== src/Debugger/Events/Laws.antt =====
-- How the client's handler is asked, and what the daemon gets for an answer.
use chitcp.Base.{
  ℕ, ◌≡◌, ◌≢◌, refl, ap, ◌∙◌, inl, inr, Bool, true, false, List, [], ◌∷◌, ◌++◌, if◌then◌else◌, ◌==◌,
  arith, Bool-cases, ℤ, pos, negsuc,
}
use chitcp.Debugger.Events.{
  Event, pending_connection, resp_stop, resp_accept_monitor, Handler, Watcher, no_fd, same_fd,
  listed, active_answer, Turn, goes_on, breaks, responds, then_responds, turn, next, run, initial,
  offered, passive_told, active_told,
}

-- What is left after both calls.
abbrev pub both_told : {H : Type 0} → Event → Watcher H → ℕ → ℕ × H → Turn H
both_told e s r (r', x) =
    let s' = record s {
      active_list =
          if r == resp_accept_monitor then s.active_list ++ e.new_sockfd ∷ [] else s.active_list;
      passive = true;
      first_event = false;
      ret = r';
      handler_state = x;
    } in
    if r' == resp_stop then breaks s' else goes_on s'

abbrev pub pending : ℤ → ℤ → Event
pending fd new = record {
  sockfd = fd;
  event_flag = pending_connection;
  new_sockfd = new;
  is_active = false;
}

-- The first call's response, whatever it is.
offered-told :
    {H : Type 0} (a : Handler H) (s : Watcher H) (fd new : ℤ) (r : ℕ) (x : H)
    → then_responds a
        (pending fd new)
        (offered true (pending fd new) (record s { first_event = false }) (r, x))
      ≡ (if r == resp_stop
          then breaks (record s { passive = true; first_event = false; ret = r; handler_state = x })
          else both_told (pending fd new) s r (a.handle x fd pending_connection no_fd))
unfolding then_responds offered responds passive_told
offered-told a s fd new r x = elim (Bool-cases (r == resp_stop)) [
  | inl stop ↦ rw (stop, then_responds) refl
  | inr more ↦ elim (Bool-cases (r == resp_accept_monitor)) [
    | inl accept ↦ rw (more, accept) refl
    | inr refuse ↦ rw (more, refuse) refl
  ]
]

-- A pending connection of a passive socket, when there is memory, is put to the handler twice: first with
-- the new socket, and if the response is not DBG_RESP_STOP, again with -1 in its place. The first response
-- decides whether the new socket gets a thread, which it does on DBG_RESP_ACCEPT_MONITOR; the second is the
-- one for the daemon, unless it is DBG_RESP_STOP, which ends the loop.
pending_lem :
    {H : Type 0} (a : Handler H) (s : Watcher H) (fd new : ℤ)
    → let (r, x) = a.handle s.handler_state fd pending_connection new in
      turn a true (pending fd new) s ≡ (
        if r == resp_stop
        then breaks (record s { passive = true; first_event = false; ret = r; handler_state = x })
        else both_told (pending fd new) s r (a.handle x fd pending_connection no_fd))
unfolding turn
pending_lem a s fd new =
    let (r, x) = a.handle s.handler_state fd pending_connection new in offered-told a s fd new r x

abbrev pub active_event : ℤ → ℕ → ℤ → Event
active_event fd flag new = record {
  sockfd = fd;
  event_flag = flag;
  new_sockfd = new;
  is_active = true;
}

-- An event of an active socket, after the first event: if the socket has no
-- thread, the handler is not asked, and the daemon gets the response to the event before; if it has one,
-- the daemon gets the thread's answer, unless that is DBG_RESP_STOP, which takes the thread off the list
-- and, for a watcher that has seen no pending connection, ends the loop.
pub active_lem :
    {H : Type 0} (a : Handler H) (memory : Bool) (s : Watcher H) (fd new : ℤ) (flag : ℕ)
    → s.first_event ≡ false
    → turn a memory (active_event fd flag new) s ≡ (
        if listed fd s.active_list
        then active_told fd s (active_answer a s.handler_state fd flag)
        else goes_on s)
unfolding turn
active_lem a memory s fd new flag old = rw (old, turn) refl

-- The answers of one active socket's thread, up to the first DBG_RESP_STOP, which is not sent.
unfoldable pub answers : {H : Type 0} → Handler H → H → ℤ → List ℕ → List ℕ
answers a x fd [] = []
answers a x fd (flag ∷ flags) =
    let (r, x') = active_answer a x fd flag in
    let rest = answers a x' fd flags in if r == resp_stop then [] else r ∷ rest

abbrev pub events : ℤ → ℤ → List ℕ → List (Event × Bool × Bool)
events fd new [] = []
events fd new (flag ∷ flags) = (active_event fd flag new, true, true) ∷ events fd new flags

same_fd_refl : (fd : ℤ) → same_fd fd fd ≡ true
same_fd_refl (pos n) = ground arith
same_fd_refl (negsuc n) = ground arith

abbrev watching : {H : Type 0} → ℤ → H → ℕ → Watcher H
watching fd x r = record {
  active_list = fd ∷ [];
  passive = false;
  first_event = false;
  ret = r;
  handler_state = x;
}

turn-watching :
    {H : Type 0} (a : Handler H) (fd new : ℤ) (flag : ℕ) (x : H) (r : ℕ)
    → turn a true (active_event fd flag new) (watching fd x r)
      ≡ active_told fd (watching fd x r) (active_answer a x fd flag)
turn-watching a fd new flag x r =
    active_lem a true (watching fd x r) fd new flag refl ∙ rw (same_fd_refl fd) refl

turn-initial :
    {H : Type 0} (a : Handler H) (fd new : ℤ) (flag : ℕ) (x : H)
    → flag ≢ pending_connection
    → turn a true (active_event fd flag new) (initial x)
      ≡ turn a true (active_event fd flag new) (watching fd x 0)
unfolding turn
turn-initial a fd new flag x h =
    let other : (flag == pending_connection) ≡ false = ground arith in rw (other, turn) refl

told-answers :
    {H : Type 0} (a : Handler H) (fd new : ℤ) (flags : List ℕ) (x0 x : H) (r0 r : ℕ)
    → (run a (events fd new flags) (watching fd x r)).0 ≡ answers a x fd flags
    → (next true (run a (events fd new flags)) (active_told fd (watching fd x0 r0) (r, x))).0
      ≡ (if r == resp_stop then [] else r ∷ answers a x fd flags)
unfolding next active_told
told-answers a fd new flags x0 x r0 r ih = elim (Bool-cases (r == resp_stop)) [
  | inl stop ↦ rw (stop) refl
  | inr more ↦ rw (more) (ap (λ rs. r ∷ rs) ih)
]

run-answers :
    {H : Type 0} (a : Handler H) (fd new : ℤ) (flags : List ℕ) (x : H) (r : ℕ)
    → (run a (events fd new flags) (watching fd x r)).0 ≡ answers a x fd flags
unfolding run answers
run-answers a fd new [] x r = refl
run-answers a fd new (flag ∷ flags) x r =
    let (r', x') = active_answer a x fd flag in
    ap (λ y. (next true (run a (events fd new flags)) y).0) (turn-watching a fd new flag x r)
    ∙ told-answers a fd new flags x x' r r' (run-answers a fd new flags x' r')

-- What the daemon gets for the events of one active socket, from the start on, when there is memory and
-- the responses can be sent, and the first event is no pending connection: the answer of the socket's one
-- thread to each event, in order, up to the first DBG_RESP_STOP, which it does not get.
pub run_active :
    {H : Type 0} (a : Handler H) (fd new : ℤ) (flag : ℕ) (flags : List ℕ) (x : H)
    → flag ≢ pending_connection
    → (run a (events fd new (flag ∷ flags)) (initial x)).0 ≡ answers a x fd (flag ∷ flags)
unfolding run
run_active a fd new flag flags x h =
    ap (λ y. (next true (run a (events fd new flags)) y).0) (turn-initial a fd new flag x h)
    ∙ run-answers a fd new (flag ∷ flags) x 0
