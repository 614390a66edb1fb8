-- ===== src/Handlers/Close/Laws.antt =====
-- What `close` leaves: errors change nothing, and a close that succeeds has reached a closing state.
use chitcp.Base.{
  none, ℕ, ◌+◌, ◌≡◌, ◌≢◌, refl, ◌⊎◌, inl, inr, Bool, true, false, some, arith, get_elem?,
  get_elem?-set_self, Bool-cases, ap, ◌∙◌, ℤ, ◌||◌,
}
use chitcp.Types.{
  TcpState, closed, listen, syn_rcvd, syn_sent, established, fin_wait_1, fin_wait_2, close_wait,
  closing, time_wait, last_ack, SocketType, active, passive, uninitialized,
}
use chitcp.Server.{Server, Entry}
use chitcp.Sockets.{acquire, release, put_entry, free_begin}
use chitcp.Sockets.Refs.Cases.{acquire_cases, get_elem?-lt}
use chitcp.Sockets.Restore.{release-put}
use chitcp.Handlers.{Outcome, done, waits, Errno, ebadf, enotconn, eopnotsupp, is_state}
use chitcp.Handlers.Close.{
  refuses, frees, signals, verdict, failed, freeing, locking, act, close_found, close_begin,
  close_end, ends_wait, close_resume,
}

type-cases : (t : SocketType) → (t ≡ passive) ⊎ (t ≡ active) ⊎ (t ≡ uninitialized)
type-cases active = inr (inl refl)
type-cases passive = inl refl
type-cases uninitialized = inr (inr refl)

-- The states that a close refuses.
abbrev pub Refused : TcpState → Entry → Type 0
Refused s e = (s ≢ established) × (s ≢ close_wait) × ((s ≡ listen) → e.actpas_type ≡ active)

abbrev Decided : TcpState → Entry → Type 0
Decided s e =
    ((c : Errno) × (verdict s e ≡ refuses c) × Refused s e)
    ⊎ ((verdict s e ≡ frees) × (s ≡ listen) × (e.actpas_type ≡ passive))
    ⊎ ((verdict s e ≡ signals)
        × ((s ≡ established) ⊎ (s ≡ close_wait) ⊎ ((s ≡ listen) × (e.actpas_type ≡ uninitialized))))

verdict_cases : (s : TcpState) (e : Entry) → Decided s e
unfolding verdict
verdict_cases closed e = inl (enotconn, refl, (cc, cc, λ q. cc (q)))
verdict_cases listen e = elim (type-cases e.actpas_type) [
  | inl t ↦ inr (inl (ground (arith, t), refl, t))
  | inr (inl t) ↦ inl (eopnotsupp, ground (arith, t), (cc, cc, λ _. t))
  | inr (inr t) ↦ inr (inr (ground (arith, t), inr (inr (refl, t))))
]
verdict_cases syn_rcvd e = inl (eopnotsupp, refl, (cc, cc, λ q. cc (q)))
verdict_cases syn_sent e = inl (eopnotsupp, refl, (cc, cc, λ q. cc (q)))
verdict_cases established e = inr (inr (refl, inl refl))
verdict_cases fin_wait_1 e = inl (enotconn, refl, (cc, cc, λ q. cc (q)))
verdict_cases fin_wait_2 e = inl (enotconn, refl, (cc, cc, λ q. cc (q)))
verdict_cases close_wait e = inr (inr (refl, inr (inl refl)))
verdict_cases closing e = inl (enotconn, refl, (cc, cc, λ q. cc (q)))
verdict_cases time_wait e = inl (enotconn, refl, (cc, cc, λ q. cc (q)))
verdict_cases last_ack e = inl (enotconn, refl, (cc, cc, λ q. cc (q)))

-- How `close` begins: it fails, with its reference given back and the table as it was, on a
-- descriptor that cannot be acquired and in the states that it refuses; it frees a passive socket
-- that listens; and with its reference kept it goes on for a socket that is established or that
-- its peer has half closed (and for one that listens without a type).
pub close_begin_lem :
    (si : Server) (fd : ℤ)
    → ((c : Errno) × (close_begin si fd ≡ failed c si)
        × ((acquire si fd ≡ (none, si))
            ⊎ ((i : ℕ) × (e : Entry) × (get_elem? si.sockets i ≡ some e) × Refused e.tcp_state e)))
      ⊎ ((i : ℕ) × (e : Entry) × (get_elem? si.sockets i ≡ some e)
          × (e.tcp_state ≡ listen)
          × (e.actpas_type ≡ passive)
          × (close_begin si fd ≡ freeing i (free_begin si i)))
      ⊎ ((i : ℕ) × (e : Entry) × (get_elem? si.sockets i ≡ some e)
          × ((e.tcp_state ≡ established)
              ⊎ (e.tcp_state ≡ close_wait)
              ⊎ ((e.tcp_state ≡ listen) × (e.actpas_type ≡ uninitialized)))
          × (close_begin si fd
              ≡ locking i (put_entry si i (record e { refcount = e.refcount + 1 }))))
unfolding close_begin close_found act
close_begin_lem si fd = elim (acquire_cases si fd) [
  | inl q ↦ inl (ebadf, ap close_found q, inl q)
  | inr (i, e, _, g, _, _, q) ↦
      let e' : Entry = record e { refcount = e.refcount + 1 } in
      let si' = put_entry si i e' in
      let g' = get_elem?-set_self si.sockets i e' (get_elem?-lt si.sockets i e g) in
      let r : close_begin si fd ≡ act si' i (verdict e.tcp_state e') =
        ap close_found q ∙ rw (g', close_found) refl in
      let back = release-put si i e g in
      elim (verdict_cases e.tcp_state e') [
        | inl (c, v, denied) ↦
            inl (c, r ∙ ap (act si' i) v ∙ ap (failed c) back, inr (i, e, g, denied))
        | inr (inl (v, s, t)) ↦
            inr (
              inl (i, e, g, s, t, r ∙ ap (act si' i) v ∙ ap (λ x. freeing i (free_begin x i)) back))
        | inr (inr (v, s)) ↦ inr (inr (i, e, g, s, r ∙ ap (act si' i) v))
      ]
]

ended : TcpState → Bool
ended s =
    is_state s closed
    || is_state s fin_wait_2
    || is_state s closing
    || is_state s time_wait
    || is_state s last_ack

ended_cases :
    (s : TcpState)
    → ended s ≡ true
    → (s ≡ closed) ⊎ (s ≡ fin_wait_2) ⊎ (s ≡ closing) ⊎ (s ≡ time_wait) ⊎ (s ≡ last_ack)
unfolding ended
ended_cases s h = ground arith

waiting_cases : (from s : TcpState) → ends_wait from s ≡ false → s ≢ closed
unfolding ends_wait
waiting_cases from s h = ground arith

late_cases : (from s : TcpState) → ends_wait from s ≡ true → ended s ≡ true
unfolding ends_wait ended
late_cases from s h = ground arith

-- Each time `close` wakes up it goes on sleeping, or it ends and gives its reference back: with
-- success if the socket has reached a closing state or is closed, and with an error only if the
-- socket is being freed. It never sleeps once the socket is closed or is being freed.
close_resume_lem :
    (si : Server) (i : ℕ) (from : TcpState) (e : Entry)
    → get_elem? si.sockets i ≡ some e
    → ((close_resume si i from ≡ waits 0 si) × (e.freeing ≡ false) × (e.tcp_state ≢ closed))
      ⊎ ((close_resume si i from ≡ done 0 (release si i))
          × ((e.tcp_state ≡ closed)
              ⊎ (e.tcp_state ≡ fin_wait_2)
              ⊎ (e.tcp_state ≡ closing)
              ⊎ (e.tcp_state ≡ time_wait)
              ⊎ (e.tcp_state ≡ last_ack)))
      ⊎ ((close_resume si i from ≡ Outcome.failed ebadf (release si i)) × (e.freeing ≡ true))
unfolding close_resume close_end ended
close_resume_lem si i from e g = elim (Bool-cases (ends_wait from e.tcp_state || e.freeing)) [
  | inr sleeps ↦ inl (
    rw (g, close_resume, sleeps) refl,
    ground (arith, sleeps),
    waiting_cases from e.tcp_state (ground (arith, sleeps)),
  )
  | inl wakes ↦
      let q : close_resume si i from ≡ close_end si i e.tcp_state =
        rw (g, close_resume, wakes) refl in
      elim (Bool-cases (ended e.tcp_state)) [
        | inl over ↦ inr (inl (q ∙ rw (close_end, over) refl, ended_cases e.tcp_state over))
        | inr inconsistent ↦ inr (
            inr (
              q ∙ rw (close_end, inconsistent) refl,
              ground (arith, wakes, inconsistent, late_cases from e.tcp_state),
            ))
      ]
]
