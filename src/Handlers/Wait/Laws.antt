-- ===== src/Handlers/Wait/Laws.antt =====
-- What a wait for a state answers, and what a look at the buffers shows.
use chitcp.Base.{
  ℕ, ◌+◌, ◌≤◌, ◌≡◌, ◌≢◌, refl, ◌⊎◌, inl, inr, true, false, ◌&&◌, List, [], ◌∷◌, none, some, arith,
  get_elem?, get_elem?-set_self, Bool-cases, length, take, sym, ap, subst, ◌∙◌, ℤ, leb, ◌==◌, zero,
  suc,
}
use chitcp.Types.{active}
use chitcp.Buffer.{Buffer, count}
use chitcp.Buffer.Valid.{IsValid, contents, length-contents}
use chitcp.Buffer.Reads.{peek_lem}
use chitcp.Server.{Server, Entry}
use chitcp.Sockets.{acquire, release, put_entry, in_table}
use chitcp.Sockets.Restore.{release-put}
use chitcp.Sockets.Refs.Cases.{acquire_cases, get_elem?-lt}
use chitcp.Handlers.{
  Outcome, failed, done, waits, Errno, ebadf, einval, state_code, is_type, usable,
}
use chitcp.Handlers.Wait.{
  wait_resume, wait_found, wait_for_state, is_some, peeked, all_bytes, buffer_contents,
}

abbrev pub Answer : Server → ℤ → ℕ → Outcome → Type 0
Answer si fd s o =
    ((c : Errno) × (o ≡ failed c si)
      × ((leb s 10 ≡ false)
          ⊎ ((acquire si fd ≡ (none, si)) × ((s == 0 && is_some (in_table si fd)) ≡ false))
          ⊎ ((i : ℕ) × (e : Entry) × (get_elem? si.sockets i ≡ some e) × (e.actpas_type ≢ active))))
    ⊎ ((o ≡ done 0 si)
        × (((s ≡ 0) × (acquire si fd ≡ (none, si)))
            ⊎ ((i : ℕ) × (e : Entry) × (get_elem? si.sockets i ≡ some e)
                × (state_code e.tcp_state ≡ s))))
    ⊎ ((i : ℕ) × (e : Entry) × (get_elem? si.sockets i ≡ some e)
        × (o ≡ waits 0 (put_entry si i (record e { refcount = e.refcount + 1 })))
        × (e.actpas_type ≡ active)
        × (e.freeing ≡ false)
        × (state_code e.tcp_state ≢ s))

wait_found-Answer :
    (si : Server) (fd : ℤ) (s : ℕ)
    → Answer si fd s (wait_found (acquire si fd) (is_some (in_table si fd)) s)
unfolding wait_found wait_resume
wait_found-Answer si fd s = elim (acquire_cases si fd) [
  | inl q ↦
      let r = ap (λ x. wait_found x (is_some (in_table si fd)) s) q in
      elim (Bool-cases (s == 0 && is_some (in_table si fd))) [
        | inl gone ↦ inr (inl (r ∙ rw (gone, wait_found) refl, inl (ground (arith, gone), q)))
        | inr bad ↦ inl (ebadf, r ∙ rw (bad, wait_found) refl, inr (inl (q, bad)))
      ]
  | inr (i, e, _, g, _, kept, q) ↦
      let e' : Entry = record e { refcount = e.refcount + 1 } in
      let si' = put_entry si i e' in
      let g' = get_elem?-set_self si.sockets i e' (get_elem?-lt si.sockets i e g) in
      let r = ap (λ x. wait_found x (is_some (in_table si fd)) s) q in
      let back = release-put si i e g in
      elim (Bool-cases (is_type e.actpas_type active)) [
        | inr other ↦
            let t : wait_found (some i, si') (is_some (in_table si fd)) s
                ≡ failed ebadf (release si' i) =
              rw (g', wait_found, other) refl in
            inl (ebadf, r ∙ t ∙ ap (failed ebadf) back, inr (inr (i, e, g, ground (arith, other))))
        | inl act ↦
            let t : wait_found (some i, si') (is_some (in_table si fd)) s ≡ wait_resume si' i s =
              rw (g', wait_found, act) refl in
            elim (Bool-cases (state_code e.tcp_state == s)) [
              | inl there ↦
                  let u : wait_resume si' i s ≡ done 0 (release si' i) =
                    rw (g', wait_resume, there) refl in
                  inr (inl (r ∙ t ∙ u ∙ ap (done 0) back, inr (i, e, g, ground (arith, there))))
              | inr elsewhere ↦
                  let u : wait_resume si' i s ≡ waits 0 si' =
                    rw (g', wait_resume, elsewhere, kept) refl in
                  inr
                    (inr (i, e, g, r ∙ t ∙ u, ground (arith, act), kept, ground (arith, elsewhere)))
            ]
      ]
]

-- A wait for a state answers at once, and leaves the table as it was, or sleeps with one
-- reference. It succeeds in the state asked for, and when that is CLOSED and no socket can be
-- acquired; it fails only on a number that is no state, on a descriptor that cannot be acquired,
-- or on a socket that is not active; it sleeps only on an active socket that is in another state
-- and not being freed.
wait_for_state_lem : (si : Server) (fd : ℤ) (s : ℕ) → Answer si fd s (wait_for_state si fd s)
unfolding wait_for_state
wait_for_state_lem si fd s = elim (Bool-cases (leb s 10)) [
  | inl valid ↦
      let q : wait_for_state si fd s ≡ wait_found (acquire si fd) (is_some (in_table si fd)) s =
        rw (valid, wait_for_state) refl in
      subst (Answer si fd s) (sym q) (wait_found-Answer si fd s)
  | inr invalid ↦ inl (einval, rw (invalid, wait_for_state) refl, inl invalid)
]

take-all : (xs : List ℕ) (n : ℕ) → length xs ≤ n → take n xs ≡ xs
take-all [] zero h = refl
take-all [] (suc n) h = refl
take-all (x ∷ xs) zero h = absurd (omega arith)
take-all (x ∷ xs) (suc n) h = ap (λ ys. x ∷ ys) (take-all xs n (omega arith))

length-zero : (xs : List ℕ) → length xs ≡ 0 → xs ≡ []
length-zero [] h = refl
length-zero (x ∷ xs) h = absurd (omega arith)

eq_of : (n : ℕ) → (n == 0) ≡ true → n ≡ 0
eq_of n h = ground arith

all_bytes-eq-contents : (b : Buffer) → IsValid b → all_bytes b ≡ contents b
unfolding all_bytes peeked count
all_bytes-eq-contents b v = elim (Bool-cases (b.count == 0)) [
  | inl empty ↦
      rw (empty, all_bytes)
        (sym (length-zero (contents b) (omega (arith, length-contents b, eq_of b.count empty))))
  | inr some_in ↦
      let q = peek_lem b b.count false v (ground (arith, some_in)) (ground (arith, some_in)) in
      let all = take-all (contents b) b.count (omega (arith, length-contents b)) in
      rw (some_in, all_bytes) (ap (peeked b) q ∙ all)
]

-- The debugging interface shows the bytes of both buffers of a usable active socket, if they are
-- valid, as they are.
buffer_contents_lem :
    (si : Server) (fd : ℤ) (i : ℕ) (e : Entry)
    → usable si fd ≡ some (i, e)
    → e.actpas_type ≡ active
    → IsValid e.active.tcp_data.send
    → IsValid e.active.tcp_data.recv
    → buffer_contents si fd
      ≡ some (contents e.active.tcp_data.send, contents e.active.tcp_data.recv)
unfolding buffer_contents
buffer_contents_lem si fd i e good act vs vr =
    rw
      (
        good,
        buffer_contents,
        act,
        all_bytes-eq-contents e.active.tcp_data.send vs,
        all_bytes-eq-contents e.active.tcp_data.recv vr,
      )
      refl
