-- ===== src/Handlers/Bind/Laws.antt =====
-- A port has one owner, and who listens on it is found.
use chitcp.Base.{
  ℕ, zero, suc, ◌+◌, ◌<◌, ◌≡◌, ◌≢◌, refl, ◌⊎◌, inl, inr, true, false, List, [], ◌∷◌, none, some,
  arith, get_elem?, length, get_elem?-set_self, Bool-cases, Option-cases, sym, ap, subst, ◌∙◌, ℤ,
  ltb, length-set, if◌then◌else◌, get_elem?-set_ne, set,
}
use chitcp.Types.{closed}
use chitcp.Addr.{Addr, addr_is_any, addr_port_cmp, addr_set_any, set_addr_port}
use chitcp.Addr.Laws.{IsAddr, addr_cmp_iff, addr_port_cmp_iff}
use chitcp.Server.{Server, Entry}
use chitcp.Sockets.{in_table, wildcards, local_wildcards, remote_wildcards}
use chitcp.Handlers.{ebadf, einval, usable, is_state}
use chitcp.Handlers.Bind.{
  host_port, bound, take_port, Check, refuses, takes, check_port, check_entry, bind_check,
  bind_finish, listening,
}
use chitcp.Sockets.Refs.Cases.{get_elem?-lt}

get_elem?-some {ℓ} :
    {A : Type ℓ} (xs : List A) (i : ℕ) → i < length xs → (x : A) × (get_elem? xs i ≡ some x)
get_elem?-some [] i h = absurd (omega arith)
get_elem?-some (x ∷ xs) zero h = (x, refl)
get_elem?-some (x ∷ xs) (suc i) h = get_elem?-some xs i (omega arith)

usable-get :
    (si : Server) (fd : ℤ) (i : ℕ) (e : Entry)
    → usable si fd ≡ some (i, e)
    → get_elem? si.sockets i ≡ some e
unfolding usable
usable-get si fd i e h = elim (Option-cases (in_table si fd)) [
  | inl bad ↦
      let here : usable si fd ≡ none = rw (bad, usable) refl in absurd (none_some (sym here ∙ h))
  | inr (k, good) ↦ elim (Option-cases (get_elem? si.sockets k)) [
    | inl out ↦
        let here : usable si fd ≡ none = rw (good, usable, out) refl in
        absurd (none_some (sym here ∙ h))
    | inr (x, g) ↦ elim (Bool-cases x.available) [
      | inl free ↦
          let here : usable si fd ≡ none = rw (good, usable, g, free) refl in
          absurd (none_some (sym here ∙ h))
      | inr used ↦
          let here : usable si fd ≡ some (k, x) = rw (good, usable, g, used) refl in
          subst (λ (y : ℕ × Entry). get_elem? si.sockets y.0 ≡ some y.1)
            (same_pair (k, x) (i, e) (sym here ∙ h)) g
    ]
  ]
]
  where
    none_some : {p : ℕ × Entry} → ¬ (none ≡ some p)
    none_some q = cc

    same_pair : (p q : ℕ × Entry) → some p ≡ some q → p ≡ q
    same_pair p q h = cc

abbrev Refused : Check → Type 0
Refused o = (o ≡ refuses ebadf) ⊎ (o ≡ refuses einval)

-- The checks where the port table has a place for the port: they refuse the socket, or the port is free and
-- the socket is one in use and CLOSED.
check_lem :
    (si : Server) (fd : ℤ) (a : Addr)
    → host_port a < length si.ports
    → Refused (bind_check si fd a)
      ⊎ ((i : ℕ) × (e : Entry) × (bind_check si fd a ≡ takes i)
          × (get_elem? si.sockets i ≡ some e)
          × (e.tcp_state ≡ closed)
          × (get_elem? si.ports (host_port a) ≡ some none))
unfolding bind_check check_entry check_port
check_lem si fd a place = elim (Option-cases (usable si fd)) [
  | inl bad ↦ inl (inl (rw (bad, bind_check) refl))
  | inr ((i, e), good) ↦ elim (Bool-cases (is_state e.tcp_state closed)) [
    | inr busy ↦ inl (inl (rw (good, bind_check, check_entry, busy) refl))
    | inl idle ↦
        let small : ltb (length si.ports) (host_port a) ≡ false = ground arith in
        let (owner, at) = get_elem?-some si.ports (host_port a) place in
        elim (Option-cases owner) [
          | inl q ↦
              let free = at ∙ ap some q in
              inr (
                i,
                e,
                rw (good, bind_check, check_entry, idle, small, check_port, free) refl,
                usable-get si fd i e good,
                ground arith,
                free,
              )
          | inr (j, q) ↦
              let taken = at ∙ ap some q in
              inl (inr (rw (good, bind_check, check_entry, idle, small, check_port, taken) refl))
        ]
  ]
]

bind_finish-eq :
    (si : Server) (i : ℕ) (e : Entry) (a : Addr)
    → get_elem? si.sockets i ≡ some e
    → bind_finish si i a ≡ take_port si i e a
unfolding bind_finish
bind_finish-eq si i e a g = rw (g, bind_finish) refl

Refused-takes : (o : Check) (i : ℕ) → Refused o → ¬ (o ≡ takes i)
Refused-takes o i (inl q) h = cc
Refused-takes o i (inr q) h = cc

-- The socket that goes on, and the port that is free for it
check-takes :
    (si : Server) (fd : ℤ) (a : Addr) (i : ℕ)
    → host_port a < length si.ports
    → bind_check si fd a ≡ takes i
    → (e : Entry) × (get_elem? si.sockets i ≡ some e)
      × (get_elem? si.ports (host_port a) ≡ some none)
check-takes si fd a i place h = elim (check_lem si fd a place) [
  | inl q ↦ absurd (Refused-takes _ i q h)
  | inr (k, e, q, g, _, free) ↦
      let same : k ≡ i = cc (q, h) in (e, subst (λ x. get_elem? si.sockets x ≡ some e) same g, free)
]

-- Once a thread that binds has made its writes, the checks of any later `bind` to the port refuse it,
-- whatever the socket and the rest of the address, in every state in which the port table is at that port as
-- the writes left it.
pub bind-refuses :
    (si later : Server) (fd : ℤ) (a a' : Addr) (i : ℕ) (e : Entry)
    → host_port a < length si.ports
    → get_elem? si.sockets i ≡ some e
    → host_port a' ≡ host_port a
    → get_elem? later.ports (host_port a) ≡ get_elem? (bind_finish si i a).ports (host_port a)
    → length later.ports ≡ length si.ports
    → (bind_check later fd a' ≡ refuses ebadf) ⊎ (bind_check later fd a' ≡ refuses einval)
unfolding take_port
bind-refuses si later fd a a' i e place g same kept size =
    let owner : get_elem? later.ports (host_port a) ≡ some (some i) =
      kept
      ∙ ap (λ s. get_elem? s.ports (host_port a)) (bind_finish-eq si i e a g)
      ∙ get_elem?-set_self si.ports (host_port a) (some i) place in
    elim (check_lem later fd a' (omega (arith, size, same))) [
      | inl q ↦ q
      | inr (j, x, _, _, _, free) ↦
          absurd
            (taken_free (sym (subst (λ p. get_elem? later.ports p ≡ some none) same free) ∙ owner))
    ]
  where
    taken_free : ¬ (some none ≡ some (some i))
    taken_free q = cc

-- Two threads that bind two sockets to one port of the table, both of which make their checks before either
-- makes its writes: both pass, both sockets have the address that they asked for, and the port table knows
-- only the one that wrote last.
pub bind-race :
    (si : Server) (fd fd' : ℤ) (a a' : Addr) (i j : ℕ)
    → host_port a < length si.ports
    → host_port a' ≡ host_port a
    → bind_check si fd a ≡ takes i
    → bind_check si fd' a' ≡ takes j
    → i ≢ j
    → let after = bind_finish (bind_finish si i a) j a' in
      (x : Entry) × (y : Entry) × (get_elem? after.sockets i ≡ some x)
      × (get_elem? after.sockets j ≡ some y)
      × (x.local_addr ≡ a)
      × (y.local_addr ≡ a')
      × (get_elem? after.ports (host_port a) ≡ some (some j))
unfolding take_port bound
bind-race si fd fd' a a' i j place same h h' ne =
    let (e, g, _) = check-takes si fd a i place h in
    let (e', g', _) = check-takes si fd' a' j (omega (arith, place, same)) h' in
    let s1 = take_port si i e a in
    let g1 = get_elem?-set_ne si.sockets i j (bound a e) ne ∙ g' in
    let s2 = take_port s1 j e' a' in
    let q : bind_finish (bind_finish si i a) j a' ≡ s2 =
      ap (λ s. bind_finish s j a') (bind_finish-eq si i e a g) ∙ bind_finish-eq s1 j e' a' g1 in
    let first : get_elem? s1.sockets i ≡ some (bound a e) =
      get_elem?-set_self si.sockets i (bound a e) (get_elem?-lt si.sockets i e g) in
    (
      bound a e,
      bound a' e',
      ap (λ s. get_elem? s.sockets i) q
          ∙ get_elem?-set_ne s1.sockets j i (bound a' e') (λ t. ne (sym t))
          ∙ first,
      ap (λ s. get_elem? s.sockets j) q
          ∙ get_elem?-set_self s1.sockets j (bound a' e') (get_elem?-lt s1.sockets j e' g1),
      refl,
      refl,
      ap (λ s. get_elem? s.ports (host_port a)) q
          ∙ subst (λ p. get_elem? (set s1.ports (host_port a') (some j)) p ≡ some (some j)) same
              (get_elem?-set_self s1.ports (host_port a') (some j)
                (omega (arith, place, same, length-set si.ports (host_port a) (some i)))),
    )

any_of_zero : (a : Addr) → a.ip ≡ 0 → addr_is_any a ≡ true
unfolding addr_is_any
any_of_zero a z = ground arith

remote_any :
    (a : Addr) (e : Entry)
    → (addr_is_any (bound a e).remote_addr ≡ true) × ((bound a e).remote_addr.family ≡ a.family)
unfolding bound addr_is_any addr_set_any set_addr_port
remote_any a e = ground arith

local_some :
    (l a : Addr) (e : Entry)
    → IsAddr l
    → IsAddr a
    → l.family ≡ a.family
    → (a.ip ≡ 0) ⊎ (l.ip ≡ a.ip)
    → e.local_addr ≡ a
    → (m : ℕ) × (local_wildcards l e ≡ some m)
unfolding local_wildcards
local_some l a e vl va f ip q = elim (Option-cases (local_wildcards l e)) [
  | inl out ↦ absurd (ground (arith, out, q, any_of_zero a, (addr_cmp_iff l a vl va).1))
  | inr found ↦ found
]

remote_some :
    (r : Addr) (e : Entry)
    → addr_is_any e.remote_addr ≡ true
    → (m : ℕ) × (remote_wildcards r e ≡ some m)
unfolding remote_wildcards
remote_some r e any = (if addr_is_any r then 0 else 1, ground arith)

matches_of_parts :
    (l r : Addr) (e : Entry) (m n : ℕ)
    → e.available ≡ false
    → e.freeing ≡ false
    → l.family ≡ e.local_addr.family
    → r.family ≡ e.remote_addr.family
    → addr_port_cmp l e.local_addr ≡ 0
    → local_wildcards l e ≡ some m
    → remote_wildcards r e ≡ some n
    → wildcards l r false e ≡ some (m + n)
unfolding wildcards
matches_of_parts l r e m n used kept fl fr port lm rn =
    ground (arith, used, kept, fl, fr, port, lm, rn)

-- A socket in use that is bound to an address and listens matches every segment of its family for
-- its port and IP address (for any IP address, if it is bound to that), whoever sent it.
listener-matches :
    (e : Entry) (a l r : Addr) (backlog : ℤ)
    → e.available ≡ false
    → e.freeing ≡ false
    → IsAddr a
    → IsAddr l
    → l.family ≡ a.family
    → r.family ≡ a.family
    → l.port ≡ a.port
    → (a.ip ≡ 0) ⊎ (l.ip ≡ a.ip)
    → (n : ℕ) × (wildcards l r false (listening backlog (bound a e)) ≡ some n)
unfolding bound listening
listener-matches e a l r backlog used kept va vl fl fr port ip =
    let x = listening backlog (bound a e) in
    let (any, fam) = remote_any a e in
    let (m, lm) = local_some l a x vl va fl ip refl in
    let (n, rn) = remote_some r x any in
    let same_port = (addr_port_cmp_iff l a vl va).1 (fl, port) in
    (m + n, matches_of_parts l r x m n used kept fl (fr ∙ sym fam) same_port lm rn)
