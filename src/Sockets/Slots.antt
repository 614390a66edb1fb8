-- ===== src/Sockets/Slots.antt =====
-- The searches of serverinfo.c for a free slot: of a socket and of an ephemeral port.
use chitcp.Base.{
  ℕ, zero, suc, ◌+◌, ◌≤◌, ◌<◌, ◌%◌, ◌^◌, ◌≡◌, refl, ◌⊎◌, inl, inr, true, false, List, [], ◌∷◌,
  Option, none, some, arith, leb, get_elem?, length, Bool-cases, Option-cases, sym, subst,
}
use chitcp.Server.{Server, Entry}
use chitcp.Sockets.{first_available, allocate, allocated, change, first_free, find_ephemeral_port}
use chitcp.Sockets.Refs.Cases.{first_available_lem, get_elem?-lt}

first_available-lowest :
    (es : List Entry) (k i : ℕ)
    → first_available es k ≡ some i
    → (j : ℕ) (e : Entry) → k + j < i
    → get_elem? es j ≡ some e
    → e.available ≡ false
unfolding first_available
first_available-lowest [] k i h j e lt g = cc (g)
first_available-lowest (x ∷ es) k i h zero e lt g = ground arith
first_available-lowest (x ∷ es) k i h (suc j) e lt g = elim (Bool-cases x.available) [
  | inl free ↦ absurd (ground arith)
  | inr used ↦ first_available-lowest es (k + 1) i (ground arith) j e (omega arith) g
]

first_available-none :
    (es : List Entry) (k : ℕ)
    → first_available es k ≡ none
    → (j : ℕ) (e : Entry) → get_elem? es j ≡ some e
    → e.available ≡ false
unfolding first_available
first_available-none [] k h j e g = cc (g)
first_available-none (x ∷ es) k h zero e g = ground arith
first_available-none (x ∷ es) k h (suc j) e g = first_available-none es (k + 1) (ground arith) j e g

-- `chitcpd_allocate_socket` gives the lowest slot that is available, with the slot marked as in use,
-- and fails, with nothing changed, only when no slot is available.
allocate_lem :
    (si : Server) (thread : ℕ)
    → ((allocate si thread ≡ (none, si))
        × ((j : ℕ) (e : Entry) → get_elem? si.sockets j ≡ some e → e.available ≡ false))
      ⊎ ((i : ℕ) × (e : Entry) × (allocate si thread ≡ (some i, change si i (allocated thread)))
          × (get_elem? si.sockets i ≡ some e)
          × (e.available ≡ true)
          × ((j : ℕ) (x : Entry) → j < i → get_elem? si.sockets j ≡ some x → x.available ≡ false))
unfolding allocate
allocate_lem si thread = elim (Option-cases (first_available si.sockets 0)) [
  | inl all ↦ inl (rw (all, allocate) refl, first_available-none si.sockets 0 all)
  | inr (i, found) ↦
      let (j, e, q, g, a) = first_available_lem si.sockets 0 i found in
      let q' : j ≡ i = omega arith in
      inr (
        i,
        e,
        rw (found, allocate) refl,
        subst (λ k. get_elem? si.sockets k ≡ some e) q' g,
        a,
        λ k x lt gx. first_available-lowest si.sockets 0 i found k x (omega arith) gx,
      )
]

first_free-found :
    (ps : List (Option ℕ)) (start k i : ℕ)
    → first_free ps start k ≡ some i
    → (j : ℕ) × (start ≤ i) × (i ≡ k + j) × (get_elem? ps j ≡ some none)
unfolding first_free
first_free-found [] start k i h = cc (h)
first_free-found (none ∷ ps) start k i h = elim (Bool-cases (leb start k)) [
  | inl reached ↦ (0, ground arith, ground arith, refl)
  | inr early ↦
      let (j, le, q, g) = first_free-found ps start (k + 1) i (ground arith) in
      (suc j, le, omega arith, g)
]
first_free-found (some o ∷ ps) start k i h =
    let (j, le, q, g) = first_free-found ps start (k + 1) i (ground arith) in
    (suc j, le, omega arith, g)

first_free-lowest :
    (ps : List (Option ℕ)) (start k i : ℕ)
    → first_free ps start k ≡ some i
    → (j : ℕ) → start ≤ k + j
    → k + j < i
    → ¬ (get_elem? ps j ≡ some none)
unfolding first_free
first_free-lowest [] start k i h j le lt g = cc (h)
first_free-lowest (p ∷ ps) start k i h zero le lt g = ground arith
first_free-lowest (none ∷ ps) start k i h (suc j) le lt g = elim (Bool-cases (leb start k)) [
  | inl reached ↦ absurd (ground arith)
  | inr early ↦ first_free-lowest ps start (k + 1) i (ground arith) j (omega arith) (omega arith) g
]
first_free-lowest (some o ∷ ps) start k i h (suc j) le lt g =
    first_free-lowest ps start (k + 1) i (ground arith) j (omega arith) (omega arith) g

first_free-none :
    (ps : List (Option ℕ)) (start k : ℕ)
    → first_free ps start k ≡ none
    → (j : ℕ) → start ≤ k + j
    → ¬ (get_elem? ps j ≡ some none)
unfolding first_free
first_free-none [] start k h j le g = cc (g)
first_free-none (p ∷ ps) start k h zero le g = ground arith
first_free-none (none ∷ ps) start k h (suc j) le g = elim (Bool-cases (leb start k)) [
  | inl reached ↦ absurd (ground arith)
  | inr early ↦ first_free-none ps start (k + 1) (ground arith) j (omega arith) g
]
first_free-none (some o ∷ ps) start k h (suc j) le g =
    first_free-none ps start (k + 1) (ground arith) j (omega arith) g

-- `chitcpd_find_ephemeral_port` gives the lowest free port of the ephemeral range, and 65535 when
-- there is none, if the table has no more than 65536 ports.
pub find_ephemeral_port_lem :
    (si : Server)
    → length si.ports ≤ 2 ^ 16
    → ((si.ephemeral_port_start ≤ find_ephemeral_port si)
        × (get_elem? si.ports (find_ephemeral_port si) ≡ some none)
        × ((j : ℕ)
            → si.ephemeral_port_start ≤ j
            → j < find_ephemeral_port si
            → ¬ (get_elem? si.ports j ≡ some none)))
      ⊎ ((find_ephemeral_port si ≡ 65535)
          × ((j : ℕ) → si.ephemeral_port_start ≤ j → ¬ (get_elem? si.ports j ≡ some none)))
unfolding find_ephemeral_port
find_ephemeral_port_lem si bound =
    elim (Option-cases (first_free si.ports si.ephemeral_port_start 0)) [
      | inl taken ↦ inr (
        rw (taken, find_ephemeral_port) refl,
        λ j le. first_free-none si.ports si.ephemeral_port_start 0 taken j (omega arith),
      )
      | inr (i, found) ↦
          let (j, le, q, g) = first_free-found si.ports si.ephemeral_port_start 0 i found in
          let q' : j ≡ i = omega arith in
          let g' = subst (λ k. get_elem? si.ports k ≡ some none) q' g in
          let small : i % 2 ^ 16 ≡ i = omega (arith, get_elem?-lt si.ports i none g') in
          let r : find_ephemeral_port si ≡ i = rw (found, find_ephemeral_port) small in
          inl (
            omega arith,
            subst (λ k. get_elem? si.ports k ≡ some none) (sym r) g',
            λ k l lt.
                first_free-lowest si.ports si.ephemeral_port_start 0 i found k (omega arith)
                  (omega arith),
          )
    ]
