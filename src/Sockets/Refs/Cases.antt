-- ===== src/Sockets/Refs/Cases.antt =====
-- How the table's operations come out, and that a change of one entry keeps the others counted.
use chitcp.Base.{
  ℕ, zero, suc, ◌+◌, ◌<◌, ◌≡◌, ◌≢◌, refl, ◌⊎◌, inl, inr, true, false, List, [], ◌∷◌, none, some,
  arith, leb, ◌==◌, get_elem?, set, get_elem?-set_self, get_elem?-set_ne, length, Bool-cases,
  Option-cases, sym, ◌∙◌, subst, ℤ, not, ◌&&◌,
}
use chitcp.Server.{Server, Entry}
use chitcp.Sockets.{
  allocate, acquire, acquire_entry, change, put_entry, allocated, first_available, in_table,
}
use chitcp.Sockets.Refs.{count, remove, Counted, AllCounted}

pub get_elem?-lt {ℓ} :
    {A : Type ℓ} (es : List A) (i : ℕ) (e : A) → get_elem? es i ≡ some e → i < length es
get_elem?-lt [] i e h = cc
get_elem?-lt (x ∷ es) zero e h = omega arith
get_elem?-lt (x ∷ es) (suc i) e h = omega (arith, get_elem?-lt es i e h)

-- The other places have the same references, and the same threads about to clear them.
abbrev pub Others : ℕ → List ℕ → List ℕ → List ℕ → List ℕ → Type 0
Others i held past held' past' =
    (j : ℕ) → j ≢ i → (count j held' ≡ count j held) × (count j past' ≡ count j past)

pub same-Others : (i : ℕ) (held past : List ℕ) → Others i held past held past
same-Others i held past j ne = (refl, refl)

moved :
    (held past held' past' : List ℕ) (j : ℕ) (x : Entry)
    → Counted held past j x
    → (count j held' ≡ count j held) × (count j past' ≡ count j past)
    → Counted held' past' j x
moved held past held' past' j x c s = record {
  counted = c.counted ∙ sym s.0;
  free_unheld = λ a. s.0 ∙ c.free_unheld a;
  free_clear = c.free_clear;
  past_unheld = λ a. s.0 ∙ c.past_unheld (omega (arith, s.1));
  past_freeing = λ a. c.past_freeing (omega (arith, s.1));
  past_once = omega (arith, c.past_once, s.1);
}

-- One entry changes, and only its own references with it.
pub AllCounted-set :
    (es : List Entry) (held past held' past' : List ℕ) (i : ℕ) (e e' : Entry)
    → AllCounted es held past
    → get_elem? es i ≡ some e
    → Counted held' past' i e'
    → Others i held past held' past'
    → AllCounted (set es i e') held' past'
AllCounted-set es held past held' past' i e e' inv g c same = (entries, absent)
  where
    none_some : (none ≡ some e') → ⊥
    none_some h = cc

    entries : (j : ℕ) (x : Entry) → get_elem? (set es i e') j ≡ some x → Counted held' past' j x
    entries j x h = elim (Bool-cases (i == j)) [
      | inl eq ↦
          let q : i ≡ j = ground arith in
          let a = get_elem?-set_self es i e' (get_elem?-lt es i e g) in
          let b = subst (λ k. get_elem? (set es i e') k ≡ some x) (sym q) h in
          let r : e' ≡ x = cc (a, b) in
          subst (λ k. Counted held' past' k x) q (subst (λ y. Counted held' past' i y) r c)
      | inr ne ↦
          let q : i ≢ j = ground arith in
          let k = inv.0 j x (sym (get_elem?-set_ne es i j e' q) ∙ h) in
          moved held past held' past' j x k (same j (λ t. q (sym t)))
    ]

    absent : (j : ℕ) → get_elem? (set es i e') j ≡ none → (count j held' ≡ 0) × (count j past' ≡ 0)
    absent j h = elim (Bool-cases (i == j)) [
      | inl eq ↦
          let q : i ≡ j = ground arith in
          absurd (
            none_some (
              sym (subst (λ k. get_elem? (set es i e') k ≡ none) (sym q) h)
              ∙ get_elem?-set_self es i e' (get_elem?-lt es i e g)))
      | inr ne ↦
          let q : i ≢ j = ground arith in
          let s = same j (λ t. q (sym t)) in
          let a = inv.1 j (sym (get_elem?-set_ne es i j e' q) ∙ h) in (s.0 ∙ a.0, s.1 ∙ a.1)
    ]

pub count-cons_ne : (i j : ℕ) (held : List ℕ) → j ≢ i → count j (i ∷ held) ≡ count j held
count-cons_ne i j held ne = ground arith

pub count-cons_self : (i : ℕ) (held : List ℕ) → count i (i ∷ held) ≡ suc (count i held)
count-cons_self i held = ground arith

pub count-remove_self :
    (i : ℕ) (held : List ℕ) → 0 < count i held → suc (count i (remove i held)) ≡ count i held
count-remove_self i [] h = elim h [ ]
count-remove_self i (x ∷ held) h = ground (arith, count-remove_self i held)

pub count-remove_ne : (i j : ℕ) (held : List ℕ) → j ≢ i → count j (remove i held) ≡ count j held
count-remove_ne i j [] ne = refl
count-remove_ne i j (x ∷ held) ne = ground (arith, count-remove_ne i j held ne)

pub first_available_lem :
    (es : List Entry) (k i : ℕ)
    → first_available es k ≡ some i
    → (j : ℕ) × (e : Entry) × (i ≡ k + j) × (get_elem? es j ≡ some e) × (e.available ≡ true)
unfolding first_available
first_available_lem [] k i h = cc
first_available_lem (e ∷ es) k i h = elim (Bool-cases e.available) [
  | inl free ↦ (0, e, ground arith, refl, free)
  | inr used ↦
      let (j, x, q, g, a) = first_available_lem es (k + 1) i (ground arith) in
      (suc j, x, omega arith, g, a)
]

-- A step that changes entry `i` by `f`.
pub change-AllCounted :
    (si : Server) (held past held' past' : List ℕ) (i : ℕ) (f : Entry → Entry) (e : Entry)
    → AllCounted si.sockets held past
    → get_elem? si.sockets i ≡ some e
    → Counted held' past' i (f e)
    → Others i held past held' past'
    → AllCounted (change si i f).sockets held' past'
change-AllCounted si held past held' past' i f e inv g c same =
    let q : (change si i f).sockets ≡ set si.sockets i (f e) = rw (g, change) refl in
    subst (λ es. AllCounted es held' past') (sym q)
      (AllCounted-set si.sockets held past held' past' i e (f e) inv g c same)

-- The outcomes of an allocation.
pub allocate_cases :
    (si : Server) (thread : ℕ)
    → ((allocate si thread ≡ (none, si)) × (first_available si.sockets 0 ≡ none))
      ⊎ ((i : ℕ) × (e : Entry) × (allocate si thread ≡ (some i, change si i (allocated thread)))
          × (get_elem? si.sockets i ≡ some e)
          × (e.available ≡ true))
unfolding allocate
allocate_cases si thread = elim (Option-cases (first_available si.sockets 0)) [
  | inl none_left ↦ inl (rw (none_left, allocate) refl, none_left)
  | inr (i, found) ↦
      let (j, e, q, g, a) = first_available_lem si.sockets 0 i found in
      let q' : j ≡ i = omega arith in
      inr (i, e, rw (found, allocate) refl, subst (λ k. get_elem? si.sockets k ≡ some e) q' g, a)
]

-- The outcomes of `acquire`.
pub acquire_cases :
    (si : Server) (fd : ℤ)
    → (acquire si fd ≡ (none, si))
      ⊎ ((i : ℕ) × (e : Entry) × (in_table si fd ≡ some i)
          × (get_elem? si.sockets i ≡ some e)
          × (e.available ≡ false)
          × (e.freeing ≡ false)
          × (acquire si fd ≡ (some i, put_entry si i (record e { refcount = e.refcount + 1 }))))
unfolding acquire
acquire_cases si fd = elim (Option-cases (in_table si fd)) [
  | inl bad ↦ inl (rw (bad, acquire) refl)
  | inr (i, good) ↦ elim (Option-cases (get_elem? si.sockets i)) [
    | inl out ↦ inl (rw (good, acquire, out) refl)
    | inr (e, g) ↦ elim (Bool-cases (not e.available && not e.freeing)) [
      | inl usable ↦ inr (
        i,
        e,
        good,
        g,
        ground arith,
        ground arith,
        rw (good, acquire, g, acquire_entry, usable) refl,
      )
      | inr unusable ↦ inl (rw (good, acquire, g, acquire_entry, unusable) refl)
    ]
  ]
]

-- A socket in use that is not being freed can be acquired.
pub acquire-eq :
    (si : Server) (i : ℕ) (e : Entry)
    → get_elem? si.sockets i ≡ some e
    → e.available ≡ false
    → e.freeing ≡ false
    → acquire si (ℤ.pos i) ≡ (some i, put_entry si i (record e { refcount = e.refcount + 1 }))
unfolding acquire acquire_entry
acquire-eq si i e g used alive =
    let inside : leb (length si.sockets) i ≡ false =
      ground (arith, get_elem?-lt si.sockets i e g) in
    rw (inside, acquire, g, used, alive) refl
