-- ===== src/Sockets/Refs/Safety.antt =====
-- No reference is ever left to a cleared entry.
use chitcp.Base.{
  ℕ, ◌+◌, ◌-◌, ◌<◌, ◌≡◌, refl, ◌∙◌, inl, inr, Bool, true, false, List, ◌∷◌, some, arith, get_elem?,
  Option-cases, Bool-cases, sym, subst, ℤ, ◌==◌,
}
use chitcp.Addr.{Addr}
use chitcp.Server.{Server, Entry, free_entry}
use chitcp.Sockets.Lookup.{lookup_lem, wildcards_sound}
use chitcp.Sockets.{
  allocate, acquire, release, lookup, free_begin, free_wait, free_port, free_clear, allocated,
}
use chitcp.Sockets.Restore.{set-get}
use chitcp.Sockets.Refs.{
  World, count, remove, take_ref, Step, allocates, acquires, looks_up, releases, begins_free,
  ends_wait, clears_port, clears_entry, Reach, here, then_step, Counted, AllCounted, Inv,
}
use chitcp.Sockets.Refs.Cases.{
  allocate_cases, acquire_cases, Others, same-Others, AllCounted-set, count-cons_ne,
  count-cons_self, count-remove_self, count-remove_ne, change-AllCounted,
}

allocate-Inv : (w : World) (thread : ℕ) → Inv w → Inv (record w { si = (allocate w.si thread).1 })
allocate-Inv w thread inv = elim (allocate_cases w.si thread) [
  | inl (q, _) ↦ subst (λ x. AllCounted x.1.sockets w.held w.past) (sym q) inv
  | inr (i, e, q, g, a) ↦
      let c = inv.0 i e g in
      subst (λ x. AllCounted x.1.sockets w.held w.past) (sym q)
        (change-AllCounted w.si w.held w.past w.held w.past i (allocated thread) e inv g
          (record {
            counted = c.counted;
            free_unheld = λ b. cc;
            free_clear = λ b. cc;
            past_unheld = λ b. c.past_unheld b;
            past_freeing = λ b. c.past_freeing b;
            past_once = c.past_once;
          })
          (same-Others i w.held w.past))
]

-- Taking a reference on an entry that is in use and not being freed.
one_more :
    (held past : List ℕ) (i : ℕ) (e : Entry)
    → Counted held past i e
    → e.available ≡ false
    → e.freeing ≡ false
    → Counted (i ∷ held) past i (record e { refcount = e.refcount + 1 })
one_more held past i e c used alive = record {
  counted = omega (arith, c.counted, count-cons_self i held);
  free_unheld = λ b. cc;
  free_clear = λ b. cc;
  past_unheld = λ b. let marked = c.past_freeing b in cc;
  past_freeing = λ b. let marked = c.past_freeing b in cc;
  past_once = c.past_once;
}

Others-cons : (i : ℕ) (held past : List ℕ) → Others i held past (i ∷ held) past
Others-cons i held past j ne = (count-cons_ne i j held ne, refl)

acquire-Inv : (w : World) (fd : ℤ) → Inv w → Inv (take_ref w (acquire w.si fd))
acquire-Inv w fd inv = elim (acquire_cases w.si fd) [
  | inl q ↦ subst (λ x. Inv (take_ref w x)) (sym q) inv
  | inr (i, e, _, g, used, alive, q) ↦
      subst (λ x. Inv (take_ref w x)) (sym q)
        (AllCounted-set w.si.sockets w.held w.past (i ∷ w.held) w.past i e
          (record e { refcount = e.refcount + 1 }) inv g
          (one_more w.held w.past i e (inv.0 i e g) used alive) (Others-cons i w.held w.past))
]

lookup-Inv :
    (w : World) (l r : Addr) (exact : Bool) → Inv w → Inv (take_ref w (lookup w.si l r exact))
lookup-Inv w l r exact inv = elim (lookup_lem w.si l r exact) [
  | inl (q, _) ↦ subst (λ x. Inv (take_ref w x)) (sym q) inv
  | inr (k, n, q, b) ↦
      let (e, g, m) = b.matches in
      let ok = wildcards_sound l r exact e n m in
      subst (λ x. Inv (take_ref w x)) (sym q)
        (change-AllCounted w.si w.held w.past (k ∷ w.held) w.past k
          (λ e. record e { refcount = e.refcount + 1 }) e inv g
          (one_more w.held w.past k e (inv.0 k e g) (ground (arith, ok)) (ground (arith, ok)))
          (Others-cons k w.held w.past))
]

release-Inv :
    (w : World) (i : ℕ)
    → 0 < count i w.held
    → Inv w
    → Inv (record w { si = release w.si i; held = remove i w.held })
unfolding release
release-Inv w i h inv = elim (Option-cases (get_elem? w.si.sockets i)) [
  | inl out ↦ absurd (omega (arith, (inv.1 i out).0))
  | inr (e, g) ↦
      let c = inv.0 i e g in
      change-AllCounted w.si w.held w.past (remove i w.held) w.past i
        (λ x. record x { refcount = x.refcount - 1 }) e inv g
        (record {
          counted = omega (arith, c.counted, count-remove_self i w.held h);
          free_unheld = λ b. absurd (omega (arith, h, c.free_unheld b));
          free_clear = c.free_clear;
          past_unheld = λ b. absurd (omega (arith, h, c.past_unheld b));
          past_freeing = c.past_freeing;
          past_once = c.past_once;
        })
        (λ j ne. (count-remove_ne i j w.held ne, refl))
]

free_begin-Inv :
    (w : World) (i : ℕ) (e : Entry)
    → get_elem? w.si.sockets i ≡ some e
    → e.available ≡ false
    → Inv w
    → Inv (record w { si = free_begin w.si i })
unfolding free_begin
free_begin-Inv w i e g used inv =
    let c = inv.0 i e g in
    change-AllCounted w.si w.held w.past w.held w.past i (λ x. record x { freeing = true }) e inv g
      (record {
        counted = c.counted;
        free_unheld = c.free_unheld;
        free_clear = λ b. cc;
        past_unheld = c.past_unheld;
        past_freeing = λ b. refl;
        past_once = c.past_once;
      })
      (same-Others i w.held w.past)

waited-refcount :
    (si : Server) (i : ℕ) (e : Entry)
    → get_elem? si.sockets i ≡ some e
    → free_wait si i ≡ true
    → e.refcount ≡ 0
unfolding free_wait
waited-refcount si i e g over =
    let q : free_wait si i ≡ (e.refcount == 0) = rw (g, free_wait) refl in
    ground (arith, sym q ∙ over)

-- The entries stay, and a thread is about to clear entry `i`.
ends_wait-Inv :
    (w : World) (i : ℕ) (e : Entry)
    → get_elem? w.si.sockets i ≡ some e
    → e.freeing ≡ true
    → count i w.past ≡ 0
    → free_wait w.si i ≡ true
    → Inv w
    → Inv (record w { past = i ∷ w.past })
ends_wait-Inv w i e g marked first over inv =
    let c = inv.0 i e g in
    let gone = waited-refcount w.si i e g over in
    subst (λ es. AllCounted es w.held (i ∷ w.past)) (set-get w.si.sockets i e g)
      (AllCounted-set w.si.sockets w.held w.past w.held (i ∷ w.past) i e e inv g
        (record {
          counted = c.counted;
          free_unheld = c.free_unheld;
          free_clear = c.free_clear;
          past_unheld = λ b. omega (arith, c.counted, gone);
          past_freeing = λ b. marked;
          past_once = omega (arith, first, count-cons_self i w.past);
        })
        (λ j ne. (refl, count-cons_ne i j w.past ne)))

free_port-sockets : (si : Server) (i : ℕ) → (free_port si i).sockets ≡ si.sockets
unfolding free_port
free_port-sockets si i = elim (Option-cases (get_elem? si.sockets i)) [
  | inl out ↦ rw (out, free_port) refl
  | inr (e, g) ↦ rw (g, free_port) refl
]

free_clear-Inv :
    (w : World) (i : ℕ)
    → 0 < count i w.past
    → Inv w
    → Inv (record w { si = free_clear w.si i; past = remove i w.past })
unfolding free_clear
free_clear-Inv w i h inv = elim (Option-cases (get_elem? w.si.sockets i)) [
  | inl out ↦ absurd (omega (arith, (inv.1 i out).1))
  | inr (e, g) ↦
      let c = inv.0 i e g in
      let none_left : count i (remove i w.past) ≡ 0 =
        omega (arith, c.past_once, count-remove_self i w.past h) in
      change-AllCounted w.si w.held w.past w.held (remove i w.past) i (λ x. free_entry) e inv g
        (record {
          counted = sym (c.past_unheld h);
          free_unheld = λ b. c.past_unheld h;
          free_clear = λ b. refl;
          past_unheld = λ b. c.past_unheld h;
          past_freeing = λ b. absurd (omega (arith, b, none_left));
          past_once = omega (arith, none_left);
        })
        (λ j ne. (refl, count-remove_ne i j w.past ne))
]

-- Every step keeps the references counted.
pub Step-Inv : {u v : World} → Step u v → Inv u → Inv v
Step-Inv {u = u} (allocates thread) inv = allocate-Inv u thread inv
Step-Inv {u = u} (acquires fd) inv = acquire-Inv u fd inv
Step-Inv {u = u} (looks_up l r exact) inv = lookup-Inv u l r exact inv
Step-Inv {u = u} (releases i h) inv = release-Inv u i h inv
Step-Inv {u = u} (begins_free i e g used) inv = free_begin-Inv u i e g used inv
Step-Inv {u = u} (ends_wait i e g f c z) inv = ends_wait-Inv u i e g f c z inv
Step-Inv {u = u} (clears_port i h) inv =
    subst (λ es. AllCounted es u.held u.past) (sym (free_port-sockets u.si i)) inv
Step-Inv {u = u} (clears_entry i h) inv = free_clear-Inv u i h inv

-- From a state in which every reference is counted and nobody holds one on a free entry, both stay
-- so along every interleaving.
pub Reach-Inv : {u v : World} → Reach u v → Inv u → Inv v
Reach-Inv here inv = inv
Reach-Inv (then_step r s) inv = Step-Inv s (Reach-Inv r inv)

pub held_safe :
    {u v : World} (i : ℕ) (e : Entry)
    → Inv u
    → Reach u v
    → 0 < count i v.held
    → get_elem? v.si.sockets i ≡ some e
    → (e.available ≡ false) × (count i v.past ≡ 0) × (free_wait v.si i ≡ false)
held_safe {v = v} i e inv r h g =
    let c = (Reach-Inv r inv).0 i e g in
    (
      ground (arith, c.free_unheld),
      ground (arith, c.past_unheld),
      elim (Bool-cases (free_wait v.si i)) [
        | inl over ↦ absurd (omega (arith, waited-refcount v.si i e g over, c.counted))
        | inr waiting ↦ waiting
      ],
    )
