-- ===== src/Breakpoint/Keep.antt =====
-- Steps that keep the monitors good: the general ones, and those of a thread that holds a monitor's lock.
use chitcp.Base.{
  ℕ, ◌+◌, ◌-◌, ◌≤◌, ◌<◌, ◌≡◌, ◌≢◌, refl, sym, ◌∙◌, inl, inr, true, false, none, some, if◌then◌else◌,
  get_elem?, arith, get_elem?-set_self, get_elem?-set_ne, Bool-cases, Option-cases, subst,
}
use chitcp.Sockets.Refs.Cases.{get_elem?-lt}
use chitcp.Breakpoint.{
  Phase, unlocked, removing, leaving, breaking, talking, Monitor, Watch, Debug, update, has,
  wait_for, take_lock, recheck, after,
}
use chitcp.Breakpoint.Life.{count, Good, Inv}
use chitcp.Breakpoint.Shrink.{place-cases, count-pos, Shrunk, update-eq}

-- Fewer sockets are as good.
pub Good-le : (k n : ℕ) (x : Monitor) → k ≤ n → Good n x → Good k x
Good-le k n x le v = record {
  refs = omega (arith, v.refs);
  clear = λ d p. omega (arith, v.clear d p);
  over = v.over;
  ended = v.ended;
}

-- A step that changes one monitor, and gives no socket to another.
pub one-Inv :
    (d d' : Debug) (m : ℕ) (y : Monitor)
    → Inv d
    → get_elem? d'.monitors m ≡ some y
    → ((k : ℕ) → k ≢ m → get_elem? d'.monitors k ≡ get_elem? d.monitors k)
    → ((k : ℕ) → k ≢ m → count k d'.watches ≤ count k d.watches)
    → Good (count m d'.watches) y
    → Inv d'
one-Inv d d' m y inv here elsewhere fewer v = record { good = good; known = known }
  where
    good : (k : ℕ) (z : Monitor) → get_elem? d'.monitors k ≡ some z → Good (count k d'.watches) z
    good k z g = elim (place-cases m k) [
      | inl same ↦
          subst (λ j. Good (count j d'.watches) z) same
            (subst (Good (count m d'.watches)) (cc (here, same, g)) v)
      | inr other ↦
          let ne : k ≢ m = λ e. other (sym e) in
          Good-le _ _ z (fewer k ne) (inv.good k z (sym (elsewhere k ne) ∙ g))
    ]

    known : (k : ℕ) → get_elem? d'.monitors k ≡ none → count k d'.watches ≡ 0
    known k g = elim (place-cases m k) [
      | inl same ↦ cc (here, same, g)
      | inr other ↦
          let ne : k ≢ m = λ e. other (sym e) in
          omega (arith, fewer k ne, inv.known k (sym (elsewhere k ne) ∙ g))
    ]

-- A step that changes one monitor and no socket.
pub update-Inv :
    (d : Debug) (m : ℕ) (x : Monitor) (f : Monitor → Monitor)
    → Inv d
    → get_elem? d.monitors m ≡ some x
    → Good (count m d.watches) (f x)
    → Inv (update d m f)
update-Inv d m x f inv g v = subst Inv (sym (update-eq d m x f g)) (
    one-Inv d _ m (f x) inv (get_elem?-set_self d.monitors m (f x) (get_elem?-lt d.monitors m x g))
      (λ k ne. get_elem?-set_ne d.monitors m k (f x) (λ e. ne (sym e))) (λ k ne. omega arith) v)

-- A step that takes the monitor off sockets and then changes it.
pub Shrunk-Inv :
    (d d' : Debug) (m : ℕ) (x y : Monitor) (f : Monitor → Monitor)
    → Inv d
    → Shrunk d d' m x y
    → Good (count m d'.watches) (f y)
    → Inv (update d' m f)
Shrunk-Inv d d' m x y f inv p v = subst Inv (sym (update-eq d' m y f p.here)) (
    one-Inv d _ m (f y) inv
      (get_elem?-set_self d'.monitors m (f y) (get_elem?-lt d'.monitors m y p.here))
      (λ k ne. get_elem?-set_ne d'.monitors m k (f y) (λ e. ne (sym e)) ∙ p.elsewhere k ne)
      (λ k ne. p.fewer k) v)

has-own : (m : ℕ) (w : Watch) → w.monitor ≡ some m → has m w ≡ true
has-own m w own = rw own (ground arith)

-- A monitor that a socket has is there, and is not destroyed.
pub watched-alive :
    (d : Debug) (s m : ℕ) (w : Watch)
    → Inv d
    → get_elem? d.watches s ≡ some w
    → w.monitor ≡ some m
    → (x : Monitor) × (get_elem? d.monitors m ≡ some x) × (x.destroyed ≡ false)
watched-alive d s m w inv gw own = elim (Option-cases (get_elem? d.monitors m)) [
  | inl out ↦
      absurd (omega (arith, inv.known m out, count-pos m d.watches s w gw (has-own m w own)))
  | inr (x, g) ↦ (
    x,
    g,
    elim (Bool-cases x.destroyed) [
      | inr alive ↦ alive
      | inl over ↦
          let (_, free, dying) = (inv.good m x g).over over in
          absurd (
            omega (
              arith,
              (inv.good m x g).clear dying (λ e. cc (e, free)),
              count-pos m d.watches s w gw (has-own m w own),
            ))
    ],
  )
]

pub waits-Inv :
    (d : Debug) (s m : ℕ) (w : Watch)
    → Inv d
    → get_elem? d.watches s ≡ some w
    → w.monitor ≡ some m
    → Inv (wait_for d m)
unfolding wait_for
waits-Inv d s m w inv gw own =
    let (x, g, alive) = watched-alive d s m w inv gw own in
    let v = inv.good m x g in
    update-Inv d m x (λ y. record y { numwaiters = y.numwaiters + 1 }) inv g
      (record {
        refs = v.refs;
        clear = v.clear;
        over = λ e. cc (e, alive);
        ended = λ dy un z. absurd (omega arith);
      })

pub locks-Inv :
    (d : Debug) (m : ℕ) (x : Monitor) (p : Phase)
    → Inv d
    → get_elem? d.monitors m ≡ some x
    → x.phase ≡ unlocked
    → 0 < x.numwaiters
    → p ≢ unlocked
    → p ≢ removing
    → Inv (take_lock d m p)
unfolding take_lock
locks-Inv d m x p inv g free waiting held early =
    let v = inv.good m x g in
    update-Inv d m x (λ y. record y { numwaiters = y.numwaiters - 1; phase = p }) inv g
      (record {
        refs = v.refs;
        clear = λ dy ne. v.clear dy (λ e. cc (e, free));
        over = λ e. absurd (omega (arith, (v.over e).0));
        ended = λ dy un z. absurd (held un);
      })

-- A holder that goes on, and keeps the lock.
pub holds-Inv :
    (d : Debug) (m : ℕ) (x : Monitor) (f : Monitor → Monitor)
    → Inv d
    → get_elem? d.monitors m ≡ some x
    → x.phase ≢ unlocked
    → (f x).phase ≢ unlocked
    → (f x).ref_count ≡ x.ref_count
    → (f x).destroyed ≡ x.destroyed
    → ((f x).dying ≡ true → (f x).phase ≢ removing → count m d.watches ≡ 0)
    → Inv (update d m f)
holds-Inv d m x f inv g held still refs same clear =
    let v = inv.good m x g in
    update-Inv d m x f inv g (record {
      refs = omega (arith, v.refs, refs);
      clear = clear;
      over = λ e. absurd (held (v.over (sym same ∙ e)).1);
      ended = λ dy un z. absurd (still un);
    })

pub after-phase :
    (x : Monitor) → ((after x).phase ≢ unlocked) × (x.dying ≡ true → (after x).phase ≡ removing)
after-phase x = elim (Bool-cases x.dying) [
  | inl dy ↦ (λ e. ground (arith, dy, e), λ h. ground (arith, dy))
  | inr ok ↦ (λ e. ground (arith, ok, e), λ h. cc (h, ok))
]

pub goes_on-Inv :
    (d : Debug) (m : ℕ) (x : Monitor)
    → Inv d
    → get_elem? d.monitors m ≡ some x
    → x.phase ≢ unlocked
    → Inv (update d m after)
goes_on-Inv d m x inv g held =
    holds-Inv d m x after inv g held (after-phase x).0 refl refl
      (λ dy ne. absurd (ne ((after-phase x).1 dy)))

pub looks-Inv :
    (d : Debug) (s m : ℕ) (x : Monitor) (w : Watch)
    → Inv d
    → get_elem? d.monitors m ≡ some x
    → x.phase ≡ breaking s
    → Inv (recheck d m s w)
unfolding recheck
looks-Inv d s m x w inv g held =
    holds-Inv d m x (λ y. record y { phase = if has m w then talking s else leaving }) inv g
      (λ e. cc (e, held)) (λ e. ground (arith, e)) refl refl
      (λ dy ne. (inv.good m x g).clear dy (λ e. cc (e, held)))
