-- ===== src/Breakpoint/Shrink.antt =====
-- What taking a monitor off sockets does.
use chitcp.Base.{
  ℕ, zero, suc, ◌+◌, ◌≤◌, ◌<◌, ◌≡◌, ◌≢◌, refl, sym, ◌∙◌, ◌⊎◌, inl, inr, Bool, true, false, List, [],
  ◌∷◌, some, ◌==◌, get_elem?, set, length, arith, get_elem?-set_self, get_elem?-set_ne, length-set,
  set_out, Bool-cases, Option-cases, subst,
}
use chitcp.Sockets.Refs.Cases.{get_elem?-lt}
use chitcp.Breakpoint.{
  Monitor, Watch, Debug, unwatched, update, has, drop_ref, detach, detach_watch, remove_from,
  remove_all,
}
use chitcp.Breakpoint.Life.{count}

abbrev pub bit : Bool → ℕ
bit true = 1
bit false = 0

pub count-set :
    (m : ℕ) (ws : List Watch) (s : ℕ) (w v : Watch)
    → get_elem? ws s ≡ some w
    → count m (set ws s v) + bit (has m w) ≡ count m ws + bit (has m v)
unfolding count
count-set m [] s w v g = cc (g)
count-set m (x ∷ ws) zero w v g = let q : x ≡ w = cc (g) in rw (← q) (ground arith)
count-set m (x ∷ ws) (suc s) w v g = ground (arith, count-set m ws s w v g)

pub count-pos :
    (m : ℕ) (ws : List Watch) (s : ℕ) (w : Watch)
    → get_elem? ws s ≡ some w
    → has m w ≡ true
    → 0 < count m ws
unfolding count
count-pos m [] s w g h = cc (g)
count-pos m (x ∷ ws) zero w g h = let q : x ≡ w = cc (g) in ground arith
count-pos m (x ∷ ws) (suc s) w g h = ground (arith, count-pos m ws s w g h)

-- The monitor has no socket at this place.
abbrev pub Lacks : ℕ → List Watch → ℕ → Type 0
Lacks m ws k = (w : Watch) → get_elem? ws k ≡ some w → has m w ≡ false

pub count-zero :
    (m : ℕ) (ws : List Watch) → ((k : ℕ) → k < length ws → Lacks m ws k) → count m ws ≡ 0
unfolding count
count-zero m [] h = refl
count-zero m (x ∷ ws) h =
    let first : has m x ≡ false = h 0 (omega arith) x refl in
    let rest = count-zero m ws (λ k lt. h (suc k) (omega arith)) in ground arith

-- From `d`, where the monitor `m` is `x`, to `d'`, where it is `y`, the monitor lost sockets or none.
pub record Shrunk (d d' : Debug) (m : ℕ) (x y : Monitor) : Type 0 where
  pub here : get_elem? d'.monitors m ≡ some y
  pub elsewhere : (k : ℕ) → k ≢ m → get_elem? d'.monitors k ≡ get_elem? d.monitors k
  pub same_waiters : y.numwaiters ≡ x.numwaiters
  pub same_phase : y.phase ≡ x.phase
  pub same_end : y.destroyed ≡ x.destroyed
  pub fewer : (k : ℕ) → count k d'.watches ≤ count k d.watches
  pub refs : count m d.watches ≤ x.ref_count → count m d'.watches ≤ y.ref_count
  pub dies :
      count m d.watches ≤ x.ref_count → y.dying ≡ true → (x.dying ≡ true) ⊎ (count m d'.watches ≡ 0)
  pub stays : x.dying ≡ true → y.dying ≡ true
  pub size : length d'.watches ≡ length d.watches
  pub lacking : (k : ℕ) → Lacks m d.watches k → Lacks m d'.watches k

Shrunk-same : (d : Debug) (m : ℕ) (x : Monitor) → get_elem? d.monitors m ≡ some x → Shrunk d d m x x
Shrunk-same d m x g = record {
  here = g;
  elsewhere = λ k ne. refl;
  same_waiters = refl;
  same_phase = refl;
  same_end = refl;
  fewer = λ k. omega arith;
  refs = λ h. h;
  dies = λ h e. inl e;
  stays = λ e. e;
  size = refl;
  lacking = λ k h. h;
}

Shrunk-trans :
    (a b c : Debug) (m : ℕ) (x y z : Monitor)
    → Shrunk a b m x y
    → Shrunk b c m y z
    → Shrunk a c m x z
Shrunk-trans a b c m x y z p q = record {
  here = q.here;
  elsewhere = λ k ne. q.elsewhere k ne ∙ p.elsewhere k ne;
  same_waiters = q.same_waiters ∙ p.same_waiters;
  same_phase = q.same_phase ∙ p.same_phase;
  same_end = q.same_end ∙ p.same_end;
  fewer = λ k. omega (arith, q.fewer k, p.fewer k);
  refs = λ h. q.refs (p.refs h);
  dies = λ h e. elim (q.dies (p.refs h) e) [
    | inl e' ↦ elim (p.dies h e') [
      | inl e'' ↦ inl e''
      | inr none_left ↦ inr (omega (arith, q.fewer m))
    ]
    | inr none_left ↦ inr none_left
  ];
  stays = λ e. q.stays (p.stays e);
  size = q.size ∙ p.size;
  lacking = λ k h. q.lacking k (p.lacking k h);
}

pub place-cases : (s k : ℕ) → (s ≡ k) ⊎ (s ≢ k)
place-cases s k = elim (Bool-cases (s == k)) [
  | inl same ↦ inl (ground (arith, same))
  | inr other ↦ inr (λ e. ground (arith, other, e))
]

Lacks-set :
    (m : ℕ) (ws : List Watch) (s : ℕ) (w : Watch)
    → get_elem? ws s ≡ some w
    → Lacks m (set ws s unwatched) s
Lacks-set m ws s w g v gv =
    let e : unwatched ≡ v = cc (get_elem?-set_self ws s unwatched (get_elem?-lt ws s w g), gv) in
    subst (λ z. has m z ≡ false) e refl

Lacks-set_other :
    (m : ℕ) (ws : List Watch) (s k : ℕ) (w : Watch)
    → get_elem? ws s ≡ some w
    → Lacks m ws k
    → Lacks m (set ws s unwatched) k
Lacks-set_other m ws s k w g h = elim (place-cases s k) [
  | inl same ↦ subst (Lacks m (set ws s unwatched)) same (Lacks-set m ws s w g)
  | inr other ↦ λ v gv. h v (sym (get_elem?-set_ne ws s k unwatched other) ∙ gv)
]

-- The socket at `s` has the monitor and loses it.
abbrev dropped : Debug → ℕ → ℕ → Monitor → Debug
dropped d m s x = record {
  watches = set d.watches s unwatched;
  monitors = set d.monitors m (drop_ref x);
}

drop_lem :
    (d : Debug) (m s : ℕ) (x : Monitor) (w : Watch)
    → get_elem? d.monitors m ≡ some x
    → get_elem? d.watches s ≡ some w
    → has m w ≡ true
    → Shrunk d (dropped d m s x) m x (drop_ref x)
drop_lem d m s x w g gw h =
    let one : count m (dropped d m s x).watches + 1 ≡ count m d.watches + 0 =
      subst (λ b. count m (dropped d m s x).watches + bit b ≡ count m d.watches + 0) h
        (count-set m d.watches s w unwatched gw) in
    record {
      here = get_elem?-set_self d.monitors m (drop_ref x) (get_elem?-lt d.monitors m x g);
      elsewhere = λ k ne. get_elem?-set_ne d.monitors m k (drop_ref x) (λ e. ne (sym e));
      same_waiters = refl;
      same_phase = refl;
      same_end = refl;
      fewer = λ k. omega (arith, count-set k d.watches s w unwatched gw);
      refs = λ le. omega (arith, one, le);
      dies = λ le e. elim (Bool-cases (x.ref_count == 1)) [
        | inl last ↦ inr (ground (arith, one, le, last))
        | inr more ↦ inl (ground (arith, e, more))
      ];
      stays = λ e. ground (arith, e);
      size = length-set d.watches s unwatched;
      lacking = λ k. Lacks-set_other m d.watches s k w gw;
    }

pub update-eq :
    (d : Debug) (m : ℕ) (x : Monitor) (f : Monitor → Monitor)
    → get_elem? d.monitors m ≡ some x
    → update d m f ≡ record d { monitors = set d.monitors m (f x) }
update-eq d m x f g = rw (g, update) refl

-- Taking the monitor off one socket,
pub detach_lem :
    (d : Debug) (m s : ℕ) (x : Monitor)
    → get_elem? d.monitors m ≡ some x
    → (y : Monitor) × Shrunk d (detach d m s) m x y × Lacks m (detach d m s).watches s
unfolding detach detach_watch
detach_lem d m s x g = elim (Option-cases (get_elem? d.watches s)) [
  | inl out ↦ (x, rw (out, detach) (Shrunk-same d m x g), rw (out, detach) (λ w gw. cc (out, gw)))
  | inr (w, gw) ↦ elim (Bool-cases (has m w)) [
    | inr other ↦ (
      x,
      rw (gw, detach, other) (Shrunk-same d m x g),
      rw (gw, detach, other)
          (λ v gv. let e : w ≡ v = cc (gw, gv) in subst (λ z. has m z ≡ false) e other),
    )
    | inl own ↦
        let eq : detach d m s ≡ dropped d m s x =
          rw (gw, detach, own)
            (update-eq (record d { watches = set d.watches s unwatched }) m x drop_ref g) in
        (
          drop_ref x,
          subst (λ d'. Shrunk d d' m x (drop_ref x)) (sym eq) (drop_lem d m s x w g gw own),
          subst (λ d'. Lacks m d'.watches s) (sym eq) (Lacks-set m d.watches s w gw),
        )
  ]
]

-- off the next `n` sockets,
remove_from_lem :
    (n : ℕ) (d : Debug) (m s : ℕ) (x : Monitor)
    → get_elem? d.monitors m ≡ some x
    → (y : Monitor) × Shrunk d (remove_from d m s n) m x y
      × ((k : ℕ) → s ≤ k → k < s + n → Lacks m (remove_from d m s n).watches k)
unfolding remove_from
remove_from_lem zero d m s x g = (x, Shrunk-same d m x g, λ k lo hi. absurd (omega arith))
remove_from_lem (suc n) d m s x g =
    let (y, p, l) = detach_lem d m s x g in
    let (z, q, ls) = remove_from_lem n (detach d m s) m (s + 1) y p.here in
    (
      z,
      Shrunk-trans d (detach d m s) _ m x y z p q,
      λ k lo hi. elim (place-cases s k) [
        | inl same ↦ q.lacking k (subst (Lacks m (detach d m s).watches) same l)
        | inr other ↦ ls k (omega (arith, lo, λ (e : s ≡ k). other e)) (omega (arith, hi))
      ],
    )

-- and off all sockets.
pub remove_all_lem :
    (d : Debug) (m : ℕ) (x : Monitor)
    → get_elem? d.monitors m ≡ some x
    → (y : Monitor) × Shrunk d (remove_all d m) m x y × (count m (remove_all d m).watches ≡ 0)
unfolding remove_all
remove_all_lem d m x g =
    let (y, p, ls) = remove_from_lem (length d.watches) d m 0 x g in
    (y, p, count-zero m _ (λ k lt. ls k (omega arith) (omega (arith, lt, p.size))))

-- The monitor gets a socket, whosever it was.
pub count-attach :
    (k m : ℕ) (flags : ℕ) (ws : List Watch) (t : ℕ)
    → count k (set ws t (record { monitor = some m; event_flags = flags }))
      ≤ count k ws + bit (m == k)
count-attach k m flags ws t = elim (Option-cases (get_elem? ws t)) [
  | inl out ↦ rw (set_out ws t (record { monitor = some m; event_flags = flags }) out) (omega arith)
  | inr (w, g) ↦
      omega (arith, count-set k ws t w (record { monitor = some m; event_flags = flags }) g)
]

pub bit_ne : (m k : ℕ) → m ≢ k → bit (m == k) ≡ 0
bit_ne m k ne = ground (arith, ne)

pub bit-le : (b : Bool) → bit b ≤ 1
bit-le true = omega arith
bit-le false = omega arith
