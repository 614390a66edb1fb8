-- ===== src/Sockets/Lookup.antt =====
-- `chitcpd_lookup_socket` finds the best match: a socket with the fewest wildcards, and of these the
-- one with the lowest number.
use chitcp.Base.{
  ℕ, zero, suc, ◌+◌, ◌≤◌, ◌<◌, ◌≡◌, refl, ◌⊎◌, inl, inr, Bool, true, false, List, [], ◌∷◌, Option,
  none, some, arith, ltb, ◌==◌, get_elem?, Bool-cases, Option-cases, sym, ap, ◌∙◌,
}
use chitcp.Addr.{Addr, addr_port_cmp, addr_cmp, addr_is_any}
use chitcp.Addr.Laws.{IsAddr, cmp-eq}
use chitcp.Server.{Server, Entry}
use chitcp.Sockets.{wildcards, lookup_from, lookup, change}

module _ (l r : Addr) (exact : Bool) where
  -- Entry `k` of the list matches with `n` wildcards.
  abbrev pub Matches : List Entry → ℕ → ℕ → Type 0
  Matches es k n = (e : Entry) × (get_elem? es k ≡ some e) × (wildcards l r exact e ≡ some n)

  -- Entry `k` matches with `n` wildcards, none with fewer and no earlier one with as many.
  pub record Best (es : List Entry) (k n : ℕ) : Type 0 where
    pub matches : Matches es k n
    pub fewest : (j m : ℕ) → Matches es j m → n ≤ m
    pub first : (j m : ℕ) → Matches es j m → m ≡ n → k ≤ j

  -- No entry matches with fewer wildcards than `max`.
  abbrev NoneBelow : List Entry → ℕ → Type 0
  NoneBelow es max = (j m : ℕ) → Matches es j m → max ≤ m

  NoneBelow-cons :
      (e : Entry) (es : List Entry) (max : ℕ)
      → ((m : ℕ) → wildcards l r exact e ≡ some m → max ≤ m)
      → NoneBelow es max
      → NoneBelow (e ∷ es) max
  NoneBelow-cons e es max h rest zero m (x, g, w) = h m (ground (arith, g, w))
  NoneBelow-cons e es max h rest (suc j) m (x, g, w) = rest j m (x, g, w)

  Best-here :
      (e : Entry) (es : List Entry) (n : ℕ)
      → wildcards l r exact e ≡ some n
      → NoneBelow es n
      → Best (e ∷ es) 0 n
  Best-here e es n w below = record {
    matches = (e, refl, w);
    fewest = NoneBelow-cons e es n (λ m q. ground (arith, w, q)) below;
    first = λ j m q c. omega arith;
  }

  Best-later :
      (e : Entry) (es : List Entry) (k n : ℕ)
      → ((m : ℕ) → wildcards l r exact e ≡ some m → n < m)
      → Best es k n
      → Best (e ∷ es) (suc k) n
  Best-later e es k n h b = record {
    matches = b.matches;
    fewest = NoneBelow-cons e es n (λ m q. omega (arith, h m q)) b.fewest;
    first = later;
  }
    where
      later : (j m : ℕ) → Matches (e ∷ es) j m → m ≡ n → suc k ≤ j
      later zero m (x, g, w) c = absurd (omega (arith, h m (ground (arith, g, w))))
      later (suc j) m (x, g, w) c = omega (arith, b.first j m (x, g, w) c)

  -- What the loop answers: the best so far, or a better one among the entries left.
  abbrev Answers : List Entry → ℕ → Option ℕ → ℕ → Option ℕ → Type 0
  Answers es i best max res =
      ((res ≡ best) × NoneBelow es max)
      ⊎ ((k : ℕ) × (n : ℕ) × (res ≡ some (i + k)) × (n < max) × Best es k n)

  Answers-skip :
      (e : Entry) (es : List Entry) (i : ℕ) (best : Option ℕ) (max : ℕ) (res : Option ℕ)
      → ((m : ℕ) → wildcards l r exact e ≡ some m → max ≤ m)
      → Answers es (i + 1) best max res
      → Answers (e ∷ es) i best max res
  Answers-skip e es i best max res h (inl (q, below)) = inl (q, NoneBelow-cons e es max h below)
  Answers-skip e es i best max res h (inr (k, n, q, lt, b)) =
      inr (
        suc k,
        n,
        q ∙ ap some (omega arith),
        lt,
        Best-later e es k n (λ m c. omega (arith, h m c)) b,
      )

  Answers-take :
      (e : Entry) (es : List Entry) (i : ℕ) (best : Option ℕ) (max n : ℕ) (res : Option ℕ)
      → wildcards l r exact e ≡ some n
      → n < max
      → Answers es (i + 1) (some i) n res
      → Answers (e ∷ es) i best max res
  Answers-take e es i best max n res w lt (inl (q, below)) =
      inr (0, n, q ∙ ap some (omega arith), lt, Best-here e es n w below)
  Answers-take e es i best max n res w lt (inr (k, m, q, lt', b)) = inr (
    suc k,
    m,
    q ∙ ap some (omega arith),
    omega arith,
    Best-later e es k m (λ c d. ground (arith, w, d)) b,
  )

  lookup_from-Answers :
      (es : List Entry) (i : ℕ) (best : Option ℕ) (max : ℕ)
      → Answers es i best max (lookup_from l r exact es i best max)
  unfolding lookup_from
  lookup_from-Answers [] i best max = inl (refl, λ j m q. cc (q.1))
  lookup_from-Answers (e ∷ es) i best max = elim (Option-cases (wildcards l r exact e)) [
    | inl w ↦
        rw (w, lookup_from)
          (Answers-skip e es i best max _ (λ m q. cc (w, q))
            (lookup_from-Answers es (i + 1) best max))
    | inr (n, w) ↦ elim (Bool-cases (ltb n max)) [
      | inr ge ↦
          rw (w, lookup_from, ge)
            (Answers-skip e es i best max _ (λ m q. ground (arith, w, q))
              (lookup_from-Answers es (i + 1) best max))
      | inl lt ↦ elim (Bool-cases (n == 0)) [
        | inl z ↦
            rw (w, lookup_from, lt, z)
              (inr (
                0,
                n,
                ap some (omega arith),
                ground arith,
                Best-here e es n w (λ j m q. ground arith),
              ))
        | inr nz ↦
            rw (w, lookup_from, lt, nz)
              (Answers-take e es i best max n _ w (ground arith)
                (lookup_from-Answers es (i + 1) (some i) n))
      ]
    ]
  ]

  wildcards-lt : (e : Entry) (n : ℕ) → wildcards l r exact e ≡ some n → n < 3
  unfolding wildcards
  wildcards-lt e n h = ground arith

-- `chitcpd_lookup_socket` takes a reference on the best match, the first of those with the fewest
-- wildcards, or finds nothing and changes nothing when no socket matches.
pub lookup_lem :
    (si : Server) (l r : Addr) (exact : Bool)
    → ((lookup si l r exact ≡ (none, si)) × ((k n : ℕ) → ¬ Matches l r exact si.sockets k n))
      ⊎ ((k : ℕ) × (n : ℕ) × (lookup si l r exact
            ≡ (some k, change si k (λ e. record e { refcount = e.refcount + 1 })))
          × Best l r exact si.sockets k n)
unfolding lookup
lookup_lem si l r exact = answer (lookup_from-Answers l r exact si.sockets 0 none 3)
  where
    answer :
        Answers l r exact si.sockets 0 none 3 (lookup_from l r exact si.sockets 0 none 3)
        → ((lookup si l r exact ≡ (none, si)) × ((k n : ℕ) → ¬ Matches l r exact si.sockets k n))
          ⊎ ((k : ℕ) × (n : ℕ) × (lookup si l r exact
                ≡ (some k, change si k (λ e. record e { refcount = e.refcount + 1 })))
              × Best l r exact si.sockets k n)
    answer (inl (q, below)) =
        inl (
          rw (q, lookup) refl,
          λ k n m. omega (arith, below k n m, wildcards-lt l r exact m.0 n m.2),
        )
    answer (inr (k, n, q, lt, b)) =
        let e : 0 + k ≡ k = omega arith in inr (k, n, rw (q, lookup, e) refl, b)

-- What a match says of the socket: it is in use and not being freed, of the families asked for, and
-- on the port asked for; with `exact` it takes no wildcard.
pub wildcards_sound :
    (l r : Addr) (exact : Bool) (e : Entry) (n : ℕ)
    → wildcards l r exact e ≡ some n
    → (e.available ≡ false)
      × (e.freeing ≡ false)
      × (addr_port_cmp l e.local_addr ≡ 0)
      × (exact ≡ true → n ≡ 0)
unfolding wildcards
wildcards_sound l r exact e n h = ground arith

cmp_of_exact :
    (l r : Addr) (e : Entry) (n : ℕ)
    → addr_is_any l ≡ false
    → addr_is_any r ≡ false
    → wildcards l r true e ≡ some n
    → (addr_cmp l e.local_addr ≡ 0)
      × (addr_port_cmp l e.local_addr ≡ 0)
      × (addr_cmp r e.remote_addr ≡ 0)
      × (addr_port_cmp r e.remote_addr ≡ 0)
unfolding wildcards
cmp_of_exact l r e n al ar h = ground arith

-- An exact lookup of two addresses, neither of them the any address, finds only a socket that has
-- these two addresses, if its addresses are of known families.
wildcards_exact :
    (l r : Addr) (e : Entry) (n : ℕ)
    → IsAddr l
    → IsAddr r
    → IsAddr e.local_addr
    → IsAddr e.remote_addr
    → addr_is_any l ≡ false
    → addr_is_any r ≡ false
    → wildcards l r true e ≡ some n
    → (e.local_addr ≡ l) × (e.remote_addr ≡ r)
wildcards_exact l r e n vl vr vel ver al ar h =
    let z = cmp_of_exact l r e n al ar h in
    (
      sym ((cmp-eq l e.local_addr vl vel).0 (z.0, z.1)),
      sym ((cmp-eq r e.remote_addr vr ver).0 (z.2, z.3)),
    )
