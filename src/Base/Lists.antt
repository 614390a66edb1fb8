-- ===== src/Base/Lists.antt =====
-- Lists measured and indexed by native numbers, under the library's names, and arrays as lists:
-- `slice` is what `memcpy` reads and `copy_at` what it leaves behind.
use Prim.Native.Nat.{ℕ, zero, suc, ◌+◌, ◌-◌, ◌<◌, ◌≤◌}
use mathlib.Core.Path.{◌≡◌, refl, ap, ◌∙◌}
use mathlib.Core.Logic.{◌≢◌, ◌⊎◌}
use mathlib.Core.List.{List, [], ◌∷◌, ◌++◌}
use mathlib.Core.Option.{Option, none, some}
use native.Mathlib.Omega.{arith}
use native.Mathlib.Nat.{add-zero}

module _ {ℓ} {A : Type ℓ} where
  abbrev pub length : List A → ℕ
  length [] = 0
  length (x ∷ xs) = suc (length xs)

  abbrev pub get_elem? : List A → ℕ → Option A
  get_elem? [] i = none
  get_elem? (x ∷ xs) zero = some x
  get_elem? (x ∷ xs) (suc i) = get_elem? xs i

  abbrev pub get_or : List A → ℕ → A → A
  get_or [] i d = d
  get_or (x ∷ xs) zero d = x
  get_or (x ∷ xs) (suc i) d = get_or xs i d

  -- A write out of bounds changes nothing.
  abbrev pub set : List A → ℕ → A → List A
  set [] i v = []
  set (x ∷ xs) zero v = v ∷ xs
  set (x ∷ xs) (suc i) v = x ∷ set xs i v

  abbrev pub take : ℕ → List A → List A
  take zero xs = []
  take (suc n) [] = []
  take (suc n) (x ∷ xs) = x ∷ take n xs

  abbrev pub drop : ℕ → List A → List A
  drop zero xs = xs
  drop (suc n) [] = []
  drop (suc n) (x ∷ xs) = drop n xs

  abbrev pub replicate : ℕ → A → List A
  replicate zero a = []
  replicate (suc n) a = a ∷ replicate n a

  pub length-replicate : (n : ℕ) (a : A) → length (replicate n a) ≡ n
  length-replicate zero a = refl
  length-replicate (suc n) a = ap suc (length-replicate n a)

  pub length-append : (xs ys : List A) → length (xs ++ ys) ≡ length xs + length ys
  length-append [] ys = omega arith
  length-append (x ∷ xs) ys = omega (arith, length-append xs ys)

  pub length-set : (xs : List A) (i : ℕ) (v : A) → length (set xs i v) ≡ length xs
  length-set [] i v = refl
  length-set (x ∷ xs) zero v = refl
  length-set (x ∷ xs) (suc i) v = ap suc (length-set xs i v)

  pub get_elem?-set_self :
      (xs : List A) (i : ℕ) (v : A) → i < length xs → get_elem? (set xs i v) i ≡ some v
  get_elem?-set_self [] i v h = elim h [ ]
  get_elem?-set_self (x ∷ xs) zero v h = refl
  get_elem?-set_self (x ∷ xs) (suc i) v h = get_elem?-set_self xs i v (omega arith)

  pub get_elem?-set_ne :
      (xs : List A) (i j : ℕ) (v : A) → i ≢ j → get_elem? (set xs i v) j ≡ get_elem? xs j
  get_elem?-set_ne [] i j v h = refl
  get_elem?-set_ne (x ∷ xs) zero zero v h = absurd (h refl)
  get_elem?-set_ne (x ∷ xs) zero (suc j) v h = refl
  get_elem?-set_ne (x ∷ xs) (suc i) zero v h = refl
  get_elem?-set_ne (x ∷ xs) (suc i) (suc j) v h = get_elem?-set_ne xs i j v (λ e. h (ap suc e))

  pub set_out : (xs : List A) (i : ℕ) (v : A) → get_elem? xs i ≡ none → set xs i v ≡ xs
  set_out [] i v h = refl
  set_out (x ∷ xs) zero v h = cc (h)
  set_out (x ∷ xs) (suc i) v h = ap (◌∷◌ x) (set_out xs i v h)

  pub get_or-set_self :
      (xs : List A) (i : ℕ) (v d : A) → i < length xs → get_or (set xs i v) i d ≡ v
  get_or-set_self [] i v d h = elim h [ ]
  get_or-set_self (x ∷ xs) zero v d h = refl
  get_or-set_self (x ∷ xs) (suc i) v d h = get_or-set_self xs i v d (omega arith)

  pub get_or-set_ne :
      (xs : List A) (i j : ℕ) (v d : A) → i ≢ j → get_or (set xs i v) j d ≡ get_or xs j d
  get_or-set_ne [] i j v d h = refl
  get_or-set_ne (x ∷ xs) zero zero v d h = absurd (h refl)
  get_or-set_ne (x ∷ xs) zero (suc j) v d h = refl
  get_or-set_ne (x ∷ xs) (suc i) zero v d h = refl
  get_or-set_ne (x ∷ xs) (suc i) (suc j) v d h = get_or-set_ne xs i j v d (λ e. h (ap suc e))

  abbrev pub slice : List A → ℕ → ℕ → List A
  slice xs i n = take n (drop i xs)

  abbrev pub copy_at : List A → ℕ → List A → List A
  copy_at xs i [] = xs
  copy_at xs i (y ∷ ys) = copy_at (set xs i y) (suc i) ys

  pub length-copy_at : (xs : List A) (i : ℕ) (ys : List A) → length (copy_at xs i ys) ≡ length xs
  length-copy_at xs i [] = refl
  length-copy_at xs i (y ∷ ys) = length-copy_at (set xs i y) (suc i) ys ∙ length-set xs i y

  pub get_or-copy_at_out :
      (xs : List A) (i : ℕ) (ys : List A) (j : ℕ) (d : A)
      → (j < i) ⊎ (i + length ys ≤ j)
      → get_or (copy_at xs i ys) j d ≡ get_or xs j d
  get_or-copy_at_out xs i [] j d h = refl
  get_or-copy_at_out xs i (y ∷ ys) j d h =
      get_or-copy_at_out (set xs i y) (suc i) ys j d (omega arith)
      ∙ get_or-set_ne xs i j y d (omega arith)

  pub get_or-copy_at_in :
      (xs : List A) (i : ℕ) (ys : List A) (k : ℕ) (d : A)
      → i + length ys ≤ length xs
      → k < length ys
      → get_or (copy_at xs i ys) (i + k) d ≡ get_or ys k d
  get_or-copy_at_in xs i [] k d h lt = elim lt [ ]
  get_or-copy_at_in xs i (y ∷ ys) zero d h lt = rw add-zero (
      get_or-copy_at_out (set xs i y) (suc i) ys i d (omega arith)
      ∙ get_or-set_self xs i y d (omega arith))
  get_or-copy_at_in xs i (y ∷ ys) (suc k) d h lt =
      let e : i + suc k ≡ suc i + k = omega arith in
      rw e (
        get_or-copy_at_in (set xs i y) (suc i) ys k d (omega (arith, length-set xs i y))
          (omega arith))

  -- The list of `f 0`, ..., `f (n - 1)`.
  abbrev pub tabulate : (ℕ → A) → ℕ → List A
  tabulate f zero = []
  tabulate f (suc n) = f 0 ∷ tabulate (λ i. f (suc i)) n

  pub length-tabulate : (f : ℕ → A) (n : ℕ) → length (tabulate f n) ≡ n
  length-tabulate f zero = refl
  length-tabulate f (suc n) = ap suc (length-tabulate (λ i. f (suc i)) n)

  pub tabulate_congr :
      (f g : ℕ → A) (n : ℕ) → ((i : ℕ) → i < n → f i ≡ g i) → tabulate f n ≡ tabulate g n
  tabulate_congr f g zero h = refl
  tabulate_congr f g (suc n) h = rw (
    h 0 (omega arith),
    tabulate_congr (λ i. f (suc i)) (λ i. g (suc i)) n (λ i lt. h (suc i) (omega arith)),
  )

  pub take-tabulate : (f : ℕ → A) (m n : ℕ) → m ≤ n → take m (tabulate f n) ≡ tabulate f m
  take-tabulate f zero n h = refl
  take-tabulate f (suc m) zero h = elim h [ ]
  take-tabulate f (suc m) (suc n) h =
      ap (◌∷◌ (f 0)) (take-tabulate (λ i. f (suc i)) m n (omega arith))

  pub slice-eq-tabulate :
      (xs : List A) (i n : ℕ) (d : A)
      → i + n ≤ length xs
      → slice xs i n ≡ tabulate (λ k. get_or xs (i + k) d) n
  slice-eq-tabulate xs i zero d h = refl
  slice-eq-tabulate [] i (suc n) d h = absurd (omega arith)
  slice-eq-tabulate (x ∷ xs) zero (suc n) d h = ap (◌∷◌ x) (
      slice-eq-tabulate xs 0 n d (omega arith)
      ∙ tabulate_congr _ _ n (λ k lt.
        let e : 0 + suc k ≡ suc k = omega arith in let e' : 0 + k ≡ k = omega arith in rw (e, e')))
  slice-eq-tabulate (x ∷ xs) (suc i) (suc n) d h =
      slice-eq-tabulate xs i (suc n) d (omega arith)
      ∙ tabulate_congr (λ k. get_or xs (i + k) d) (λ k. get_or (x ∷ xs) (suc i + k) d) (suc n)
          (λ k lt. let e : suc i + k ≡ suc (i + k) = omega arith in rw e)

  -- Two tables, one after the other.
  pub tabulate-add :
      (f : ℕ → A) (m n : ℕ) → tabulate f (m + n) ≡ tabulate f m ++ tabulate (λ i. f (m + i)) n
  tabulate-add f zero n =
      let e : 0 + n ≡ n = omega arith in
      rw e (tabulate_congr f (λ i. f (0 + i)) n (λ i lt. let e' : 0 + i ≡ i = omega arith in rw e'))
  tabulate-add f (suc m) n =
      let e : suc m + n ≡ suc (m + n) = omega arith in
      rw e (
        ap (◌∷◌ (f 0)) (
          tabulate-add (λ i. f (suc i)) m n
          ∙ ap (λ t. tabulate (λ i. f (suc i)) m ++ t)
              (tabulate_congr (λ i. f (suc (m + i))) (λ i. f (suc m + i)) n
                (λ i lt. let e' : suc m + i ≡ suc (m + i) = omega arith in rw e'))))

  pub drop-tabulate :
      (f : ℕ → A) (m n : ℕ) → m ≤ n → drop m (tabulate f n) ≡ tabulate (λ i. f (m + i)) (n - m)
  drop-tabulate f zero n h =
      let e : n - 0 ≡ n = omega arith in
      rw e (tabulate_congr f (λ i. f (0 + i)) n (λ i lt. let e' : 0 + i ≡ i = omega arith in rw e'))
  drop-tabulate f (suc m) zero h = elim h [ ]
  drop-tabulate f (suc m) (suc n) h =
      let e : suc n - suc m ≡ n - m = omega arith in
      rw e (
        drop-tabulate (λ i. f (suc i)) m n (omega arith)
        ∙ tabulate_congr (λ i. f (suc (m + i))) (λ i. f (suc m + i)) (n - m)
            (λ i lt. let e' : suc m + i ≡ suc (m + i) = omega arith in rw e'))

  pub length-slice : (xs : List A) (i n : ℕ) → i + n ≤ length xs → length (slice xs i n) ≡ n
  length-slice xs i zero h = refl
  length-slice [] i (suc n) h = absurd (omega arith)
  length-slice (x ∷ xs) zero (suc n) h = ap suc (length-slice xs 0 n (omega arith))
  length-slice (x ∷ xs) (suc i) (suc n) h = length-slice xs i (suc n) (omega arith)

  -- Two neighbouring slices make up one.
  pub slice-append :
      (xs : List A) (i m n : ℕ)
      → i + m + n ≤ length xs
      → slice xs i m ++ slice xs (i + m) n ≡ slice xs i (m + n)
  slice-append xs i zero n h =
      let e : i + 0 ≡ i = omega arith in let e' : 0 + n ≡ n = omega arith in rw (e, e')
  slice-append [] i (suc m) n h = absurd (omega arith)
  slice-append (x ∷ xs) zero (suc m) n h =
      let e : 0 + suc m ≡ suc (0 + m) = omega arith in
      let e' : suc m + n ≡ suc (m + n) = omega arith in
      rw (e, e') (ap (◌∷◌ x) (slice-append xs 0 m n (omega arith)))
  slice-append (x ∷ xs) (suc i) (suc m) n h =
      let e : suc i + suc m ≡ suc (i + suc m) = omega arith in
      rw e (slice-append xs i (suc m) n (omega arith))

  pub take_all : (n : ℕ) (xs : List A) → length xs ≤ n → take n xs ≡ xs
  take_all zero [] h = refl
  take_all zero (x ∷ xs) h = elim h [ ]
  take_all (suc n) [] h = refl
  take_all (suc n) (x ∷ xs) h = ap (◌∷◌ x) (take_all n xs (omega arith))

  pub get_or-tabulate : (f : ℕ → A) (n i : ℕ) (d : A) → i < n → get_or (tabulate f n) i d ≡ f i
  get_or-tabulate f zero i d h = elim h [ ]
  get_or-tabulate f (suc n) zero d h = refl
  get_or-tabulate f (suc n) (suc i) d h = get_or-tabulate (λ k. f (suc k)) n i d (omega arith)

  -- A copied slice, read back: at the places it covers, and elsewhere.
  pub get_or-copy_slice_in :
      (xs : List A) (i : ℕ) (src : List A) (w n p : ℕ) (d : A)
      → i + n ≤ length xs
      → w + n ≤ length src
      → i ≤ p
      → p < i + n
      → get_or (copy_at xs i (slice src w n)) p d ≡ get_or src (w + (p - i)) d
  get_or-copy_slice_in xs i src w n p d hx hs lo hi =
      let e : p ≡ i + (p - i) = omega arith in
      ap (λ k. get_or (copy_at xs i (slice src w n)) k d) e
      ∙ get_or-copy_at_in xs i (slice src w n) (p - i) d (omega (arith, length-slice src w n hs))
          (omega (arith, length-slice src w n hs))
      ∙ ap (λ l. get_or l (p - i) d) (slice-eq-tabulate src w n d hs)
      ∙ get_or-tabulate (λ k. get_or src (w + k) d) n (p - i) d (omega arith)

  pub get_or-copy_slice_out :
      (xs : List A) (i : ℕ) (src : List A) (w n p : ℕ) (d : A)
      → w + n ≤ length src
      → (p < i) ⊎ (i + n ≤ p)
      → get_or (copy_at xs i (slice src w n)) p d ≡ get_or xs p d
  get_or-copy_slice_out xs i src w n p d hs h =
      get_or-copy_at_out xs i (slice src w n) p d (omega (arith, length-slice src w n hs))

  pub drop_all : (n : ℕ) (xs : List A) → length xs ≤ n → drop n xs ≡ []
  drop_all zero [] h = refl
  drop_all zero (x ∷ xs) h = elim h [ ]
  drop_all (suc n) [] h = refl
  drop_all (suc n) (x ∷ xs) h = drop_all n xs (omega arith)

  pub take-append-drop : (n : ℕ) (xs : List A) → take n xs ++ drop n xs ≡ xs
  take-append-drop zero xs = refl
  take-append-drop (suc n) [] = refl
  take-append-drop (suc n) (x ∷ xs) = ap (◌∷◌ x) (take-append-drop n xs)

  pub take-add : (xs : List A) (m n : ℕ) → take m xs ++ take n (drop m xs) ≡ take (m + n) xs
  take-add xs zero n = let e : 0 + n ≡ n = omega arith in rw e
  take-add [] (suc m) zero = let e : suc m + 0 ≡ suc m = omega arith in rw e
  take-add [] (suc m) (suc n) = let e : suc m + suc n ≡ suc (m + suc n) = omega arith in rw e
  take-add (x ∷ xs) (suc m) n =
      let e : suc m + n ≡ suc (m + n) = omega arith in rw e (ap (◌∷◌ x) (take-add xs m n))

  pub drop-add : (xs : List A) (m n : ℕ) → drop n (drop m xs) ≡ drop (m + n) xs
  drop-add xs zero n = let e : 0 + n ≡ n = omega arith in rw e
  drop-add [] (suc m) zero = let e : suc m + 0 ≡ suc m = omega arith in rw e
  drop-add [] (suc m) (suc n) = let e : suc m + suc n ≡ suc (m + suc n) = omega arith in rw e
  drop-add (x ∷ xs) (suc m) n =
      let e : suc m + n ≡ suc (m + n) = omega arith in rw e (drop-add xs m n)

  pub length-take : (n : ℕ) (xs : List A) → n ≤ length xs → length (take n xs) ≡ n
  length-take zero xs h = refl
  length-take (suc n) [] h = elim h [ ]
  length-take (suc n) (x ∷ xs) h = ap suc (length-take n xs (omega arith))

  pub length-drop : (n : ℕ) (xs : List A) → length (drop n xs) ≡ length xs - n
  length-drop zero xs = omega arith
  length-drop (suc n) [] = omega arith
  length-drop (suc n) (x ∷ xs) = omega (arith, length-drop n xs)

  pub copy_at-cons :
      (x : A) (xs : List A) (i : ℕ) (ys : List A)
      → copy_at (x ∷ xs) (suc i) ys ≡ x ∷ copy_at xs i ys
  copy_at-cons x xs i [] = refl
  copy_at-cons x xs i (y ∷ ys) = copy_at-cons x (set xs i y) (suc i) ys

  -- Bytes written up to the end of a list are its last ones.
  pub drop-copy_at :
      (xs : List A) (n : ℕ) (ys : List A)
      → length xs ≡ n + length ys
      → drop n (copy_at xs n ys) ≡ ys
  drop-copy_at [] zero [] h = refl
  drop-copy_at (x ∷ xs) zero [] h = absurd (omega arith)
  drop-copy_at [] zero (y ∷ ys) h = absurd (omega arith)
  drop-copy_at (x ∷ xs) zero (y ∷ ys) h =
      copy_at-cons y xs 0 ys ∙ ap (◌∷◌ y) (drop-copy_at xs 0 ys (omega arith))
  drop-copy_at [] (suc n) ys h = absurd (omega arith)
  drop-copy_at (x ∷ xs) (suc n) ys h =
      ap (drop (suc n)) (copy_at-cons x xs n ys) ∙ drop-copy_at xs n ys (omega arith)

  -- A list written over the rest of another.
  pub copy_at-append :
      (hs xs ys : List A) → length xs ≡ length ys → copy_at (hs ++ xs) (length hs) ys ≡ hs ++ ys
  copy_at-append [] xs ys h = drop-copy_at xs 0 ys (omega arith)
  copy_at-append (x ∷ hs) xs ys h =
      copy_at-cons x (hs ++ xs) (length hs) ys ∙ ap (◌∷◌ x) (copy_at-append hs xs ys h)

  pub take-copy_at :
      (xs ys : List A) → length ys ≤ length xs → take (length ys) (copy_at xs 0 ys) ≡ ys
  take-copy_at xs [] h = refl
  take-copy_at [] (y ∷ ys) h = absurd (omega arith)
  take-copy_at (x ∷ xs) (y ∷ ys) h =
      ap (take (suc (length ys))) (copy_at-cons y xs 0 ys)
      ∙ ap (◌∷◌ y) (take-copy_at xs ys (omega arith))

  pub take-append : (xs ys : List A) → take (length xs) (xs ++ ys) ≡ xs
  take-append [] ys = refl
  take-append (x ∷ xs) ys = ap (◌∷◌ x) (take-append xs ys)

  pub drop-append : (xs ys : List A) → drop (length xs) (xs ++ ys) ≡ ys
  drop-append [] ys = refl
  drop-append (x ∷ xs) ys = drop-append xs ys
