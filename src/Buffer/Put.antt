-- ===== src/Buffer/Put.antt =====
-- One round of the write loop appends its chunk to the contents.
use chitcp.Base.{
  ℕ, ◌+◌, ◌-◌, ◌^◌, ◌≤◌, ◌<◌, ◌≡◌, refl, inl, inr, List, ◌++◌, arith, length, get_or, tabulate,
  tabulate_congr, tabulate-add, slice, slice-eq-tabulate, copy_at, length-copy_at,
  get_or-copy_slice_in, get_or-copy_slice_out, ltb, add32, sub32, Bool-cases, ap, ap₂, ◌∙◌, sym,
  ltb→lt,
}
use chitcp.Buffer.{Buffer, put, put_plain, put_wrapped}
use chitcp.Buffer.Valid.{IsValid, slot, contents}

-- What a round may write: no more than the free room, all of it from the caller's array.
pub record Fits (b : Buffer) (src : List ℕ) (written n : ℕ) : Type 0 where
  pub valid : IsValid b
  pub room : b.count + n ≤ b.maxsize
  pub in_src : written + n ≤ length src
  pub written_small : written < 2 ^ 31

-- `put` appends if the old bytes keep their places and the new ones follow.
contents-put_of_slots :
    (b c : Buffer) (src : List ℕ) (written n : ℕ)
    → written + n ≤ length src
    → c.count ≡ b.count + n
    → ((i : ℕ) → i < b.count → get_or c.bytes (slot c i) 0 ≡ get_or b.bytes (slot b i) 0)
    → ((i : ℕ) → i < n → get_or c.bytes (slot c (b.count + i)) 0 ≡ get_or src (written + i) 0)
    → contents c ≡ contents b ++ slice src written n
contents-put_of_slots b c src written n h e old new =
    ap (tabulate (λ i. get_or c.bytes (slot c i) 0)) e
    ∙ tabulate-add (λ i. get_or c.bytes (slot c i) 0) b.count n
    ∙ ap₂ ◌++◌ (tabulate_congr _ _ b.count old)
        (tabulate_congr _ _ n new ∙ sym (slice-eq-tabulate src written n 0 h))

module _ (b : Buffer) (src : List ℕ) (written n : ℕ) (f : Fits b src written n) where
  plain_old :
      b.end + n ≤ b.maxsize
      → (i : ℕ) → i < b.count
      → get_or (copy_at b.bytes b.end (slice src written n)) (slot b i) 0
        ≡ get_or b.bytes (slot b i) 0
  plain_old p i lt =
      get_or-copy_slice_out b.bytes b.end src written n (slot b i) 0 f.in_src
        (ground (arith, f.valid.end_at))

  plain_new :
      b.end + n ≤ b.maxsize
      → (i : ℕ) → i < n
      → get_or (copy_at b.bytes b.end (slice src written n)) (slot b (b.count + i)) 0
        ≡ get_or src (written + i) 0
  plain_new p i lt =
      let e : slot b (b.count + i) ≡ b.end + i = ground (arith, f.valid.end_at) in
      let e' : i ≡ b.end + i - b.end = omega arith in
      ap (λ k. get_or (copy_at b.bytes b.end (slice src written n)) k 0) e
      ∙ get_or-copy_slice_in b.bytes b.end src written n (b.end + i) 0 (omega arith) f.in_src
          (omega arith) (omega arith)
      ∙ ap (λ k. get_or src (written + k) 0) (sym e')

  contents-put_plain :
      b.end + n ≤ b.maxsize
      → contents (put_plain b src written n) ≡ contents b ++ slice src written n
  unfolding put_plain
  contents-put_plain p =
      contents-put_of_slots b (put_plain b src written n) src written n f.in_src (omega arith)
        (plain_old p) (plain_new p)

  -- The array after the two copies, with plain subtractions.
  abbrev wrapped_bytes : ℕ → ℕ → List ℕ
  wrapped_bytes to_max after_max =
      copy_at (copy_at b.bytes b.end (slice src written to_max)) 0
        (slice src (written + to_max) after_max)

  module _ (p : b.maxsize < b.end + n) (to_max after_max : ℕ) (et : to_max ≡ b.maxsize - b.end)
      (ea : after_max ≡ n - to_max) where
    wrapped_old :
        (i : ℕ)
        → i < b.count
        → get_or (wrapped_bytes to_max after_max) (slot b i) 0 ≡ get_or b.bytes (slot b i) 0
    wrapped_old i lt =
        get_or-copy_slice_out (copy_at b.bytes b.end (slice src written to_max)) 0 src
          (written + to_max) after_max (slot b i) 0 (omega arith) (ground (arith, f.valid.end_at))
        ∙ get_or-copy_slice_out b.bytes b.end src written to_max (slot b i) 0 (omega arith)
            (ground (arith, f.valid.end_at))

    wrapped_new_lo :
        (i : ℕ)
        → i < to_max
        → get_or (wrapped_bytes to_max after_max) (slot b (b.count + i)) 0
          ≡ get_or src (written + i) 0
    wrapped_new_lo i lt =
        let e : slot b (b.count + i) ≡ b.end + i = ground (arith, f.valid.end_at) in
        let e' : b.end + i - b.end ≡ i = omega arith in
        ap (λ k. get_or (wrapped_bytes to_max after_max) k 0) e
        ∙ get_or-copy_slice_out (copy_at b.bytes b.end (slice src written to_max)) 0 src
            (written + to_max) after_max (b.end + i) 0 (omega arith) (omega arith)
        ∙ get_or-copy_slice_in b.bytes b.end src written to_max (b.end + i) 0 (omega arith)
            (omega arith) (omega arith) (omega arith)
        ∙ ap (λ k. get_or src (written + k) 0) e'

    wrapped_new_hi :
        (i : ℕ)
        → to_max ≤ i
        → i < n
        → get_or (wrapped_bytes to_max after_max) (slot b (b.count + i)) 0
          ≡ get_or src (written + i) 0
    wrapped_new_hi i ge lt =
        let e : slot b (b.count + i) ≡ i - to_max = ground (arith, f.valid.end_at) in
        let e' : written + to_max + (i - to_max - 0) ≡ written + i = omega arith in
        ap (λ k. get_or (wrapped_bytes to_max after_max) k 0) e
        ∙ get_or-copy_slice_in (copy_at b.bytes b.end (slice src written to_max)) 0 src
            (written + to_max) after_max (i - to_max) 0
            (omega (arith, length-copy_at b.bytes b.end (slice src written to_max))) (omega arith)
            (omega arith) (omega arith)
        ∙ ap (λ k. get_or src k 0) e'

  wrapped_bytes_lem :
      b.maxsize < b.end + n
      → (put_wrapped b src written n).bytes
        ≡ wrapped_bytes (b.maxsize - b.end) (n - (b.maxsize - b.end))
  unfolding put_wrapped
  wrapped_bytes_lem p =
      let e : sub32 b.maxsize b.end ≡ b.maxsize - b.end = omega arith in
      let e' : add32 written (b.maxsize - b.end) ≡ written + (b.maxsize - b.end) = omega arith in
      let e'' : sub32 n (b.maxsize - b.end) ≡ n - (b.maxsize - b.end) = omega arith in
      rw (e, e', e'')

  contents-put_wrapped :
      b.maxsize < b.end + n
      → contents (put_wrapped b src written n) ≡ contents b ++ slice src written n
  unfolding put_wrapped
  contents-put_wrapped p =
      contents-put_of_slots b (put_wrapped b src written n) src written n f.in_src (omega arith)
        (λ i lt.
          ap (λ l. get_or l (slot b i) 0) (wrapped_bytes_lem p)
          ∙ wrapped_old p (b.maxsize - b.end) _ refl refl i lt)
        (λ i lt.
          ap (λ l. get_or l (slot b (b.count + i)) 0) (wrapped_bytes_lem p)
          ∙ elim (Bool-cases (ltb i (b.maxsize - b.end))) [
            | inl lo ↦ wrapped_new_lo p (b.maxsize - b.end) _ refl refl i (ltb→lt i _ lo)
            | inr hi ↦ wrapped_new_hi p (b.maxsize - b.end) _ refl refl i (ground arith) lt
          ])

  -- A round appends its chunk to the contents.
  pub contents-put : contents (put b src written n) ≡ contents b ++ slice src written n
  unfolding put
  contents-put = elim (Bool-cases (ltb b.maxsize (add32 b.end n))) [
    | inl over ↦ rw over (contents-put_wrapped (ground arith))
    | inr within ↦ rw within (contents-put_plain (ground arith))
  ]

  put_plain-IsValid : b.end + n ≤ b.maxsize → IsValid (put_plain b src written n)
  unfolding put_plain
  put_plain-IsValid p =
      ground (arith, f.valid.end_at, length-copy_at b.bytes b.end (slice src written n))

  put_wrapped-IsValid : b.maxsize < b.end + n → IsValid (put_wrapped b src written n)
  unfolding put_wrapped
  put_wrapped-IsValid p = record {
    storage =
        ap length (wrapped_bytes_lem p)
        ∙ length-copy_at (copy_at b.bytes b.end (slice src written (b.maxsize - b.end))) 0
            (slice src (written + (b.maxsize - b.end)) (n - (b.maxsize - b.end)))
        ∙ length-copy_at b.bytes b.end (slice src written (b.maxsize - b.end))
        ∙ f.valid.storage;
    positive = f.valid.positive;
    small = f.valid.small;
    count_in = omega arith;
    start_in = f.valid.start_in;
    end_in = omega arith;
    end_at = omega (arith, f.valid.end_at);
    seq_small = f.valid.seq_small;
    seq_at = omega arith;
  }

  pub put-IsValid : IsValid (put b src written n)
  unfolding put
  put-IsValid = elim (Bool-cases (ltb b.maxsize (add32 b.end n))) [
    | inl over ↦ rw over (put_wrapped-IsValid (ground arith))
    | inr within ↦ rw within (put_plain-IsValid (ground arith))
  ]

  -- What a round does to the other fields.
  pub fields-put :
      ((put b src written n).count ≡ b.count + n)
      × ((put b src written n).maxsize ≡ b.maxsize)
      × ((put b src written n).closed ≡ b.closed)
      × ((put b src written n).seq_start ≡ b.seq_start)
      × ((put b src written n).seq_initial ≡ b.seq_initial)
  unfolding put put_plain put_wrapped
  fields-put = ground arith
