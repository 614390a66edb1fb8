-- ===== src/Buffer/Read.antt =====
-- `__circular_buffer_read` and its callers: what is copied out, and what stays.
use chitcp.Base.{
  ℕ, ◌+◌, ◌-◌, ◌%◌, ◌≤◌, ◌<◌, ◌≡◌, refl, inl, inr, Bool, true, ◌++◌, arith, slice, get_or, take,
  tabulate, tabulate-add, tabulate_congr, drop-tabulate, take-tabulate, slice-eq-tabulate,
  if◌then◌else◌, ltb, add32, sub32, Bool-cases, ap, ap₂, ◌∙◌, sym,
}
use native.Mathlib.Nat.{mod-eq_of_lt, mod-eq-sub-mod}
use chitcp.Buffer.{Buffer, got, toread, consume, copy_out, read_copy}
use chitcp.Buffer.Valid.{IsValid, contents, slot}

-- `k` bytes of the stream from `offset` on, through the array.
slice-contents :
    (b : Buffer) (offset n : ℕ)
    → offset + n ≤ b.count
    → slice (contents b) offset n ≡ tabulate (λ i. get_or b.bytes (slot b (offset + i)) 0) n
slice-contents b offset n h =
    ap (take n) (drop-tabulate (λ i. get_or b.bytes (slot b i) 0) offset b.count (omega arith))
    ∙ take-tabulate (λ i. get_or b.bytes (slot b (offset + i)) 0) n (b.count - offset) (omega arith)

-- `(start + offset) % maxsize` is the place of byte `offset`.
start-eq-slot :
    (b : Buffer) (offset : ℕ)
    → IsValid b
    → offset < b.count
    → add32 b.start offset % b.maxsize ≡ slot b offset
start-eq-slot b offset v h =
    let e : add32 b.start offset ≡ b.start + offset = omega arith in
    elim (Bool-cases (ltb (b.start + offset) b.maxsize)) [
      | inl lo ↦ rw (e, lo) (mod-eq_of_lt (ground arith))
      | inr hi ↦
          rw (e, hi)
            (mod-eq-sub-mod {n = b.start + offset} {m = b.maxsize} (ground arith)
              ∙ mod-eq_of_lt (ground arith))
    ]

module _ (b : Buffer) (offset n : ℕ) (v : IsValid b) (pos : 0 < n)
    (within : offset + n ≤ b.count) where
  -- One copy.
  out_plain :
      slot b offset + n ≤ b.maxsize → slice b.bytes (slot b offset) n ≡ slice (contents b) offset n
  out_plain p =
      slice-eq-tabulate b.bytes (slot b offset) n 0 (ground arith)
      ∙ tabulate_congr _ _ n (λ i lt.
        let e : slot b offset + i ≡ slot b (offset + i) = ground arith in
        ap (λ k. get_or b.bytes k 0) e)
      ∙ sym (slice-contents b offset n within)

  -- Two copies, round the end of the array.
  out_wrapped :
      (to_max after_max : ℕ)
      → b.maxsize < slot b offset + n
      → to_max ≡ b.maxsize - slot b offset
      → after_max ≡ n - to_max
      → slice b.bytes (slot b offset) to_max ++ slice b.bytes 0 after_max
        ≡ slice (contents b) offset n
  out_wrapped to_max after_max p et ea =
      let f = λ (i : ℕ). get_or b.bytes (slot b (offset + i)) 0 in
      let en : to_max + after_max ≡ n = ground arith in
      ap₂ ◌++◌
        (slice-eq-tabulate b.bytes (slot b offset) to_max 0 (ground arith)
          ∙ tabulate_congr _ f to_max (λ i lt.
            let e : slot b offset + i ≡ slot b (offset + i) = ground arith in
            ap (λ k. get_or b.bytes k 0) e))
        (slice-eq-tabulate b.bytes 0 after_max 0 (ground arith)
          ∙ tabulate_congr _ (λ i. f (to_max + i)) after_max
              (λ i lt.
                let e : 0 + i ≡ slot b (offset + (to_max + i)) = ground arith in
                ap (λ k. get_or b.bytes k 0) e))
      ∙ sym (tabulate-add f to_max after_max)
      ∙ ap (tabulate f) en
      ∙ sym (slice-contents b offset n within)

-- Where a read leaves `start`.
abbrev pub start_after : Buffer → ℕ → ℕ → ℕ
start_after b offset n =
    if ltb b.maxsize (slot b offset + n) then slot b offset + n - b.maxsize else slot b offset + n

abbrev pub fewer : ℕ → ℕ → ℕ
fewer m n = if ltb m n then m else n

toread_lem :
    (b : Buffer) (len offset : ℕ)
    → IsValid b
    → offset < b.count
    → toread b len offset ≡ fewer len (b.count - offset)
unfolding toread
toread_lem b len offset v h = let e : sub32 b.count offset ≡ b.count - offset = omega arith in rw e

module _ (b : Buffer) (offset n : ℕ) (v : IsValid b) (pos : 0 < n) (within : offset + n ≤ b.count)
    (peeking : Bool) where
  -- The copy delivers the bytes asked for.
  copy_out_lem :
      copy_out b true (slot b offset) n peeking
      ≡ got n (slice (contents b) offset n) (consume b (start_after b offset n) n peeking)
  unfolding copy_out
  copy_out_lem =
      let s = slot b offset in
      let e : add32 s n ≡ s + n = ground arith in
      elim (Bool-cases (ltb b.maxsize (s + n))) [
        | inl over ↦
            let et : sub32 b.maxsize s ≡ b.maxsize - s = ground arith in
            let ea : sub32 n (b.maxsize - s) ≡ n - (b.maxsize - s) = ground arith in
            let ex : n - (b.maxsize - s) ≡ s + n - b.maxsize = ground arith in
            rw (e, over, et, ea)
              (ap₂ (λ o t. got n o (consume b t n peeking))
                (out_wrapped b offset n v pos within (b.maxsize - s) (n - (b.maxsize - s))
                  (ground arith) refl refl)
                ex)
        | inr plain ↦
            rw (e, plain)
              (ap (λ o. got n o (consume b (s + n) n peeking))
                (out_plain b offset n v pos within (ground arith)))
      ]

-- A read that finds bytes delivers them.
pub read_copy_lem :
    (b : Buffer) (len offset : ℕ) (peeking : Bool)
    → IsValid b
    → 0 < len
    → offset < b.count
    → let n = fewer len (b.count - offset) in
      read_copy b true len offset peeking
      ≡ got n (slice (contents b) offset n) (consume b (start_after b offset n) n peeking)
unfolding read_copy
read_copy_lem b len offset peeking v h lt =
    ap₂ (λ s n. copy_out b true s n peeking) (start-eq-slot b offset v lt)
      (toread_lem b len offset v lt)
    ∙ copy_out_lem b offset (fewer len (b.count - offset)) v (ground arith) (ground arith) peeking
