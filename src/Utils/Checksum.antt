-- ===== src/Utils/Checksum.antt =====
-- The checksum makes the words of the data, and itself, sum up to zero in ones' complement.
use chitcp.Base.{
  ℕ, ◌+◌, ◌-◌, ◌*◌, ◌/◌, ◌%◌, ◌^◌, ◌<◌, ◌≡◌, refl, sym, ap, ◌∙◌, List, [], ◌∷◌, ◌==◌, Bool-cases,
  inl, inr, arith, length,
}
use mathlib.Core.WellFounded.{Acc}
use chitcp.Base.Order.{lt_wf}
use chitcp.Addr.{ntohs}
use chitcp.Utils.{sum_words, fold, fold_shrinks, complement, cksum}

-- The words of the data, added up.
abbrev pub total : List ℕ → ℕ
total [] = 0
total (a ∷ []) = 256 * a
total (a ∷ b ∷ rest) = 256 * a + b + total rest

abbrev pub Bytes : List ℕ → Type 0
Bytes [] = Unit
Bytes (b ∷ bs) = (b < 256) × Bytes bs

sum_words-total :
    (bs : List ℕ) (sum : ℕ)
    → Bytes bs
    → sum + 65536 * length bs < 2 ^ 32
    → sum_words bs sum ≡ sum + total bs
unfolding sum_words
sum_words-total [] sum v h = omega arith
sum_words-total (a ∷ []) sum v h = omega (arith, v.0)
sum_words-total (a ∷ b ∷ rest) sum (va, (vb, v)) h =
    let fits : (sum + (256 * a + b)) % 2 ^ 32 ≡ sum + (256 * a + b) = omega arith in
    rw fits (sum_words-total rest (sum + (256 * a + b)) v (omega arith) ∙ (omega arith))

fold_lem : (sum : ℕ) (w : Acc ◌<◌ sum) → (fold sum w < 2 ^ 16) × (fold sum w % 65535 ≡ sum % 65535)
unfolding fold
fold_lem sum (Acc.intro _ smaller) = grind (
  arith,
  λ (p : 65535 < sum). fold_lem (sum / 2 ^ 16 + sum % 2 ^ 16) (smaller _ (fold_shrinks sum p)),
)

complement-eq : (sum : ℕ) → sum < 2 ^ 16 → ntohs (complement sum) ≡ 65535 - sum
unfolding complement ntohs
complement-eq sum h = omega arith

ntohs_zero : ntohs 0 ≡ 0
unfolding ntohs
ntohs_zero = refl

ntohs_full : ntohs 65535 ≡ 65535
unfolding ntohs
ntohs_full = refl

complement-lt : (sum : ℕ) → complement sum < 2 ^ 16
unfolding complement ntohs
complement-lt sum = omega arith

-- For fewer than 2 ^ 16 bytes of data: the checksum is a 16-bit number other than zero that makes the sum of the words a multiple of 65535, and the loop that folds the sum ends.
pub cksum_lem :
    (bs : List ℕ)
    → Bytes bs
    → length bs < 2 ^ 16
    → (0 < cksum bs) × (cksum bs < 2 ^ 16) × ((total bs + ntohs (cksum bs)) % 65535 ≡ 0)
unfolding cksum
cksum_lem bs v h =
    let sum = sum_words bs 0 in
    let s : sum ≡ 0 + total bs = sum_words-total bs 0 v (omega arith) in
    let f = fold sum (lt_wf.apply sum) in
    let (small, same) = fold_lem sum (lt_wf.apply sum) in
    let c : ntohs (complement f) ≡ 65535 - f = complement-eq f small in
    elim (Bool-cases (complement f == 0)) [
      | inl zero_sum ↦
          let z : complement f ≡ 0 = ground (arith, zero_sum) in
          let full : 65535 - f ≡ 0 = sym c ∙ ap ntohs z ∙ ntohs_zero in
          rw zero_sum (omega arith, omega arith, omega (arith, ntohs_full, full, s, same, small))
      | inr other ↦
          rw other (ground (arith, other), complement-lt f, omega (arith, c, s, same, small))
    ]
