-- ===== src/Buffer/Valid.antt =====
-- The representation invariant of a circular buffer, and the bytes that it holds.
use chitcp.Base.{
  ℕ, ◌+◌, ◌-◌, ◌%◌, ◌^◌, ◌≤◌, ◌<◌, ◌≡◌, ◌⊎◌, List, arith, length, get_or, tabulate, length-tabulate,
  if◌then◌else◌, ltb, sub32,
}
use chitcp.Buffer.{Buffer, init, towrite, close}

-- `start` and `end` may stand one past the array: a chunk that ends there leaves them so.
pub record IsValid (b : Buffer) : Type 0 where
  pub storage : length b.bytes ≡ b.maxsize
  pub positive : 0 < b.maxsize
  pub small : b.maxsize < 2 ^ 31
  pub count_in : b.count ≤ b.maxsize
  pub start_in : b.start ≤ b.maxsize
  pub end_in : b.end ≤ b.maxsize
  pub end_at : (b.end ≡ b.start + b.count) ⊎ (b.end + b.maxsize ≡ b.start + b.count)
  pub seq_small : b.seq_start < 2 ^ 32
  pub seq_at : b.seq_end ≡ (b.seq_start + b.count) % 2 ^ 32

-- The index of the array at which byte `i` of the stream stands.
abbrev pub slot : Buffer → ℕ → ℕ
slot b i = if ltb (b.start + i) b.maxsize then b.start + i else b.start + i - b.maxsize

-- The bytes that are in the buffer, oldest first.
abbrev pub contents : Buffer → List ℕ
contents b = tabulate (λ i. get_or b.bytes (slot b i) 0) b.count

pub length-contents : (b : Buffer) → length (contents b) ≡ b.count
length-contents b = length-tabulate _ b.count

pub init-IsValid :
    (garbage : List ℕ) (n : ℕ) → length garbage ≡ n → 0 < n → n < 2 ^ 31 → IsValid (init garbage n)
unfolding init
init-IsValid garbage n e p q = ground arith

pub close-IsValid : {b : Buffer} → IsValid b → IsValid (close b)
unfolding close
close-IsValid v = ground arith

-- What a round of the write loop computes, without the wrap-around of `uint32_t`.
pub towrite_lem :
    {b : Buffer} (len written : ℕ)
    → IsValid b
    → written ≤ len
    → len ≤ b.maxsize
    → towrite b len written
      ≡ (if ltb (len - written) (b.maxsize - b.count) then len - written else b.maxsize - b.count)
unfolding towrite
towrite_lem {b} len written v h k =
    let e : sub32 len written ≡ len - written = omega arith in
    let e' : sub32 b.maxsize b.count ≡ b.maxsize - b.count = omega arith in ground arith
