-- ===== src/Buffer/Reads.antt =====
-- The public reads of libchitcp/buffer.c: `read` takes the oldest bytes off, `peek` leaves them, and
-- `peek_at` starts at a sequence number.
use chitcp.Base.{
  ℕ, ◌+◌, ◌-◌, ◌%◌, ◌^◌, ◌≤◌, ◌<◌, ◌≡◌, refl, inl, inr, Bool, true, false, List, [], not, ◌&&◌,
  arith, length, slice, get_or, take, drop, take_all, drop_all, length-drop, ◌||◌, tabulate,
  tabulate_congr, drop-tabulate, if◌then◌else◌, ltb, leb, sub32, Bool-cases, ap, ◌∙◌, sym,
}
use chitcp.Types.{ewouldblock, einval}
use chitcp.Buffer.{
  Buffer, failed, got, waits, consume, read_copy, read_resume, read_at, read, peek, peek_at,
}
use chitcp.Buffer.Valid.{IsValid, contents, slot, length-contents}
use chitcp.Buffer.Read.{fewer, start_after, read_copy_lem}

-- The buffer `c` is `b` without its `n` oldest bytes.
pub record Consumed (b : Buffer) (n : ℕ) (c : Buffer) : Type 0 where
  pub valid : IsValid c
  pub rest : contents c ≡ drop n (contents b)
  pub count_now : c.count ≡ b.count - n
  pub seq_start_now : c.seq_start ≡ (b.seq_start + n) % 2 ^ 32
  pub same_maxsize : c.maxsize ≡ b.maxsize
  pub same_closed : c.closed ≡ b.closed
  pub same_seq_end : c.seq_end ≡ b.seq_end

consume-Consumed :
    (b : Buffer) (n : ℕ)
    → IsValid b
    → 0 < n
    → n ≤ b.count
    → Consumed b n (consume b (start_after b 0 n) n false)
unfolding consume
consume-Consumed b n v pos h =
    let c = consume b (start_after b 0 n) n false in
    let e : c.count ≡ b.count - n = omega arith in
    record {
      valid = ground (arith, v.end_at);
      rest =
          ap (tabulate (λ i. get_or b.bytes (slot c i) 0)) e
          ∙ tabulate_congr _ _ (b.count - n) (λ i lt.
            let e' : slot c i ≡ slot b (n + i) = ground arith in ap (λ k. get_or b.bytes k 0) e')
          ∙ sym (drop-tabulate (λ i. get_or b.bytes (slot b i) 0) n b.count h);
      count_now = e;
      seq_start_now = refl;
      same_maxsize = refl;
      same_closed = refl;
      same_seq_end = refl;
    }

take-fewer : (xs : List ℕ) (len n : ℕ) → length xs ≡ n → take (fewer len n) xs ≡ take len xs
take-fewer xs len n e = elim (Bool-cases (ltb len n)) [
  | inl lt ↦ rw lt
  | inr ge ↦ rw ge (take_all n xs (omega arith) ∙ sym (take_all len xs (ground arith)))
]

pub drop-fewer : (xs : List ℕ) (len n : ℕ) → length xs ≡ n → drop (fewer len n) xs ≡ drop len xs
drop-fewer xs len n e = elim (Bool-cases (ltb len n)) [
  | inl lt ↦ rw lt
  | inr ge ↦ rw ge (drop_all n xs (omega arith) ∙ sym (drop_all len xs (ground arith)))
]

-- No length is an error, whatever the buffer.
pub read-zero : (b : Buffer) (blocking : Bool) → read b true 0 blocking ≡ failed einval b
unfolding read read_at
read-zero b blocking = refl

read_at-copies :
    (b : Buffer) (len offset : ℕ) (blocking peeking : Bool)
    → 0 < len
    → 0 < b.count
    → read_at b true len offset blocking peeking ≡ read_copy b true len offset peeking
unfolding read_at read_resume
read_at-copies b len offset blocking peeking h k = ground arith

-- The first bytes, whatever becomes of the buffer.
read_at-eq-got :
    (b : Buffer) (len : ℕ) (blocking peeking : Bool)
    → IsValid b
    → 0 < len
    → 0 < b.count
    → let n = fewer len b.count in
      read_at b true len 0 blocking peeking
      ≡ got n (take len (contents b)) (consume b (start_after b 0 n) n peeking)
read_at-eq-got b len blocking peeking v h k =
    let e : b.count - 0 ≡ b.count = omega arith in
    read_at-copies b len 0 blocking peeking h k
    ∙ read_copy_lem b len 0 peeking v h k
    ∙ ap
        (λ m.
          let n = fewer len m in
          got n (slice (contents b) 0 n) (consume b (start_after b 0 n) n peeking))
        e
    ∙ ap
        (λ l.
          got (fewer len b.count) l
            (consume b (start_after b 0 (fewer len b.count)) (fewer len b.count) peeking))
        (take-fewer (contents b) len b.count (length-contents b))

-- A read of at least one byte on a valid buffer that is not empty returns at once, with the oldest
-- bytes, as many as there are up to `len`, and takes just these off.
pub read_lem :
    (b : Buffer) (len : ℕ) (blocking : Bool)
    → IsValid b
    → 0 < len
    → 0 < b.count
    → (c : Buffer) × (read b true len blocking ≡ got (fewer len b.count) (take len (contents b)) c)
      × Consumed b (fewer len b.count) c
unfolding read
read_lem b len blocking v h k =
    let n = fewer len b.count in
    (
      consume b (start_after b 0 n) n false,
      read_at-eq-got b len blocking false v h k,
      consume-Consumed b n v (ground arith) (ground arith),
    )

-- A peek of at least one byte on a valid buffer that is not empty returns the oldest bytes and
-- leaves the buffer as it was.
pub peek_lem :
    (b : Buffer) (len : ℕ) (blocking : Bool)
    → IsValid b
    → 0 < len
    → 0 < b.count
    → peek b true len blocking ≡ got (fewer len b.count) (take len (contents b)) b
unfolding peek consume
peek_lem b len blocking v h k = read_at-eq-got b len blocking true v h k

-- A blocking read of some bytes is what it does when it wakes up.
pub read-resume :
    (b : Buffer) (len : ℕ) → 0 < len → read b true len true ≡ read_resume b true len 0 false
unfolding read read_at
read-resume b len h = ground arith

-- The cases of a read or a peek that does not copy: no length, and an empty buffer.
pub read-empty :
    (b : Buffer) (len : ℕ) (blocking : Bool)
    → b.count ≡ 0
    → read b true len blocking ≡ (
        if leb len 0
        then failed einval b
        else if not blocking
        then failed ewouldblock b
        else if b.closed
        then got 0 [] b
        else waits b)
unfolding read read_at read_resume
read-empty b len blocking e = ground arith

peek_offset :
    (b : Buffer) (at len : ℕ)
    → IsValid b
    → b.seq_start ≤ at
    → at < b.seq_start + b.count
    → 0 < len
    → read_at b true len (at - b.seq_start) false true
      ≡ got
          (fewer len (b.seq_start + b.count - at))
          (take len (drop (at - b.seq_start) (contents b)))
          b
unfolding consume
peek_offset b at len v lo hi h =
    let o = at - b.seq_start in
    let e : b.count - o ≡ b.seq_start + b.count - at = omega arith in
    read_at-copies b len o false true h (omega arith)
    ∙ read_copy_lem b len o true v h (omega arith)
    ∙ ap (λ l. got (fewer len (b.count - o)) l b)
        (take-fewer (drop o (contents b)) len (b.count - o)
          (omega (arith, length-drop o (contents b), length-contents b)))
    ∙ ap (λ m. got (fewer len m) (take len (drop o (contents b))) b) e

-- On a valid buffer whose sequence numbers do not wrap, `peek_at` at the number of a byte held
-- delivers the bytes from there on, as many as there are up to `len`; at any other number it is
-- refused. Either way the buffer stays as it was.
peek_at_lem :
    (b : Buffer) (at len : ℕ)
    → IsValid b
    → b.seq_start + b.count < 2 ^ 32
    → 0 < len
    → peek_at b true at len ≡ (
        if leb b.seq_start at && ltb at (b.seq_start + b.count)
        then got
            (fewer len (b.seq_start + b.count - at))
            (take len (drop (at - b.seq_start) (contents b)))
            b
        else failed einval b)
unfolding peek_at
peek_at_lem b at len v nowrap h =
    let e : b.seq_end ≡ b.seq_start + b.count = omega arith in
    elim (Bool-cases (leb b.seq_start at && ltb at (b.seq_start + b.count))) [
      | inl in_range ↦
          let e' : sub32 at b.seq_start ≡ at - b.seq_start = ground arith in
          let t : (ltb at b.seq_start || leb b.seq_end at) ≡ false = ground arith in
          rw (in_range, t, e') (peek_offset b at len v (ground arith) (ground arith) h)
      | inr out ↦ ground arith
    ]

-- On a valid buffer whose sequence numbers wrap, `peek_at` refuses every sequence number, also
-- those of bytes that the buffer holds.
peek_at_wrapped :
    (b : Buffer) (at len : ℕ)
    → IsValid b
    → 2 ^ 32 ≤ b.seq_start + b.count
    → peek_at b true at len ≡ failed einval b
unfolding peek_at
peek_at_wrapped b at len v wraps = let e : b.seq_end < b.seq_start = omega arith in ground arith
