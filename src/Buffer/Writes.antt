-- ===== src/Buffer/Writes.antt =====
-- `circular_buffer_write` as its callers see it, and the sequence numbers.
use chitcp.Base.{
  ℕ, ◌+◌, ◌%◌, ◌^◌, ◌≤◌, ◌<◌, ◌≡◌, ◌≢◌, ◌⊎◌, Bool, true, false, List, arith, length, add32, ap, sym,
  subst,
}
use chitcp.Types.{ewouldblock}
use chitcp.Buffer.{
  Buffer, WriteOutcome, failed, wrote, waits, out_of_fuel, write_fuel, write_loop, write, clipped,
  set_seq_initial, available, count, first, next,
}
use chitcp.Buffer.Valid.{IsValid}
use chitcp.Buffer.Write.{Appended, Stops, write_loop_lem}

-- A write that has room for all of its bytes comes back at once.
done_of_room :
    (b : Buffer) (src : List ℕ) (len : ℕ) (o : WriteOutcome)
    → b.closed ≡ false
    → b.count + len ≤ b.maxsize
    → Stops b src len 0 o
    → (c : Buffer) × (o ≡ wrote len c) × Appended b src 0 len c
done_of_room b src len (failed e c) op h s = absurd s
done_of_room b src len out_of_fuel op h s = absurd s
done_of_room b src len (wrote w c) op h s =
    let e : w ≡ len = ground (arith, s.2, s.0.same_closed) in
    (c, ap (λ n. wrote n c) e, subst (λ n. Appended b src 0 n c) e s.0)
done_of_room b src len (waits w c) op h s = absurd (omega (arith, s.0, s.1, s.2))

module _ (b : Buffer) (src : List ℕ) (len : ℕ) (v : IsValid b) (pos : 0 < len)
    (len_in : len ≤ length src) (len_small : len < 2 ^ 31) where
  -- On a valid open buffer, a write of between 1 and 2 ^ 31 - 1 bytes that has room for all of
  -- them appends them and returns their number, blocking or not.
  pub write-fits :
      (blocking : Bool)
      → b.closed ≡ false
      → b.count + len ≤ b.maxsize
      → (c : Buffer) × (write b src len blocking ≡ wrote len c) × Appended b src 0 len c
  unfolding write
  write-fits blocking op room =
      let e : write b src len blocking ≡ write_loop write_fuel b src len 0 = ground arith in
      subst (λ o. (c : Buffer) × (o ≡ wrote len c) × Appended b src 0 len c) (sym e)
        (done_of_room b src len _ op room
          (write_loop_lem src len len_in 1 b 0 v (omega arith) (omega arith)))

  -- On a valid buffer without room for all of its bytes, a write that may not block is refused,
  -- and changes nothing.
  write-refused : b.maxsize < b.count + len → write b src len false ≡ failed ewouldblock b
  unfolding write
  write-refused over = let e : add32 b.count len ≡ b.count + len = omega arith in ground arith

  -- A blocking write on a valid buffer works on no more bytes than the capacity, and stops with
  -- these written, or with none written on a closed buffer, or asleep on a full one with some
  -- written; what is written is appended.
  write-blocking : Stops b src (clipped b len) 0 (write b src len true)
  unfolding write
  write-blocking =
      let e : write b src len true ≡ write_loop write_fuel b src (clipped b len) 0 = ground arith in
      subst (Stops b src (clipped b len) 0) (sym e)
        (write_loop_lem src (clipped b len) (ground arith) 1 b 0 v (omega arith) (ground arith))

-- On a closed buffer a write returns 0 and writes nothing, or is refused.
pub write-closed :
    (b : Buffer) (src : List ℕ) (len : ℕ) (blocking : Bool)
    → b.closed ≡ true
    → 0 < len
    → (write b src len blocking ≡ wrote 0 b) ⊎ (write b src len blocking ≡ failed ewouldblock b)
unfolding write write_loop
write-closed b src len blocking cl h = ground arith

-- The free room and the bytes held make up the capacity.
pub available-add-count : (b : Buffer) → IsValid b → available b + count b ≡ b.maxsize
unfolding available count
available-add-count b v = omega arith

-- `next` is `first` plus the number of bytes held, as `uint32_t` counts.
pub next-eq-first-add-count : (b : Buffer) → IsValid b → next b ≡ (first b + count b) % 2 ^ 32
unfolding next first count
next-eq-first-add-count b v = omega arith

-- Setting the first number keeps a buffer valid that has not been read from yet.
pub set_seq_initial-IsValid :
    (b : Buffer) (s : ℕ)
    → IsValid b
    → s < 2 ^ 32
    → b.start ≡ 0
    → b.end ≡ b.count
    → IsValid (set_seq_initial b s)
unfolding set_seq_initial
set_seq_initial-IsValid b s v h z e = ground (arith, v.end_at)

-- Setting the first sequence number of a buffer whose end is not its number of bytes, as after a
-- read, leaves a buffer that is not valid: the code adds `end`, not the number of bytes held.
set_seq_initial_after_read :
    (b : Buffer) (s : ℕ)
    → IsValid b
    → s < 2 ^ 32
    → b.end ≢ b.count
    → ¬ IsValid (set_seq_initial b s)
unfolding set_seq_initial
set_seq_initial_after_read b s v h ne w = absurd (omega (arith, w.seq_at))
