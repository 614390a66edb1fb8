-- ===== src/Buffer.antt =====
-- libchitcp/buffer.c: the circular buffer. A call runs under the buffer's lock, so it is a function
-- of the buffer; a wait on a condition variable, which lets go of the lock, ends the function with
-- `waits`, and `write_loop` and `read_resume` are what runs when the thread wakes up.
use chitcp.Base.{
  ℕ, zero, suc, ◌+◌, ◌-◌, ◌%◌, ◌^◌, ◌<◌, ◌≡◌, Bool, true, false, ◌&&◌, ◌||◌, not, List, [], ◌++◌,
  ltb, leb, ◌==◌, if◌then◌else◌, slice, copy_at, replicate, add32, sub32,
}
pub mod Valid
mod Put
pub mod Write
pub mod Read
pub mod Reads
mod Blocking
pub mod Writes
mod Tests
use chitcp.Types.{Retcode, ewouldblock, einval}

-- `circular_buffer_t`, less its lock and condition variables.
pub record Buffer : Type 0 where
  pub bytes : List ℕ
  pub seq_initial : ℕ
  pub seq_start : ℕ
  pub seq_end : ℕ
  pub start : ℕ
  pub end : ℕ
  pub count : ℕ
  pub closed : Bool
  pub maxsize : ℕ

-- `garbage` is what `malloc` finds in its bytes.
pub init : List ℕ → ℕ → Buffer
init garbage maxsize = record {
  bytes = garbage;
  seq_initial = 0;
  seq_start = 0;
  seq_end = 0;
  start = 0;
  end = 0;
  count = 0;
  closed = false;
  maxsize = maxsize;
}

pub set_seq_initial : Buffer → ℕ → Buffer
set_seq_initial b s = record b { seq_initial = s; seq_start = s; seq_end = add32 s b.end }

pub data WriteOutcome : Type 0 where
  failed : Retcode → Buffer → WriteOutcome
  -- asleep on `cv_notfull`, with so many bytes written
  waits : ℕ → Buffer → WriteOutcome
  wrote : ℕ → Buffer → WriteOutcome
  out_of_fuel : WriteOutcome

-- How many bytes one round of the loop can write.
pub towrite : Buffer → ℕ → ℕ → ℕ
towrite b len written =
    if ltb (sub32 len written) (sub32 b.maxsize b.count)
    then sub32 len written
    else sub32 b.maxsize b.count

-- The two copies of a chunk that runs past the end of the array.
pub put_wrapped : Buffer → List ℕ → ℕ → ℕ → Buffer
put_wrapped b src written n =
    let to_max = sub32 b.maxsize b.end in
    let after_max = sub32 n to_max in
    record b {
      bytes =
          copy_at (copy_at b.bytes b.end (slice src written to_max)) 0
            (slice src (add32 written to_max) after_max);
      end = after_max;
      count = add32 b.count n;
      seq_end = add32 b.seq_end n;
    }

pub put_plain : Buffer → List ℕ → ℕ → ℕ → Buffer
put_plain b src written n = record b {
  bytes = copy_at b.bytes b.end (slice src written n);
  end = add32 b.end n;
  count = add32 b.count n;
  seq_end = add32 b.seq_end n;
}

pub put : Buffer → List ℕ → ℕ → ℕ → Buffer
unfolding put_wrapped put_plain
put b src written n =
    if ltb b.maxsize (add32 b.end n) then put_wrapped b src written n else put_plain b src written n

-- `while (written < len)`, from a wake-up or from the start.
pub write_loop : ℕ → Buffer → List ℕ → ℕ → ℕ → WriteOutcome
write_loop zero b src len written = out_of_fuel
write_loop (suc fuel) b src len written =
    let n = towrite b len written in
    let rest = write_loop fuel (put b src written n) src len (add32 written n) in
    if leb len written
    then wrote written b
    else if b.count == b.maxsize && not b.closed
    then waits written b
    else if b.closed
    then wrote written b
    else rest

-- The length that the loop works with, after the cut to the capacity.
abbrev pub clipped : Buffer → ℕ → ℕ
clipped b len = if ltb b.maxsize len then b.maxsize else len

-- Two rounds write all there is room for; the third finds the loop's test false or waits.
abbrev pub write_fuel : ℕ
write_fuel = 3

-- `circular_buffer_write`; `src` is the caller's array.
pub write : Buffer → List ℕ → ℕ → Bool → WriteOutcome
write b src len blocking =
    if leb len 0
    then failed einval b
    else if ltb b.maxsize (add32 b.count len) && not blocking
    then failed ewouldblock b
    else write_loop write_fuel b src (clipped b len) 0

pub data ReadOutcome : Type 0 where
  failed : Retcode → Buffer → ReadOutcome
  -- asleep on `cv_notempty`
  waits : Buffer → ReadOutcome
  -- the return value, and what is copied to `dst`
  got : ℕ → List ℕ → Buffer → ReadOutcome

-- The number of bytes to copy, once there are any.
pub toread : Buffer → ℕ → ℕ → ℕ
toread b len offset = if ltb len (sub32 b.count offset) then len else sub32 b.count offset

-- `if (!peeking) ...`
pub consume : Buffer → ℕ → ℕ → Bool → Buffer
consume b start n peeking =
    if peeking
    then b
    else record b { start = start; count = sub32 b.count n; seq_start = add32 b.seq_start n }

-- The copies of `n` bytes from `start` on. `dst` says whether the caller passed an array (it may be
-- NULL).
pub copy_out : Buffer → Bool → ℕ → ℕ → Bool → ReadOutcome
copy_out b dst start n peeking =
    let to_max = sub32 b.maxsize start in
    let after_max = sub32 n to_max in
    if ltb b.maxsize (add32 start n)
    then got n (if dst then slice b.bytes start to_max ++ slice b.bytes 0 after_max else [])
        (consume b after_max n peeking)
    else got n (if dst then slice b.bytes start n else []) (consume b (add32 start n) n peeking)

pub read_copy : Buffer → Bool → ℕ → ℕ → Bool → ReadOutcome
read_copy b dst len offset peeking =
    copy_out b dst (add32 b.start offset % b.maxsize) (toread b len offset) peeking

-- The wait's loop test and what follows it.
pub read_resume : Buffer → Bool → ℕ → ℕ → Bool → ReadOutcome
read_resume b dst len offset peeking =
    if b.count == 0 && not b.closed
    then waits b
    else if b.closed && b.count == 0
    then got 0 [] b
    else read_copy b dst len offset peeking

-- `__circular_buffer_read`
pub read_at : Buffer → Bool → ℕ → ℕ → Bool → Bool → ReadOutcome
read_at b dst len offset blocking peeking =
    if leb len 0
    then failed einval b
    else if b.count == 0 && not blocking
    then failed ewouldblock b
    else read_resume b dst len offset peeking

pub read : Buffer → Bool → ℕ → Bool → ReadOutcome
unfolding read_at
read b dst len blocking = read_at b dst len 0 blocking false

pub peek : Buffer → Bool → ℕ → Bool → ReadOutcome
unfolding read_at
peek b dst len blocking = read_at b dst len 0 blocking true

pub peek_at : Buffer → Bool → ℕ → ℕ → ReadOutcome
unfolding read_at
peek_at b dst at len =
    if ltb at b.seq_start || leb b.seq_end at
    then failed einval b
    else read_at b dst len (sub32 at b.seq_start) false true

pub first : Buffer → ℕ
first b = b.seq_start

pub next : Buffer → ℕ
next b = b.seq_end

pub capacity : Buffer → ℕ
capacity b = b.maxsize

unfoldable pub count : Buffer → ℕ
count b = b.count

pub available : Buffer → ℕ
available b = sub32 b.maxsize b.count

pub close : Buffer → Buffer
close b = record b { closed = true }
