-- ===== src/Buffer/Write.antt =====
-- `circular_buffer_write` up to its end or its next wait.
use chitcp.Base.{
  ℕ, suc, ◌+◌, ◌-◌, ◌≤◌, ◌<◌, ◌≡◌, ◌≢◌, refl, ◌⊎◌, inl, inr, Bool, true, false, List, ◌++◌, not,
  ◌&&◌, arith, length, slice, slice-append, if◌then◌else◌, ltb, leb, ◌==◌, add32, Bool-cases, ap,
  ◌∙◌, sym, subst,
}
use mathlib.Core.List.{append-nil, append_assoc}
use chitcp.Buffer.{
  Buffer, WriteOutcome, failed, wrote, waits, out_of_fuel, put, towrite, write_loop,
}
use chitcp.Buffer.Valid.{IsValid, contents, towrite_lem}
use chitcp.Buffer.Put.{Fits, contents-put, put-IsValid, fields-put}

-- The buffer `c` is `b` with bytes `written` to `w` of the caller's array appended.
pub record Appended (b : Buffer) (src : List ℕ) (written w : ℕ) (c : Buffer) : Type 0 where
  pub valid : IsValid c
  pub grew : written ≤ w
  pub appended : contents c ≡ contents b ++ slice src written (w - written)
  pub count_now : c.count ≡ b.count + (w - written)
  pub same_maxsize : c.maxsize ≡ b.maxsize
  pub same_closed : c.closed ≡ b.closed
  pub same_seq_start : c.seq_start ≡ b.seq_start

-- How the loop stops: with all of `len` written, on a closed buffer, or asleep on a full one.
abbrev pub Stops : Buffer → List ℕ → ℕ → ℕ → WriteOutcome → Type 0
Stops b src len written (failed e c) = ⊥
Stops b src len written out_of_fuel = ⊥
Stops b src len written (wrote w c) =
    Appended b src written w c × (w ≤ len) × ((w ≡ len) ⊎ ((c.closed ≡ true) × (w ≡ written)))
Stops b src len written (waits w c) =
    Appended b src written w c × (w < len) × (c.count ≡ c.maxsize) × (c.closed ≡ false)

-- The last branch of the loop's tests.
if_last {ℓ} :
    {A : Type ℓ} (p q r : Bool) (x y z w : A)
    → p ≡ false
    → q ≡ false
    → r ≡ false
    → (if p then x else if q then y else if r then z else w) ≡ w
if_last p q r x y z w ep eq er = rw (ep, eq, er)

module _ (src : List ℕ) (len : ℕ) (len_in : len ≤ length src) where
  Appended-self : (b : Buffer) (written : ℕ) → IsValid b → Appended b src written written b
  Appended-self b written v =
      let e : written - written ≡ 0 = omega arith in
      record {
        valid = v;
        grew = omega arith;
        appended = rw (e, append-nil);
        count_now = omega arith;
        same_maxsize = refl;
        same_closed = refl;
        same_seq_start = refl;
      }

  Appended-put :
      (b : Buffer) (written n w : ℕ) (c : Buffer)
      → Fits b src written n
      → w ≤ length src
      → Appended (put b src written n) src (written + n) w c
      → Appended b src written w c
  Appended-put b written n w c f h a =
      let e : w - written ≡ n + (w - (written + n)) = omega arith in
      record {
        valid = a.valid;
        grew = omega arith;
        appended =
            a.appended
            ∙ ap (λ l. l ++ slice src (written + n) (w - (written + n)))
                (contents-put b src written n f)
            ∙ append_assoc (contents b) (slice src written n) _
            ∙ ap (λ l. contents b ++ l)
                (slice-append src written n (w - (written + n)) (omega arith)
                  ∙ ap (slice src written) (sym e));
        count_now = omega (arith, fields-put b src written n f);
        same_maxsize = a.same_maxsize ∙ (fields-put b src written n f).1;
        same_closed = a.same_closed ∙ (fields-put b src written n f).2;
        same_seq_start = a.same_seq_start ∙ (fields-put b src written n f).3;
      }

  -- A loop that has nothing left to write, or no room, stops at once.
  loop-Stops :
      (fuel : ℕ) (b : Buffer) (written : ℕ)
      → IsValid b
      → written ≤ len
      → (written ≡ len) ⊎ ((b.count ≡ b.maxsize) ⊎ (b.closed ≡ true))
      → Stops b src len written (write_loop (suc fuel) b src len written)
  unfolding write_loop
  loop-Stops fuel b written v h stop = ground (arith, Appended-self b written v)

  Stops-put :
      (b : Buffer) (written n : ℕ) (o : WriteOutcome)
      → Fits b src written n
      → b.closed ≡ false
      → written + n ≤ len
      → Stops (put b src written n) src len (written + n) o
      → Stops b src len written o
  Stops-put b written n (failed e c) f op h s = s
  Stops-put b written n (wrote w c) f op h s = (
    Appended-put b written n w c f (omega arith) s.0,
    s.1,
    ground (arith, s.0.same_closed, s.2, fields-put b src written n f),
  )
  Stops-put b written n (waits w c) f op h s =
      (Appended-put b written n w c f (omega arith) s.0, s.1, s.2, s.3)
  Stops-put b written n out_of_fuel f op h s = s

  towrite_bounds :
      (b : Buffer) (written : ℕ)
      → IsValid b
      → written ≤ len
      → len ≤ b.maxsize
      → let n = towrite b len written in
        (written + n ≤ len)
        × (b.count + n ≤ b.maxsize)
        × ((written + n ≡ len) ⊎ (b.count + n ≡ b.maxsize))
  towrite_bounds b written v h k = ground (arith, towrite_lem len written v h k)

  -- One round that writes, then the stop.
  loop_writes :
      (fuel : ℕ) (b : Buffer) (written : ℕ)
      → IsValid b
      → written < len
      → len ≤ b.maxsize
      → b.count ≢ b.maxsize
      → b.closed ≡ false
      → Stops b src len written (write_loop (suc (suc fuel)) b src len written)
  unfolding write_loop
  loop_writes fuel b written v h k room op =
      let n = towrite b len written in
      let (in_len, in_room, ends) = towrite_bounds b written v (omega arith) k in
      let f : Fits b src written n = record {
        valid = v;
        room = in_room;
        in_src = omega arith;
        written_small = omega arith;
      } in
      let e : add32 written n ≡ written + n = omega arith in
      subst (Stops b src len written)
        (sym (
          if_last (leb len written) (b.count == b.maxsize && not b.closed) b.closed
            (wrote written b) (WriteOutcome.waits written b) (wrote written b) _ (ground arith)
            (ground arith) op
          ∙ ap (write_loop (suc fuel) (put b src written n) src len) e))
        (Stops-put b written n _ f op in_len (
          loop-Stops fuel (put b src written n) (written + n) (put-IsValid b src written n f) in_len
            (omega (arith, fields-put b src written n f))))

  -- The loop stops, from any valid buffer, and has appended what it says.
  pub write_loop_lem :
      (fuel : ℕ) (b : Buffer) (written : ℕ)
      → IsValid b
      → written ≤ len
      → len ≤ b.maxsize
      → Stops b src len written (write_loop (suc (suc fuel)) b src len written)
  write_loop_lem fuel b written v h k =
      elim (Bool-cases (ltb written len && not (b.count == b.maxsize) && not b.closed)) [
        | inl go ↦ loop_writes fuel b written v (ground arith) k (ground arith) (ground arith)
        | inr stay ↦ loop-Stops (suc fuel) b written v h (ground arith)
      ]
