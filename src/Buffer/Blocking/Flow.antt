-- ===== src/Buffer/Blocking/Flow.antt =====
-- Under any schedule a blocking write loses no byte, makes none up and keeps their order.
use chitcp.Base.{
  ℕ, ◌+◌, ◌-◌, ◌≤◌, ◌<◌, ◌≡◌, ◌⊎◌, true, false, List, [], ◌∷◌, ◌++◌, arith, length, slice,
  slice-append, ap, ◌∙◌, sym,
}
use mathlib.Core.List.{append_assoc}
use chitcp.Buffer.{Buffer, WriteOutcome, wrote, out_of_fuel, write_fuel, write_loop}
use chitcp.Buffer.Valid.{IsValid, contents}
use chitcp.Buffer.Write.{Appended, Stops, write_loop_lem}
use chitcp.Buffer.Blocking.{Call, calls, resumed, run_write, Drained, calls-Drained}

-- What a write that has reached `w` leaves, with all that was read since it began.
pub record Flow (b : Buffer) (src : List ℕ) (written w : ℕ) (out : List ℕ) (c : Buffer)
    : Type 0 where
  pub valid : IsValid c
  pub grew : written ≤ w
  pub all : out ++ contents c ≡ contents b ++ slice src written (w - written)
  pub same_maxsize : c.maxsize ≡ b.maxsize

-- A run ends with the write done, or cut short by a close, or still asleep on a full buffer.
abbrev pub Flows : Buffer → List ℕ → ℕ → ℕ → WriteOutcome × List ℕ → Type 0
Flows b src len written (WriteOutcome.failed e c, out) = ⊥
Flows b src len written (out_of_fuel, out) = ⊥
Flows b src len written (wrote w c, out) =
    Flow b src written w out c × (w ≤ len) × ((w ≡ len) ⊎ (c.closed ≡ true))
Flows b src len written (WriteOutcome.waits w c, out) =
    Flow b src written w out c × (w < len) × (c.count ≡ c.maxsize) × (c.closed ≡ false)

module _ (src : List ℕ) (len : ℕ) (len_in : len ≤ length src) where
  Flow-Appended :
      (b : Buffer) (written w : ℕ) (c : Buffer)
      → Appended b src written w c
      → Flow b src written w [] c
  Flow-Appended b written w c a = record {
    valid = a.valid;
    grew = a.grew;
    all = a.appended;
    same_maxsize = a.same_maxsize;
  }

  Flow-trans :
      (b : Buffer) (written w : ℕ) (c : Buffer) (out : List ℕ) (d : Buffer) (w' : ℕ)
      (later : List ℕ) (e : Buffer)
      → Appended b src written w c
      → Drained c out d
      → Flow d src w w' later e
      → w' ≤ length src
      → Flow b src written w' (out ++ later) e
  Flow-trans b written w c out d w' later e a r f h =
      let en : w' - w + (w - written) ≡ w' - written = omega (arith, a.grew, f.grew) in
      record {
        valid = f.valid;
        grew = omega (arith, a.grew, f.grew);
        all =
            append_assoc out later (contents e)
            ∙ ap (λ l. out ++ l) f.all
            ∙ sym (append_assoc out (contents d) _)
            ∙ ap (λ l. l ++ slice src w (w' - w)) (r.all ∙ a.appended)
            ∙ append_assoc (contents b) _ _
            ∙ ap (λ l. contents b ++ l) (joined a.grew f.grew);
        same_maxsize = f.same_maxsize ∙ r.same_maxsize ∙ a.same_maxsize;
      }
    where
      joined :
          written ≤ w
          → w ≤ w'
          → slice src written (w - written) ++ slice src w (w' - w)
            ≡ slice src written (w' - written)
      joined p q =
          let e1 : w ≡ written + (w - written) = omega arith in
          let e2 : w - written + (w' - w) ≡ w' - written = omega arith in
          ap (λ k. slice src written (w - written) ++ slice src k (w' - w)) e1
          ∙ slice-append src written (w - written) (w' - w) (omega arith)
          ∙ ap (slice src written) e2

  Flows-trans :
      (b : Buffer) (written w : ℕ) (c : Buffer) (out : List ℕ) (d : Buffer)
      (r : WriteOutcome × List ℕ)
      → Appended b src written w c
      → Drained c out d
      → Flows d src len w r
      → Flows b src len written (r.0, out ++ r.1)
  Flows-trans b written w c out d (WriteOutcome.failed e x, later) a dr f = f
  Flows-trans b written w c out d (out_of_fuel, later) a dr f = f
  Flows-trans b written w c out d (wrote w' x, later) a dr f =
      (Flow-trans b written w c out d w' later x a dr f.0 (omega arith), f.1, f.2)
  Flows-trans b written w c out d (WriteOutcome.waits w' x, later) a dr f =
      (Flow-trans b written w c out d w' later x a dr f.0 (omega arith), f.1, f.2, f.3)

  Flows-Stops :
      (b : Buffer) (written : ℕ) (o : WriteOutcome)
      → Stops b src len written o
      → Flows b src len written (o, [])
  Flows-Stops b written (WriteOutcome.failed e c) s = s
  Flows-Stops b written out_of_fuel s = s
  Flows-Stops b written (wrote w c) s = (Flow-Appended b written w c s.0, s.1, ground (arith, s.2))
  Flows-Stops b written (WriteOutcome.waits w c) s =
      (Flow-Appended b written w c s.0, s.1, s.2, s.3)

  Flows-resumed :
      (b : Buffer) (written : ℕ) (batch : List Call) (run : Buffer → ℕ → WriteOutcome × List ℕ)
      (o : WriteOutcome)
      → ((d : Buffer) (w : ℕ)
          → IsValid d
          → w ≤ len
          → d.maxsize ≡ b.maxsize
          → Flows d src len w (run d w))
      → Stops b src len written o
      → Flows b src len written (resumed o batch run)
  Flows-resumed b written batch run (WriteOutcome.failed e c) ih s = s
  Flows-resumed b written batch run out_of_fuel ih s = s
  Flows-resumed b written batch run (wrote w c) ih s = Flows-Stops b written (wrote w c) s
  Flows-resumed b written batch run (WriteOutcome.waits w c) ih s =
      let r = calls c batch in
      let d = calls-Drained c batch s.0.valid in
      Flows-trans b written w c r.1 r.0 (run r.0 w) s.0 d
        (ih r.0 w d.valid (omega arith) (d.same_maxsize ∙ s.0.same_maxsize))

  -- In a write that blocks on a valid buffer, with reads and a close of other threads at every
  -- wake-up, no byte is lost, made up or put out of order.
  pub run_write-Flows :
      (schedule : List (List Call)) (b : Buffer) (written : ℕ)
      → IsValid b
      → written ≤ len
      → len ≤ b.maxsize
      → Flows b src len written (run_write schedule b src len written)
  unfolding run_write
  run_write-Flows [] b written v h k =
      Flows-Stops b written _ (write_loop_lem src len len_in 1 b written v h k)
  run_write-Flows (batch ∷ rest) b written v h k =
      Flows-resumed b written batch (λ d w. run_write rest d src len w)
        (write_loop write_fuel b src len written)
        (λ d w vd hd kd. run_write-Flows rest d w vd hd (omega arith))
        (write_loop_lem src len len_in 1 b written v h k)
