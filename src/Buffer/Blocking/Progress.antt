-- ===== src/Buffer/Blocking/Progress.antt =====
-- A blocking write ends when readers keep taking bytes off.
use chitcp.Base.{
  ℕ, suc, ◌+◌, ◌≤◌, ◌<◌, ◌≡◌, false, List, [], ◌∷◌, map, arith, length, ap, ◌∙◌, sym, subst,
}
use chitcp.Buffer.{Buffer, WriteOutcome, wrote, out_of_fuel, write_fuel, write_loop}
use chitcp.Buffer.Valid.{IsValid}
use chitcp.Buffer.Reads.{read_lem}
use chitcp.Buffer.Write.{Stops, write_loop_lem}
use chitcp.Buffer.Blocking.{Call, reads, calls, call, settled, resumed, run_write}

-- One read of at least one byte in each sleep.
abbrev pub steady : List ℕ → List (List Call)
steady = map (λ k. reads (suc k) ∷ [])

-- The write has come to its end, with `len` bytes written.
abbrev pub IsDone : ℕ → WriteOutcome → Type 0
IsDone len o = (c : Buffer) × (o ≡ wrote len c)

-- A read from a full buffer makes room and changes nothing else that the writer looks at.
reads-full :
    (c : Buffer) (k : ℕ)
    → IsValid c
    → c.count ≡ c.maxsize
    → let d = (calls c (reads (suc k) ∷ [])).0 in
      IsValid d × (d.count < d.maxsize) × (d.maxsize ≡ c.maxsize) × (d.closed ≡ c.closed)
unfolding calls call
reads-full c k v full =
    let (d, e, t) = read_lem c (suc k) false v (omega arith) (omega arith) in
    subst
      (λ r.
        let x = (settled c r).0 in
        IsValid x × (x.count < x.maxsize) × (x.maxsize ≡ c.maxsize) × (x.closed ≡ c.closed))
      (sym e) (t.valid, ground (arith, t.count_now, t.same_maxsize), t.same_maxsize, t.same_closed)

module _ (src : List ℕ) (len : ℕ) (len_in : len ≤ length src) where
  resumed-IsDone :
      (b : Buffer) (written k : ℕ) (run : Buffer → ℕ → WriteOutcome × List ℕ) (o : WriteOutcome)
      → b.closed ≡ false
      → ((d : Buffer) (w : ℕ)
          → IsValid d
          → w ≤ len
          → len ≤ d.maxsize
          → d.closed ≡ false
          → d.count < d.maxsize
          → (b.count < b.maxsize → written < w)
          → IsDone len (run d w).0)
      → len ≤ b.maxsize
      → Stops b src len written o
      → IsDone len (resumed o (reads (suc k) ∷ []) run).0
  resumed-IsDone b written k run (WriteOutcome.failed e c) op ih fits s = absurd s
  resumed-IsDone b written k run out_of_fuel op ih fits s = absurd s
  resumed-IsDone b written k run (wrote w c) op ih fits s =
      (c, ap (λ n. wrote n c) (ground (arith, s.2, s.0.same_closed)))
  resumed-IsDone b written k run (WriteOutcome.waits w c) op ih fits s =
      let (v, room, same, cl) = reads-full c k s.0.valid s.2 in
      ih (calls c (reads (suc k) ∷ [])).0 w v (omega arith) (omega (arith, s.0.same_maxsize))
        (cl ∙ s.3) room (λ p. omega (arith, s.0))

  nothing_left :
      (b : Buffer) (written : ℕ) (o : WriteOutcome)
      → written ≡ len
      → Stops b src len written o
      → IsDone len o
  nothing_left b written (WriteOutcome.failed e c) h s = absurd s
  nothing_left b written out_of_fuel h s = absurd s
  nothing_left b written (wrote w c) h s = (c, ap (λ n. wrote n c) (omega (arith, s.0.grew, s.1)))
  nothing_left b written (WriteOutcome.waits w c) h s = absurd (omega (arith, s.0.grew, s.1))

  -- With room in the buffer every round writes, so there are at most `len - written` sleeps.
  run_with_room :
      (ks : List ℕ) (b : Buffer) (written : ℕ)
      → IsValid b
      → written ≤ len
      → len ≤ b.maxsize
      → b.closed ≡ false
      → b.count < b.maxsize
      → len ≤ written + length ks
      → IsDone len (run_write (steady ks) b src len written).0
  unfolding run_write
  run_with_room [] b written v h fits op room enough =
      nothing_left b written _ (omega arith) (write_loop_lem src len len_in 1 b written v h fits)
  run_with_room (k ∷ ks) b written v h fits op room enough =
      resumed-IsDone b written k (λ d w. run_write (steady ks) d src len w)
        (write_loop write_fuel b src len written) op
        (λ d w vd hd fd cd rd moved.
          run_with_room ks d w vd hd fd cd rd (omega (arith, moved room)))
        fits (write_loop_lem src len len_in 1 b written v h fits)

  -- A blocking write of no more than the capacity on a valid open buffer writes all of `len`,
  -- whatever the buffer held, if there are more reads than bytes to write.
  pub run_write-IsDone :
      (k : ℕ) (ks : List ℕ) (b : Buffer)
      → IsValid b
      → len ≤ b.maxsize
      → b.closed ≡ false
      → len ≤ length ks
      → IsDone len (run_write (steady (k ∷ ks)) b src len 0).0
  unfolding run_write
  run_write-IsDone k ks b v fits op enough =
      resumed-IsDone b 0 k (λ d w. run_write (steady ks) d src len w)
        (write_loop write_fuel b src len 0) op
        (λ d w vd hd fd cd rd moved. run_with_room ks d w vd hd fd cd rd (omega arith)) fits
        (write_loop_lem src len len_in 1 b 0 v (omega arith) fits)
