-- ===== src/Buffer/Blocking.antt =====
-- A blocking `circular_buffer_write` with other threads: while the writer sleeps on `cv_notfull` they
-- read and close; when it wakes up it goes on with its loop. A schedule says what they do in each
-- sleep.
pub mod Flow
pub mod Progress
use chitcp.Base.{
  ℕ, zero, suc, ◌+◌, ◌-◌, ◌^◌, ◌≤◌, ◌<◌, ◌≡◌, ◌≢◌, refl, ◌⊎◌, inl, inr, Bool, true, false, List, [],
  ◌∷◌, ◌++◌, map, arith, length, slice, slice-append, take, drop, take-append-drop, if◌then◌else◌,
  ltb, leb, ◌==◌, Bool-cases, ap, ap₂, ◌∙◌, sym, subst,
}
use mathlib.Core.List.{append_assoc, append-nil}
use chitcp.Types.{Retcode, ewouldblock, einval}
use chitcp.Buffer.{
  Buffer, WriteOutcome, wrote, out_of_fuel, ReadOutcome, got, write_fuel, write_loop, write,
  clipped, read, close,
}
use chitcp.Buffer.Valid.{IsValid, contents, length-contents, close-IsValid}
use chitcp.Buffer.Read.{fewer}
use chitcp.Buffer.Reads.{read_lem, read-empty, read-zero, drop-fewer}
use chitcp.Buffer.Write.{Appended, Stops, write_loop_lem}

-- A call that another thread makes: a read that does not block, or a close.
pub data Call : Type 0 where
  reads : ℕ → Call
  closes : Call

-- What is left of a read that does not block, and what it delivers.
abbrev pub settled : Buffer → ReadOutcome → Buffer × List ℕ
settled b (ReadOutcome.failed e c) = (c, [])
settled b (ReadOutcome.waits c) = (c, [])
settled b (got n out c) = (c, out)

unfoldable pub call : Buffer → Call → Buffer × List ℕ
call b (reads len) = settled b (read b true len false)
call b closes = (close b, [])

unfoldable pub calls : Buffer → List Call → Buffer × List ℕ
unfolding call
calls b [] = (b, [])
calls b (x ∷ xs) = let (c, out) = call b x in let (d, rest) = calls c xs in (d, out ++ rest)

-- A loop that ended in `o`, and, if it sleeps, what the others do then and how it goes on.
abbrev pub resumed :
    WriteOutcome → List Call → (Buffer → ℕ → WriteOutcome × List ℕ) → WriteOutcome × List ℕ
resumed (WriteOutcome.waits w c) batch run =
    let (d, out) = calls c batch in let (o, later) = run d w in (o, out ++ later)
resumed (WriteOutcome.failed e c) batch run = (WriteOutcome.failed e c, [])
resumed (wrote w c) batch run = (wrote w c, [])
resumed out_of_fuel batch run = (out_of_fuel, [])

-- The write to its end, or to the end of the schedule; with it, what the readers got.
unfoldable pub run_write : List (List Call) → Buffer → List ℕ → ℕ → ℕ → WriteOutcome × List ℕ
run_write [] b src len written = (write_loop write_fuel b src len written, [])
run_write (batch ∷ rest) b src len written =
    resumed (write_loop write_fuel b src len written) batch (λ d w. run_write rest d src len w)

-- Nothing is lost between `b` and `c`: what was delivered stands before what is left.
pub record Drained (b : Buffer) (out : List ℕ) (c : Buffer) : Type 0 where
  pub valid : IsValid c
  pub all : out ++ contents c ≡ contents b
  pub same_maxsize : c.maxsize ≡ b.maxsize

Drained-self : (b : Buffer) → IsValid b → Drained b [] b
Drained-self b v = record { valid = v; all = refl; same_maxsize = refl }

-- A read that does not block delivers nothing and changes nothing, or takes off what it delivers.
read-Drained :
    (b : Buffer) (len : ℕ)
    → IsValid b
    → Drained b (settled b (read b true len false)).1 (settled b (read b true len false)).0
read-Drained b zero v =
    subst (λ r. Drained b (settled b r).1 (settled b r).0) (sym (read-zero b false))
      (Drained-self b v)
read-Drained b (suc n) v = elim (Bool-cases (b.count == 0)) [
  | inl none_left ↦
      let t : leb (suc n) 0 ≡ false = ground arith in
      let e : read b true (suc n) false ≡ ReadOutcome.failed ewouldblock b =
        read-empty b (suc n) false (ground arith) ∙ (rw t) in
      subst (λ r. Drained b (settled b r).1 (settled b r).0) (sym e) (Drained-self b v)
  | inr some_left ↦
      let (c, e, d) = read_lem b (suc n) false v (omega arith) (ground arith) in
      subst (λ r. Drained b (settled b r).1 (settled b r).0) (sym e)
        (record {
          valid = d.valid;
          all =
              ap (λ l. take (suc n) (contents b) ++ l)
                (d.rest ∙ drop-fewer (contents b) (suc n) b.count (length-contents b))
              ∙ take-append-drop (suc n) (contents b);
          same_maxsize = d.same_maxsize;
        })
]

call-Drained : (b : Buffer) (x : Call) → IsValid b → Drained b (call b x).1 (call b x).0
unfolding call
call-Drained b closes v = record {
  valid = close-IsValid v;
  all = unfold close in refl;
  same_maxsize = unfold close in refl;
}
call-Drained b (reads len) v = read-Drained b len v

pub calls-Drained :
    (b : Buffer) (xs : List Call) → IsValid b → Drained b (calls b xs).1 (calls b xs).0
unfolding calls
calls-Drained b [] v = Drained-self b v
calls-Drained b (x ∷ xs) v =
    let one = call-Drained b x v in
    let more = calls-Drained (call b x).0 xs one.valid in
    record {
      valid = more.valid;
      all = append_assoc (call b x).1 _ _ ∙ ap (λ l. (call b x).1 ++ l) more.all ∙ one.all;
      same_maxsize = more.same_maxsize ∙ one.same_maxsize;
    }
