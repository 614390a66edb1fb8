-- ===== src/Utils.antt =====
-- libchitcp/utils.c: the Internet checksum, and loops that send and receive all of a buffer through a
-- chiTCP socket. `chisocket_send` and `chisocket_recv` are arguments, over a state of the world.
pub mod Checksum
pub mod Loops
mod Tests
use chitcp.Base.{
  ℕ, zero, suc, ◌+◌, ◌-◌, ◌*◌, ◌/◌, ◌%◌, ◌^◌, ◌≤◌, ◌<◌, List, [], ◌∷◌, ◌++◌, if◌then◌else◌, ◌==◌,
  arith, length, take, drop,
}
use mathlib.Core.Logic.{dite}
use mathlib.Core.WellFounded.{Acc}
use native.Mathlib.Decide.{dec_lt}
use chitcp.Base.Order.{lt_wf}
use chitcp.Addr.{ntohs}
use chitcp.Packets.{
  Sent, took, send_error, Received, got, recv_error, SendOutcome, returned, gave_up, out_of_fuel,
}

-- The loop over the data: words of two bytes, the first one high, and a last byte alone. `sum` has 32
-- bits.
pub sum_words : List ℕ → ℕ → ℕ
sum_words [] sum = sum
sum_words (a ∷ []) sum = (sum + 256 * a) % 2 ^ 32
sum_words (a ∷ b ∷ rest) sum = sum_words rest ((sum + (256 * a + b)) % 2 ^ 32)

pub fold_shrinks : (sum : ℕ) → 65535 < sum → sum / 2 ^ 16 + sum % 2 ^ 16 < sum
fold_shrinks sum h = omega arith

-- `while (sum > 0xffff)`
pub fold : (sum : ℕ) → Acc ◌<◌ sum → ℕ
fold sum (Acc.intro _ smaller) =
    dite (dec_lt 65535 sum)
      (λ big. fold (sum / 2 ^ 16 + sum % 2 ^ 16) (smaller _ (fold_shrinks sum big))) (λ _. sum)

-- `htons (~sum)`, of which `htons` takes 16 bits
unfoldable pub complement : ℕ → ℕ
complement sum = ntohs ((2 ^ 32 - 1 - sum) % 2 ^ 16)

unfoldable pub cksum : List ℕ → ℕ
unfolding sum_words fold complement
cksum bytes =
    let sum = sum_words bytes 0 in
    let c = complement (fold sum (lt_wf.apply sum)) in if c == 0 then 65535 else c

-- `chitcp_socket_send`, on the bytes that are left. A `chisocket_send` that sends nothing is called again.
pub send_loop : {W : Type 0} → (W → List ℕ → Sent × W) → ℕ → W → List ℕ → ℕ → SendOutcome × W
send_loop send fuel w [] written = (returned written, w)
send_loop send zero w (b ∷ bs) written = (out_of_fuel, w)
send_loop send (suc fuel) w (b ∷ bs) written =
    let (r, w') = send w (b ∷ bs) in
    elim r [
      | send_error ↦ (gave_up, w')
      | took n ↦ send_loop send fuel w' (drop n (b ∷ bs)) (written + n)
    ]

unfoldable pub socket_send : {W : Type 0} → (W → List ℕ → Sent × W) → W → List ℕ → SendOutcome × W
unfolding send_loop
socket_send send w buffer = send_loop send (length buffer) w buffer 0

-- The count that is returned, with the bytes of the buffer.
pub data RecvOutcome : Type 0 where
  filled : List ℕ → RecvOutcome
  failed out_of_rounds : RecvOutcome

-- `chitcp_socket_recv`, with so many bytes left to receive.
pub recv_loop : {W : Type 0} → (W → ℕ → Received × W) → ℕ → W → ℕ → List ℕ → RecvOutcome × W
recv_loop recv fuel w zero buffer = (filled buffer, w)
recv_loop recv zero w (suc left) buffer = (out_of_rounds, w)
recv_loop recv (suc fuel) w (suc left) buffer =
    let (r, w') = recv w (suc left) in
    elim r [
      | recv_error ↦ (failed, w')
      | got [] ↦ (filled buffer, w')
      | got (b ∷ bs) ↦ recv_loop recv fuel w' (suc left - length (b ∷ bs)) (buffer ++ b ∷ bs)
    ]

-- Each round receives a byte at least, or is the last.
unfoldable pub socket_recv : {W : Type 0} → (W → ℕ → Received × W) → W → ℕ → RecvOutcome × W
unfolding recv_loop
socket_recv recv w n = recv_loop recv n w n []
