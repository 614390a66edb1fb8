-- ===== src/Utils/Loops.antt =====
-- The loops send and receive all there is, and end.
use chitcp.Base.{
  ℕ, zero, suc, ◌+◌, ◌-◌, ◌≤◌, ◌≡◌, ◌≢◌, refl, sym, ap, ◌∙◌, subst, List, [], ◌∷◌, ◌++◌, length,
  take, drop, arith, take-add, length-take, drop-add, drop_all,
}
use mathlib.Core.List.{append_assoc, append-nil}
use chitcp.Packets
use chitcp.Packets.{Sent, took, send_error, Received, got, recv_error, SendOutcome, returned}
use chitcp.Packets.Sending.{Sends, Goes, send_loop-Goes}
use chitcp.Utils.{send_loop, socket_send, RecvOutcome, filled, recv_loop, socket_recv}

-- A `chisocket_send` that never takes nothing.
abbrev pub Busy : {W : Type 0} → (W → List ℕ → Sent × W) → Type 0
Busy {W} send = (w : W) (b : ℕ) (bs : List ℕ) → (send w (b ∷ bs)).0 ≢ took 0

-- Then the loop is that of the packets.
same_round :
    {W : Type 0} (send : W → List ℕ → Sent × W)
    → Busy send
    → (fuel : ℕ) (w : W) (b : ℕ) (bs : List ℕ) (written : ℕ)
    → ((w' : W) (rest : List ℕ) (n : ℕ)
        → send_loop send fuel w' rest n ≡ Packets.send_loop send fuel w' rest n)
    → (r : Sent) → (send w (b ∷ bs)).0 ≡ r
    → send_loop send (suc fuel) w (b ∷ bs) written
      ≡ Packets.send_loop send (suc fuel) w (b ∷ bs) written
unfolding send_loop Packets.send_loop
same_round send busy fuel w b bs written ih send_error e = rw (e, send_loop, Packets.send_loop) refl
same_round send busy fuel w b bs written ih (took zero) e = absurd (busy w b bs e)
same_round send busy fuel w b bs written ih (took (suc n)) e =
    rw (e, send_loop, Packets.send_loop) (ih (send w (b ∷ bs)).1 (drop n bs) (written + suc n))

same_loop :
    {W : Type 0} (send : W → List ℕ → Sent × W)
    → Busy send
    → (fuel : ℕ) (w : W) (bs : List ℕ) (written : ℕ)
    → send_loop send fuel w bs written ≡ Packets.send_loop send fuel w bs written
unfolding send_loop Packets.send_loop
same_loop send busy fuel w [] written = refl
same_loop send busy zero w (b ∷ bs) written = refl
same_loop send busy (suc fuel) w (b ∷ bs) written =
    same_round send busy fuel w b bs written (λ w' rest n. same_loop send busy fuel w' rest n)
      (send w (b ∷ bs)).0 refl

-- With a `chisocket_send` that sends the first bytes it is given, one at least, or fails: `chitcp_socket_send` ends, and it has sent the whole buffer and returns its length, or failed after a proper part of it.
socket_send-Goes :
    {W : Type 0} (send : W → List ℕ → Sent × W) (stream : W → List ℕ)
    → Sends send stream
    → Busy send
    → (w : W) (buffer : List ℕ)
    → Goes send stream w buffer (length buffer) (socket_send send w buffer)
unfolding socket_send
socket_send-Goes send stream law busy w buffer =
    let n : 0 + length buffer ≡ length buffer = omega arith in
    subst (λ k. Goes send stream w buffer k (send_loop send (length buffer) w buffer 0)) n
      (subst (Goes send stream w buffer (0 + length buffer))
        (sym (same_loop send busy (length buffer) w buffer 0))
        (send_loop-Goes send stream law (length buffer) w buffer 0 (omega arith)))

-- What `chisocket_recv` does on a connection that does not fail: it brings the next bytes, one at least and as many as asked for at most, and none only when no more will come.
pub record Brings {W : Type 0} (recv : W → ℕ → Received × W) (input : W → List ℕ) : Type 0 where
  pub part :
      (w : W) (n : ℕ)
      → (k : ℕ) × (k ≤ suc n)
        × (k ≤ length (input w))
        × (k ≡ 0 → input w ≡ [])
        × ((recv w (suc n)).0 ≡ got (take k (input w)))
        × (input (recv w (suc n)).1 ≡ drop k (input w))

abbrev bytes_of : Received → List ℕ
bytes_of (got bs) = bs
bytes_of recv_error = []

module _ {W : Type 0} (recv : W → ℕ → Received × W) (input : W → List ℕ)
    (law : Brings recv input) where
  Filled : W → ℕ → List ℕ → RecvOutcome × W → Type 0
  Filled w n buffer o =
      (w' : W) × (o ≡ (filled (buffer ++ take n (input w)), w')) × (input w' ≡ drop n (input w))

  ended :
      (w : W) (n k : ℕ) (buffer : List ℕ)
      → input w ≡ []
      → input (recv w (suc n)).1 ≡ drop k (input w)
      → Filled w (suc n) buffer (filled buffer, (recv w (suc n)).1)
  unfolding Filled
  ended w n k buffer empty d =
      let all : buffer ≡ buffer ++ take (suc n) (input w) =
        sym (append-nil buffer) ∙ ap (λ x. buffer ++ take (suc n) x) (sym empty) in
      (
        (recv w (suc n)).1,
        ap (λ x. (filled x, (recv w (suc n)).1)) all,
        d ∙ ap (drop k) empty ∙ drop_all k [] (omega arith) ∙ sym (ap (drop (suc n)) empty),
      )

  brought :
      (w w1 : W) (n k : ℕ) (buffer : List ℕ) (o : RecvOutcome × W)
      → k ≤ suc n
      → input w1 ≡ drop k (input w)
      → Filled w1 (suc n - k) (buffer ++ take k (input w)) o
      → Filled w (suc n) buffer o
  unfolding Filled
  brought w w1 n k buffer o le d (w', e, left) =
      let m : k + (suc n - k) ≡ suc n = omega arith in
      (
        w',
        e
            ∙ ap (λ x. (filled x, w'))
                (append_assoc buffer (take k (input w)) (take (suc n - k) (input w1))
                  ∙ ap (λ x. buffer ++ (take k (input w) ++ take (suc n - k) x)) d
                  ∙ ap (λ x. buffer ++ x) (take-add (input w) k (suc n - k))
                  ∙ ap (λ x. buffer ++ take x (input w)) m),
        left
            ∙ ap (drop (suc n - k)) d
            ∙ drop-add (input w) k (suc n - k)
            ∙ ap (λ x. drop x (input w)) m,
      )

  recv_round :
      (fuel : ℕ) (w : W) (n : ℕ) (buffer : List ℕ)
      → n ≤ fuel
      → ((w1 : W) (m : ℕ) (bs : List ℕ) → m ≤ fuel → Filled w1 m bs (recv_loop recv fuel w1 m bs))
      → (r : Received) → (recv w (suc n)).0 ≡ r
      → Filled w (suc n) buffer (recv_loop recv (suc fuel) w (suc n) buffer)
  unfolding recv_loop
  recv_round fuel w n buffer h ih recv_error e =
      let (k, le, there, none_left, g, d) = law.part w n in absurd (cc (e, g))
  recv_round fuel w n buffer h ih (got []) e =
      let (k, le, there, none_left, g, d) = law.part w n in
      let nothing : take k (input w) ≡ [] = ap bytes_of (sym g ∙ e) in
      let k0 : k ≡ 0 = omega (arith, ap length nothing, length-take k (input w) there) in
      rw (e, recv_loop) (ended w n k buffer (none_left k0) d)
  recv_round fuel w n buffer h ih (got (b ∷ bs)) e =
      let (k, le, there, none_left, g, d) = law.part w n in
      let w1 = (recv w (suc n)).1 in
      let some_bytes : take k (input w) ≡ b ∷ bs = ap bytes_of (sym g ∙ e) in
      let count : k ≡ length (b ∷ bs) =
        sym (length-take k (input w) there) ∙ ap length some_bytes in
      let o = recv_loop recv fuel w1 (suc n - length (b ∷ bs)) (buffer ++ b ∷ bs) in
      let rest : Filled w1 (suc n - length (b ∷ bs)) (buffer ++ b ∷ bs) o =
        ih w1 (suc n - length (b ∷ bs)) (buffer ++ b ∷ bs) (omega arith) in
      rw (e, recv_loop)
        (brought w w1 n k buffer o le d (
          subst (λ j. Filled w1 (suc n - j) (buffer ++ take k (input w)) o) (sym count)
            (subst (λ x. Filled w1 (suc n - length (b ∷ bs)) (buffer ++ x) o) (sym some_bytes)
              rest)))

  recv_loop-Filled :
      (fuel : ℕ) (w : W) (n : ℕ) (buffer : List ℕ)
      → n ≤ fuel
      → Filled w n buffer (recv_loop recv fuel w n buffer)
  unfolding recv_loop Filled
  recv_loop-Filled fuel w zero buffer h =
      (w, ap (λ x. (filled x, w)) (sym (append-nil buffer)), refl)
  recv_loop-Filled zero w (suc n) buffer h = absurd (omega arith)
  recv_loop-Filled (suc fuel) w (suc n) buffer h =
      recv_round fuel w n buffer (omega arith) (λ w1 m bs le. recv_loop-Filled fuel w1 m bs le)
        (recv w (suc n)).0 refl

  -- With a `chisocket_recv` that brings the next bytes, one at least while more come, and does not fail: `chitcp_socket_recv` ends with the next `n` bytes in the buffer, or all there are before the end, and leaves the others.
  socket_recv_lem :
      (w : W) (n : ℕ)
      → (w' : W) × (socket_recv recv w n ≡ (filled (take n (input w)), w'))
        × (input w' ≡ drop n (input w))
  unfolding socket_recv Filled
  socket_recv_lem w n = recv_loop-Filled n w n [] (omega arith)
