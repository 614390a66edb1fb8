-- ===== src/Packets/Sending.antt =====
-- What a daemon puts on the connection for a segment.
use chitcp.Base.{
  ℕ, zero, suc, ◌+◌, ◌-◌, ◌%◌, ◌^◌, ◌⊎◌, inl, inr, true, ltb, ◌==◌, drop-add, take_all, ◌≤◌, ◌<◌,
  ◌≡◌, ◌≢◌, refl, sym, ap, ◌∙◌, List, [], ◌∷◌, ◌++◌, length, take, drop, arith, subst,
  take-append-drop, take-add, length-drop,
}
use mathlib.Core.List.{append_assoc, append-nil}
use chitcp.Server.{Segment}
use chitcp.Delivery.{Response, none_resp, stop, accept_monitor, duplicate, withhold, draw_withheld}
use chitcp.Packets.Receiving.{length-full_packet}
use chitcp.Packets.{
  full_packet, Sent, took, send_error, SendOutcome, returned, gave_up, out_of_fuel, aborted,
  send_loop, left_of, packet_header_size, conclude, send_all, send_tcp_segment,
}

-- What the manual says of `send`, in terms of the bytes sent so far: it sends the first of the bytes it
-- is given, as many as it says, or none.
pub record Sends {W : Type 0} (send : W → List ℕ → Sent × W) (stream : W → List ℕ) : Type 0 where
  pub some_sent :
      (w : W) (bs : List ℕ) (n : ℕ) (w' : W)
      → send w bs ≡ (took n, w')
      → (n ≤ length bs) × (stream w' ≡ stream w ++ take n bs)
  pub none_sent :
      (w : W) (bs : List ℕ) (w' : W) → send w bs ≡ (send_error, w') → stream w' ≡ stream w

-- In the world `w'`, a `send` of the bytes `bs` has just failed or taken nothing.
abbrev pub Refused : {W : Type 0} → (W → List ℕ → Sent × W) → List ℕ → W → Type 0
Refused {W} send bs w' = (v : W) × ((send v bs ≡ (send_error, w')) ⊎ (send v bs ≡ (took 0, w')))

-- The bytes `bs` have gone out, with the count `n`; or the first of them, and a `send` of the rest has
-- failed or taken nothing.
pub Goes :
    {W : Type 0}
    → (W → List ℕ → Sent × W)
    → (W → List ℕ)
    → W
    → List ℕ
    → ℕ
    → SendOutcome × W
    → Type 0
Goes send stream w bs n (returned k, w') = (k ≡ n) × (stream w' ≡ stream w ++ bs)
Goes send stream w bs n (gave_up, w') =
    (k : ℕ) × (k < length bs) × (stream w' ≡ stream w ++ take k bs) × Refused send (drop k bs) w'
Goes send stream w bs n (aborted, w') = ⊥
Goes send stream w bs n (out_of_fuel, w') = ⊥

-- What `chitcpd_send_tcp_segment` leaves on the connection.
pub IsSent :
    {W : Type 0}
    → (W → List ℕ → Sent × W)
    → (W → List ℕ)
    → Response
    → W
    → Segment
    → SendOutcome × W
    → Type 0
unfolding Goes
IsSent send stream Response.drop w s o = o ≡ (returned (length s), w)
IsSent send stream none_resp w s o = Goes send stream w (full_packet s) (length s) o
IsSent send stream stop w s o = Goes send stream w (full_packet s) (length s) o
IsSent send stream accept_monitor w s o = Goes send stream w (full_packet s) (length s) o
IsSent send stream duplicate w s o = Goes send stream w (full_packet s) (length s) o
IsSent send stream withhold w s o = Goes send stream w (full_packet s) (length s) o
IsSent send stream draw_withheld w s o = Goes send stream w (full_packet s) (length s) o

module _ {W : Type 0} (send : W → List ℕ → Sent × W) (stream : W → List ℕ)
    (law : Sends send stream) where
  -- What has gone out before, and then the rest.
  Goes-add :
      (w w' : W) (bs : List ℕ) (m n : ℕ) (o : SendOutcome × W)
      → m ≤ length bs
      → 0 < m
      → stream w' ≡ stream w ++ take m bs
      → Goes send stream w' (drop m bs) n o
      → Goes send stream w bs n o
  unfolding Goes
  Goes-add w w' bs m n (returned k, v) hm pos e g = (g.0, joined)
    where
      joined : stream v ≡ stream w ++ bs
      joined =
          g.1
          ∙ ap (λ x. x ++ drop m bs) e
          ∙ append_assoc (stream w) (take m bs) (drop m bs)
          ∙ ap (λ x. stream w ++ x) (take-append-drop m bs)
  Goes-add w w' bs m n (gave_up, v) hm pos e g = (
    m + g.0,
    omega (arith, g.1, length-drop m bs),
    g.2
        ∙ ap (λ x. x ++ take g.0 (drop m bs)) e
        ∙ append_assoc (stream w) (take m bs) (take g.0 (drop m bs))
        ∙ ap (λ x. stream w ++ x) (take-add bs m g.0),
    subst (λ x. Refused send x v) (drop-add bs m g.0) g.3,
  )
  Goes-add w w' bs m n (aborted, v) hm pos e g = g
  Goes-add w w' bs m n (out_of_fuel, v) hm pos e g = g

  -- One round, when the rounds after it do as they should.
  round-Goes :
      (fuel : ℕ) (w : W) (b : ℕ) (bs : List ℕ) (written : ℕ)
      → ((n : ℕ) (w' : W)
          → Goes send stream w'
              (drop n bs)
              (written + suc n + length (drop n bs))
              (send_loop send fuel w' (drop n bs) (written + suc n)))
      → (r : Sent) → (send w (b ∷ bs)).0 ≡ r
      → Goes send stream w
          (b ∷ bs)
          (written + suc (length bs))
          (send_loop send (suc fuel) w (b ∷ bs) written)
  unfolding Goes send_loop
  round-Goes fuel w b bs written ih send_error e =
      rw (e, send_loop)
        (
          0,
          omega arith,
          law.none_sent w _ _ (ap (λ x. (x, (send w (b ∷ bs)).1)) e) ∙ sym (append-nil (stream w)),
          (w, inl (ap (λ x. (x, (send w (b ∷ bs)).1)) e)),
        )
  round-Goes fuel w b bs written ih (took zero) e =
      rw (e, send_loop)
        (
          0,
          omega arith,
          (law.some_sent w (b ∷ bs) 0 _ (ap (λ x. (x, (send w (b ∷ bs)).1)) e)).1,
          (w, inr (ap (λ x. (x, (send w (b ∷ bs)).1)) e)),
        )
  round-Goes fuel w b bs written ih (took (suc n)) e =
      let w' = (send w (b ∷ bs)).1 in
      let (le, st) = law.some_sent w (b ∷ bs) (suc n) w' (ap (λ x. (x, w')) e) in
      let count : written + suc n + length (drop n bs) ≡ written + suc (length bs) =
        omega (arith, length-drop n bs) in
      let rest = ih n w' in
      rw (e, send_loop)
        (Goes-add w w' (b ∷ bs) (suc n) _ _ le (omega arith) st (
          subst
            (λ c.
              Goes send stream w' (drop n bs) c
                (send_loop send fuel w' (drop n bs) (written + suc n)))
            count rest))

  pub send_loop-Goes :
      (fuel : ℕ) (w : W) (bs : List ℕ) (written : ℕ)
      → length bs ≤ fuel
      → Goes send stream w bs (written + length bs) (send_loop send fuel w bs written)
  unfolding Goes send_loop
  send_loop-Goes fuel w [] written h = (omega arith, sym (append-nil (stream w)))
  send_loop-Goes zero w (b ∷ bs) written h = absurd (omega arith)
  send_loop-Goes (suc fuel) w (b ∷ bs) written h =
      round-Goes fuel w b bs written
        (λ n w'.
          send_loop-Goes fuel w' (drop n bs) (written + suc n) (omega (arith, length-drop n bs)))
        (send w (b ∷ bs)).0 refl

  conclude-Goes :
      (w : W) (s : Segment) (o : SendOutcome × W)
      → Goes send stream w (full_packet s) (packet_header_size + length s) o
      → Goes send stream w (full_packet s) (length s) (conclude s o)
  unfolding Goes conclude
  conclude-Goes w s (returned k, v) g =
      let whole : (k == packet_header_size + length s) ≡ true = ground (arith, g.0) in
      rw (whole, conclude) (refl, g.1)
  conclude-Goes w s (gave_up, v) g = g
  conclude-Goes w s (aborted, v) g = absurd g
  conclude-Goes w s (out_of_fuel, v) g = absurd g

  send_all-Goes :
      (w : W) (s : Segment)
      → length s < 2 ^ 31 - packet_header_size
      → Goes send stream w (full_packet s) (length s) (send_all send w s)
  unfolding send_all left_of
  send_all-Goes w s small =
      let packet = full_packet s in
      let count : length packet ≡ packet_header_size + length s = length-full_packet s in
      let wrapped : length packet % 2 ^ 32 ≡ length packet = omega (arith, count) in
      let fits : ltb (length packet) (2 ^ 31) ≡ true = ground (arith, count) in
      let kept : left_of (length packet) ≡ length packet = rw (wrapped, left_of, fits) refl in
      let all : take (left_of (length packet)) packet ≡ packet =
        ap (λ k. take k packet) kept ∙ take_all (length packet) packet (omega arith) in
      conclude-Goes w s (send_loop send (length packet) w (take (left_of (length packet)) packet) 0)
        (subst
          (λ bs.
            Goes send stream w packet (packet_header_size + length s)
              (send_loop send (length packet) w bs 0))
          (sym all)
          (subst (λ k. Goes send stream w packet k (send_loop send (length packet) w packet 0))
            (omega (arith, count)) (send_loop-Goes (length packet) w packet 0 (omega arith))))

  -- For a segment of fewer than 2 ^ 31 - 16 bytes, whatever share of the bytes each `send` takes, the loop
  -- ends. With a monitor's answer that drops the segment nothing goes out; else the whole packet goes out
  -- and the result is the segment's length, or a proper part of it has gone out and the last thing that
  -- happened is that a `send` of the rest failed or took nothing.
  pub send_tcp_segment-IsSent :
      (r : Response) (w : W) (s : Segment)
      → length s < 2 ^ 31 - packet_header_size
      → IsSent send stream r w s (send_tcp_segment send r w s)
  unfolding IsSent send_tcp_segment
  send_tcp_segment-IsSent Response.drop w s small = refl
  send_tcp_segment-IsSent none_resp w s small = send_all-Goes w s small
  send_tcp_segment-IsSent stop w s small = send_all-Goes w s small
  send_tcp_segment-IsSent accept_monitor w s small = send_all-Goes w s small
  send_tcp_segment-IsSent duplicate w s small = send_all-Goes w s small
  send_tcp_segment-IsSent withhold w s small = send_all-Goes w s small
  send_tcp_segment-IsSent draw_withheld w s small = send_all-Goes w s small

  -- A count that is returned for a segment that is not dropped.
  pub send_tcp_segment-returned :
      (r : Response) (w w' : W) (s : Segment) (n : ℕ)
      → length s < 2 ^ 31 - packet_header_size
      → r ≢ Response.drop
      → send_tcp_segment send r w s ≡ (returned n, w')
      → (n ≡ length s) × (stream w' ≡ stream w ++ full_packet s)
  unfolding IsSent Goes
  send_tcp_segment-returned Response.drop w w' s n small kept e = absurd (kept refl)
  send_tcp_segment-returned none_resp w w' s n small kept e =
      subst (Goes send stream w (full_packet s) (length s)) e
        (send_tcp_segment-IsSent none_resp w s small)
  send_tcp_segment-returned stop w w' s n small kept e =
      subst (Goes send stream w (full_packet s) (length s)) e
        (send_tcp_segment-IsSent stop w s small)
  send_tcp_segment-returned accept_monitor w w' s n small kept e =
      subst (Goes send stream w (full_packet s) (length s)) e
        (send_tcp_segment-IsSent accept_monitor w s small)
  send_tcp_segment-returned duplicate w w' s n small kept e =
      subst (Goes send stream w (full_packet s) (length s)) e
        (send_tcp_segment-IsSent duplicate w s small)
  send_tcp_segment-returned withhold w w' s n small kept e =
      subst (Goes send stream w (full_packet s) (length s)) e
        (send_tcp_segment-IsSent withhold w s small)
  send_tcp_segment-returned draw_withheld w w' s n small kept e =
      subst (Goes send stream w (full_packet s) (length s)) e
        (send_tcp_segment-IsSent draw_withheld w s small)
