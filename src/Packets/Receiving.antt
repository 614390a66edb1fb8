-- ===== src/Packets/Receiving.antt =====
-- What the thread of a connection makes of the packets that arrive.
use mathlib.Core.List.{append_assoc}
use chitcp.Base.{
  ℕ, zero, suc, ◌+◌, ◌%◌, ◌/◌, ◌^◌, ◌≤◌, ◌<◌, ◌≡◌, refl, sym, ap, ◌∙◌, List, ◌∷◌, ◌++◌, true, false,
  length, take, drop, get_or, set, copy_at, replicate, arith, subst, copy_at-append, take-copy_at,
  take-append, drop-append, drop-copy_at, length-replicate, length-copy_at, length-append, ltb,
  lt→ltb,
}
use chitcp.Segments.{put16, get16}
use chitcp.Addr.{Addr, ntohs}
use chitcp.Server.{Segment, Server}
use chitcp.Delivery.{Time, Response, recv_tcp_segment}
use chitcp.Packets.{
  full_packet, packet_header_size, Received, got, Receiver, buf_size, goes_on, overruns,
  is_stopping, is_zero, with_payload, with_header, with_bytes, round,
}

-- The header of a packet that carries `n` bytes.
abbrev pub header_of : ℕ → List ℕ
header_of n = ntohs (n % 2 ^ 16) % 256 ∷ ntohs (n % 2 ^ 16) / 256 % 256 ∷ 1 ∷ replicate 13 0

pub full_packet-append : (s : Segment) → full_packet s ≡ header_of (length s) ++ s
unfolding full_packet
full_packet-append s =
    let e : 16 + length s
        ≡ suc (
            suc (
              suc (
                suc (
                  suc (
                    suc
                      (suc (suc (suc (suc (suc (suc (suc (suc (suc (suc (length s)))))))))))))))) =
      omega arith in
    let blank : List ℕ = replicate (length s) 0 in
    subst
      (λ k.
        copy_at (set (put16 (replicate k 0) 0 (ntohs (length s % 2 ^ 16))) 2 1) 16 s
        ≡ header_of (length s) ++ s)
      (sym e)
      (copy_at-append (header_of (length s)) blank s (length-replicate {A = ℕ} (length s) 0))

pub length-full_packet : (s : Segment) → length (full_packet s) ≡ packet_header_size + length s
length-full_packet s = ap length (full_packet-append s) ∙ length-append (header_of (length s)) s

-- What the manual says of `recv` with `MSG_WAITALL` on a connection where so many bytes arrive.
pub record Receives {W : Type 0} (recv : W → ℕ → Received × W) (input : W → List ℕ) : Type 0 where
  pub arrived :
      (w : W) (n : ℕ)
      → n ≤ length (input w)
      → ((recv w n).0 ≡ got (take n (input w))) × (input (recv w n).1 ≡ drop n (input w))

-- Ready for the next packet: the bytes `rest` are still to come.
pub record IsReady {W : Type 0} (input : W → List ℕ) (rest : List ℕ) (rx : Receiver W)
    : Type 0 where
  pub header_size : length rx.header ≡ packet_header_size
  pub buffer_size : length rx.buf ≡ buf_size
  pub to_come : input rx.world ≡ rest

is_zero_pos : (n : ℕ) → 0 < n → is_zero n ≡ false
is_zero_pos zero h = elim h [ ]
is_zero_pos (suc n) h = refl

not_ltb : (a b : ℕ) → b ≤ a → ltb a b ≡ false
not_ltb a b h = ground arith

length-field : (n : ℕ) → n < 2 ^ 16 → ntohs (get16 (header_of n) 0) ≡ n
unfolding ntohs
length-field n h = omega arith

module _ {W : Type 0} (recv : W → ℕ → Received × W) (input : W → List ℕ) (law : Receives recv input)
    (now : Time) (resp : Response) (l r : Addr) (si : Server) where
  -- The header that stands in the packet, read back.
  with_header-eq :
      (rx : Receiver W) (n : ℕ)
      → n < 2 ^ 16
      → is_stopping si.state ≡ false
      → rx.header ≡ header_of n
      → with_header recv si now resp l r rx
        ≡ with_payload si now resp l r n
            (record rx { world = (recv rx.world n).1 })
            (recv rx.world n).0
  unfolding with_header
  with_header-eq rx n h live e =
      let len : ntohs (get16 rx.header 0) ≡ n = ap (λ x. ntohs (get16 x 0)) e ∙ length-field n h in
      let proto : get_or rx.header 2 0 ≡ 1 = ap (λ x. get_or x 2 0) e in rw (live, proto, len) refl

  -- The thread gets to the segment of a packet that arrives, with the bytes after it still to come.
  round-eq :
      (rx : Receiver W) (s : Segment) (rest : List ℕ)
      → length s < 2 ^ 16
      → is_stopping si.state ≡ false
      → length rx.header ≡ packet_header_size
      → input rx.world ≡ full_packet s ++ rest
      → (w : W) × (input w ≡ rest)
        × (round recv si now resp l r rx
            ≡ with_payload si now resp l r
                (length s)
                (record { header = header_of (length s); buf = rx.buf; world = w })
                (got s))
  unfolding round with_bytes
  round-eq rx s rest h live hh e =
      let all : input rx.world ≡ header_of (length s) ++ (s ++ rest) =
        e
        ∙ ap (λ x. x ++ rest) (full_packet-append s)
        ∙ append_assoc (header_of (length s)) s rest in
      let (g1, d1) = law.arrived rx.world packet_header_size (omega (arith, ap length all)) in
      let w1 = (recv rx.world packet_header_size).1 in
      let left : input w1 ≡ s ++ rest = d1 ∙ ap (drop packet_header_size) all in
      let first : (recv rx.world packet_header_size).0 ≡ got (header_of (length s)) =
        g1 ∙ ap (λ x. got (take packet_header_size x)) all in
      let head : copy_at rx.header 0 (header_of (length s)) ≡ header_of (length s) =
        drop-copy_at rx.header 0 (header_of (length s)) hh in
      let (g2, d2) =
        law.arrived w1 (length s) (omega (arith, ap length left, length-append s rest)) in
      (
        (recv w1 (length s)).1,
        d2 ∙ ap (drop (length s)) left ∙ drop-append s rest,
        ap (with_bytes recv si now resp l r (record rx { world = w1 })) first
            ∙ ap
                (λ x.
                  with_header recv si now resp l r
                    (record { header = x; buf = rx.buf; world = w1 }))
                head
            ∙ with_header-eq (record { header = header_of (length s); buf = rx.buf; world = w1 })
                (length s) h live refl
            ∙ ap
                (with_payload si now resp l r (length s) (record {
                  header = header_of (length s);
                  buf = rx.buf;
                  world = (recv w1 (length s)).1;
                }))
                (g2 ∙ ap (λ x. got (take (length s) x)) left ∙ ap got (take-append s rest)),
      )

  -- A packet that arrives whole at a daemon that is not stopping, with a segment of 1 to 1,000 bytes: the daemon receives just that segment, and the thread is ready for what comes after it.
  pub round_lem :
      (rx : Receiver W) (s : Segment) (rest : List ℕ)
      → 0 < length s
      → length s ≤ buf_size
      → is_stopping si.state ≡ false
      → IsReady input (full_packet s ++ rest) rx
      → (rx' : Receiver W) × IsReady input rest rx'
        × (round recv si now resp l r rx ≡ (goes_on, (recv_tcp_segment si now resp s l r).1, rx'))
  unfolding with_payload
  round_lem rx s rest pos fits live v =
      let (w, left, eq) = round-eq rx s rest (omega arith) live v.header_size v.to_come in
      let z : is_zero (length s) ≡ false = is_zero_pos (length s) pos in
      let b : ltb buf_size (length s) ≡ false = not_ltb buf_size (length s) fits in
      let rx' : Receiver W = record {
        header = header_of (length s);
        buf = copy_at rx.buf 0 s;
        world = w;
      } in
      let whole : take (length s) (copy_at rx.buf 0 s) ≡ s =
        take-copy_at rx.buf s (omega (arith, v.buffer_size)) in
      (
        rx',
        record {
          header_size = refl;
          buffer_size = length-copy_at rx.buf 0 s ∙ v.buffer_size;
          to_come = left;
        },
        eq ∙ rw (z, b) (ap (λ x. (goes_on, (recv_tcp_segment si now resp x l r).1, rx')) whole),
      )

  -- With a longer segment, of fewer than 2 ^ 16 bytes, the thread runs past the end of its buffer.
  pub round-overruns :
      (rx : Receiver W) (s : Segment) (rest : List ℕ)
      → buf_size < length s
      → length s < 2 ^ 16
      → is_stopping si.state ≡ false
      → IsReady input (full_packet s ++ rest) rx
      → (round recv si now resp l r rx).0 ≡ overruns
  unfolding with_payload
  round-overruns rx s rest big h live v =
      let (w, left, eq) = round-eq rx s rest h live v.header_size v.to_come in
      let z : is_zero (length s) ≡ false = is_zero_pos (length s) (omega arith) in
      let b : ltb buf_size (length s) ≡ true = lt→ltb buf_size (length s) big in
      ap (λ x. x.0) eq ∙ rw (z, b) refl
