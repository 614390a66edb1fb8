-- ===== src/Pcap/Laws.antt =====
-- A reader of the file gets the segments back.
use mathlib.Core.List.{append_assoc}
use chitcp.Base.{
  ℕ, ◌+◌, ◌*◌, ◌/◌, ◌%◌, ◌^◌, ◌<◌, ◌≡◌, refl, sym, ap, ◌∙◌, List, ◌∷◌, ◌++◌, Option, none, some,
  length, take, drop, arith, length-append, take-append, drop-append,
}
use chitcp.Addr.{ntohs}
use chitcp.Server.{Segment}
use chitcp.Utils.{cksum}
use chitcp.Utils.Checksum.{total, Bytes, cksum_lem}
use chitcp.Pcap.{record_header, header_with, ip_header, pcap_packet}

-- A record of a libpcap file: its time and its bytes.
pub record Captured : Type 0 where
  pub sec : ℕ
  pub nsec : ℕ
  pub bytes : List ℕ

abbrev number : ℕ → ℕ → ℕ → ℕ → ℕ
number a b c d = a + 2 ^ 8 * b + 2 ^ 16 * c + 2 ^ 24 * d

-- The first record, and the rest of the file.
unfoldable pub read_record : List ℕ → Option (Captured × List ℕ)
read_record (s0 ∷ s1 ∷ s2 ∷ s3 ∷ n0 ∷ n1 ∷ n2 ∷ n3 ∷ l0 ∷ l1 ∷ l2 ∷ l3 ∷ _ ∷ _ ∷ _ ∷ _ ∷ rest) =
    let len = number l0 l1 l2 l3 in
    some (
      record { sec = number s0 s1 s2 s3; nsec = number n0 n1 n2 n3; bytes = take len rest },
      drop len rest,
    )
read_record bs = none

number-bytes32 :
    (n : ℕ)
    → n < 2 ^ 32
    → number (n % 256) (n / 2 ^ 8 % 256) (n / 2 ^ 16 % 256) (n / 2 ^ 24 % 256) ≡ n
number-bytes32 n h = omega arith

length-ip_header : (src dst len : ℕ) → length (ip_header src dst len) ≡ 20
unfolding ip_header header_with
length-ip_header src dst len = refl

header_with-Bytes : (src dst len : ℕ) → Bytes (header_with src dst len 0)
unfolding header_with
header_with-Bytes src dst len = omega arith

total-header_with :
    (src dst len c : ℕ)
    → c < 2 ^ 16
    → total (header_with src dst len c) ≡ total (header_with src dst len 0) + ntohs c
unfolding header_with ntohs
total-header_with src dst len c h = omega arith

-- An IP stack accepts the header: its words, the checksum with them, add up to a multiple of 65535.
ip_header_sum : (src dst len : ℕ) → total (ip_header src dst len) % 65535 ≡ 0
unfolding ip_header
ip_header_sum src dst len =
    let h0 = header_with src dst len 0 in
    let (_, small, sum) = cksum_lem h0 (header_with-Bytes src dst len) (omega arith) in
    ap (λ n. n % 65535) (total-header_with src dst len (cksum h0) small) ∙ sum

body-length :
    (src dst : ℕ) (s : Segment) → length (ip_header src dst (length s) ++ s) ≡ 20 + length s
body-length src dst s =
    length-append (ip_header src dst (length s)) s
    ∙ ap (λ k. k + length s) (length-ip_header src dst (length s))

-- What is read of a record's header and the bytes behind it.
read-body :
    (sec nsec n : ℕ) (body rest : List ℕ)
    → sec < 2 ^ 32
    → nsec < 2 ^ 32
    → n < 2 ^ 32
    → length body ≡ n
    → read_record (record_header sec nsec n ++ (body ++ rest))
      ≡ some (record { sec = sec; nsec = nsec; bytes = body }, rest)
unfolding read_record record_header
read-body sec nsec n body rest hs hn h e =
    rw
      (
        number-bytes32 sec hs,
        number-bytes32 nsec hn,
        number-bytes32 n h,
        sym e,
        take-append body rest,
        drop-append body rest,
      )
      refl

-- A segment of fewer than 2 ^ 16 bytes, logged at a time whose seconds and nanoseconds have 32 bits: a
-- reader of the file gets the time and the IP packet, its header and the segment, and goes on behind it; and
-- the words of the IP header add up to a multiple of 65535, as the receiver of a packet checks.
pub read-pcap_packet :
    (sec nsec local peer : ℕ) (s : Segment) (rest : List ℕ)
    → sec < 2 ^ 32
    → nsec < 2 ^ 32
    → length s < 2 ^ 16
    → (read_record (pcap_packet sec nsec local peer s ++ rest)
        ≡ some
            (record { sec = sec; nsec = nsec; bytes = ip_header peer local (length s) ++ s }, rest))
      × (total (ip_header peer local (length s)) % 65535 ≡ 0)
unfolding pcap_packet
read-pcap_packet sec nsec local peer s rest hs hn h =
    let body = ip_header peer local (length s) ++ s in
    let n = 20 + length s in
    (
      ap read_record (append_assoc (record_header sec nsec n) body rest)
          ∙ read-body sec nsec n body rest hs hn (omega arith) (body-length peer local s),
      ip_header_sum peer local (length s),
    )
