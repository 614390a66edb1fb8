-- ===== src/Segments.antt =====
-- libchitcp/segment.c, include/chitcp/segment.h and the segments that chitcpd/serverinfo.c makes. A
-- segment is its bytes; the fields of a header stand in it as a little-endian host stores them.
pub mod Laws
mod Tests
use chitcp.Base.{
  ℕ, ◌+◌, ◌-◌, ◌*◌, ◌/◌, ◌%◌, ◌^◌, List, [], ◌∷◌, ◌++◌, ltb, if◌then◌else◌, length, get_or, set,
  take, drop, replicate, copy_at,
}
use chitcp.Addr.{get_addr_port, ntohs}
use chitcp.Server.{Segment, Entry}

-- The fields of 16 and of 32 bits at a place.
abbrev pub get16 : List ℕ → ℕ → ℕ
get16 s i = get_or s i 0 + 256 * get_or s (i + 1) 0

abbrev pub get32 : List ℕ → ℕ → ℕ
get32 s i = get16 s i + 2 ^ 16 * get16 s (i + 2)

abbrev pub put16 : List ℕ → ℕ → ℕ → List ℕ
put16 s i v = set (set s i (v % 256)) (i + 1) (v / 256 % 256)

-- `ntohl` and `htonl` on a little-endian host.
unfoldable pub ntohl : ℕ → ℕ
ntohl x =
    2 ^ 24 * (x % 256) + 2 ^ 16 * (x / 2 ^ 8 % 256) + 2 ^ 8 * (x / 2 ^ 16 % 256) + x / 2 ^ 24 % 256

-- `sizeof(tcphdr_t)`
abbrev pub header_size : ℕ
header_size = 20

-- `doff` is the high half of byte 12, in words of 4 bytes.
abbrev pub set_doff : List ℕ → ℕ → List ℕ
set_doff s d = set s 12 (get_or s 12 0 % 16 + 16 * (d % 16))

unfoldable pub doff : Segment → ℕ
doff s = get_or s 12 0 / 16 % 16

-- `chitcp_tcp_segment_init`, of the first `len` bytes at `payload`
unfoldable pub segment_init : List ℕ → ℕ → Segment
segment_init payload len =
    let raw = set_doff (replicate (header_size + len) 0) (header_size / 4) in
    if ltb 0 len then copy_at raw header_size (take len payload) else raw

-- `TCP_PAYLOAD_START` to the end of the segment, and `TCP_PAYLOAD_LEN`, a `size_t`
unfoldable pub payload : Segment → List ℕ
unfolding doff
payload s = drop (4 * doff s) s

unfoldable pub payload_len : Segment → ℕ
unfolding doff
payload_len s = (length s + 2 ^ 64 - 4 * doff s) % 2 ^ 64

-- `SEG_SEQ`, `SEG_ACK`, `SEG_WND`, `SEG_UP` and `SEG_LEN`
unfoldable pub seg_seq : Segment → ℕ
unfolding ntohl
seg_seq s = ntohl (get32 s 4)

unfoldable pub seg_ack : Segment → ℕ
unfolding ntohl
seg_ack s = ntohl (get32 s 8)

unfoldable pub seg_wnd : Segment → ℕ
seg_wnd s = ntohs (get16 s 14)

unfoldable pub seg_up : Segment → ℕ
seg_up s = ntohs (get16 s 18)

abbrev pub fin_bit : Segment → ℕ
fin_bit s = get_or s 13 0 % 2

abbrev pub syn_bit : Segment → ℕ
syn_bit s = get_or s 13 0 / 2 % 2

unfoldable pub seg_len : Segment → ℕ
unfolding payload_len
seg_len s = (syn_bit s + fin_bit s + payload_len s) % 2 ^ 64

-- `chitcpd_set_header_ports`
unfoldable pub set_header_ports : Entry → Segment → Segment
set_header_ports e s =
    put16 (put16 s 0 (get_addr_port e.local_addr)) 2 (get_addr_port e.remote_addr)

-- `chitcpd_tcp_segment_create`
unfoldable pub segment_create : Entry → List ℕ → ℕ → Segment
unfolding set_header_ports segment_init
segment_create e bytes len = set_header_ports e (segment_init bytes len)

-- The lists of segments; `destroy` leaves the empty one.
abbrev pub list_prepend : List Segment → Segment → List Segment
list_prepend ss s = s ∷ ss

abbrev pub list_append : List Segment → Segment → List Segment
list_append ss s = ss ++ s ∷ []

abbrev pub list_pop_head : List Segment → List Segment
list_pop_head [] = []
list_pop_head (s ∷ ss) = ss

abbrev pub list_size : List Segment → ℕ
list_size = length
