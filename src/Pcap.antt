-- ===== src/Pcap.antt =====
-- The log of segments in a libpcap file: chitcpd_pcap_packet of chitcpd/connection.c, and the file's header
-- of chitcpd_server_init in chitcpd/server.c. Bytes stand as a little-endian host writes them.
pub mod Laws
mod Tests
use chitcp.Base.{ℕ, ◌+◌, ◌/◌, ◌%◌, ◌^◌, List, [], ◌∷◌, ◌++◌, length}
use chitcp.Addr.{ntohs}
use chitcp.Server.{Segment}
use chitcp.Utils.{cksum}

abbrev pub bytes16 : ℕ → List ℕ
bytes16 n = n % 256 ∷ n / 256 % 256 ∷ []

abbrev pub bytes32 : ℕ → List ℕ
bytes32 n = n % 256 ∷ n / 2 ^ 8 % 256 ∷ n / 2 ^ 16 % 256 ∷ n / 2 ^ 24 % 256 ∷ []

unfoldable pub file_header : List ℕ
file_header =
    bytes32 0xa1b23c4d
    ++ (bytes16 2 ++ (bytes16 4 ++ (bytes32 0 ++ (bytes32 0 ++ (bytes32 65535 ++ bytes32 101)))))

-- `pcaprec_hdr_t`, with the seconds, the nanoseconds and both lengths, which are the same
unfoldable pub record_header : ℕ → ℕ → ℕ → List ℕ
record_header sec nsec len = bytes32 sec ++ (bytes32 nsec ++ (bytes32 len ++ bytes32 len))

-- `iphdr_t`, with the source, the destination, the length of the segment, and what stands for the checksum
unfoldable pub header_with : ℕ → ℕ → ℕ → ℕ → List ℕ
header_with src dst len c =
    0x45 ∷ 0 ∷ bytes16 (ntohs ((20 + len) % 2 ^ 16))
    ++ (0 ∷ 0 ∷ 0 ∷ 0 ∷ 233 ∷ 6 ∷ bytes16 c ++ (bytes32 src ++ bytes32 dst))

unfoldable pub ip_header : ℕ → ℕ → ℕ → List ℕ
unfolding header_with
ip_header src dst len = header_with src dst len (cksum (header_with src dst len 0))

-- `chitcpd_pcap_packet` at a time, with the IPv4 addresses of both ends: what it writes
unfoldable pub pcap_packet : ℕ → ℕ → ℕ → ℕ → Segment → List ℕ
unfolding record_header ip_header
pcap_packet sec nsec local peer s =
    record_header sec nsec (20 + length s) ++ (ip_header peer local (length s) ++ s)
