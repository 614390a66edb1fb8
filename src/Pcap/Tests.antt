-- ===== src/Pcap/Tests.antt =====
-- A segment of two bytes in the log.
use chitcp.Base.{◌%◌, ◌≡◌, refl, [], ◌∷◌, ◌++◌, some, length, arith}
use chitcp.Utils.Checksum.{total}
use chitcp.Pcap.{ip_header, pcap_packet, file_header}
use chitcp.Pcap.Laws.{read_record, read-pcap_packet}

read-pcap_packet_example :
    (read_record (pcap_packet 7 9 1 2 (3 ∷ 4 ∷ []) ++ 5 ∷ [])
      ≡ some (record { sec = 7; nsec = 9; bytes = ip_header 2 1 2 ++ 3 ∷ 4 ∷ [] }, 5 ∷ []))
    × (total (ip_header 2 1 2) % 65535 ≡ 0)
read-pcap_packet_example =
    read-pcap_packet 7 9 1 2 (3 ∷ 4 ∷ []) (5 ∷ []) (omega arith) (omega arith) (omega arith)

header_length : length file_header ≡ 24
unfolding file_header
header_length = refl
