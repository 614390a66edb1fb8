-- ===== src/Segments/Tests.antt =====
-- Segments at concrete inputs.
use chitcp.Base.{ℕ, ◌≡◌, refl, List, [], ◌∷◌, arith}
use chitcp.Addr.{get_addr_port}
use chitcp.Sockets.Tests.{accepted, local_addr, peer_addr}
use chitcp.Addr.Laws.{IsAddr}
use chitcp.Segments.{ntohl, segment_create}

pub local_addr-IsAddr : IsAddr local_addr
local_addr-IsAddr = ground arith

pub peer_addr-IsAddr : IsAddr peer_addr
peer_addr-IsAddr = ground arith

abbrev pub text : List ℕ
text = 104 ∷ 105 ∷ 33 ∷ []

created :
    segment_create accepted text 2
    ≡ 0 ∷ 4 ∷ 0 ∷ 8 ∷ 0 ∷ 0 ∷ 0 ∷ 0 ∷ 0 ∷ 0 ∷ 0 ∷ 0 ∷ 80 ∷ 0 ∷ 0 ∷ 0 ∷ 0 ∷ 0 ∷ 0 ∷ 0 ∷ 104 ∷ 105
      ∷ []
unfolding segment_create get_addr_port
created = refl

swapped : ntohl 0x01020304 ≡ 0x04030201
unfolding ntohl
swapped = refl
