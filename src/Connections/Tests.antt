-- ===== src/Connections/Tests.antt =====
-- The connection table at concrete inputs.
use chitcp.Base.{◌≡◌, refl, [], ◌∷◌, some, arith, true}
use chitcp.Addr.{cleared}
use chitcp.Addr.Laws.{IsAddr}
use chitcp.Server.{Server}
use chitcp.Sockets.Tests.{server, peer_addr}
use chitcp.Connections.{add_connection}

abbrev table : Server
table = record server { connections = record { available = true; peer_addr = cleared } ∷ [] }

peer_addr-IsAddr : IsAddr peer_addr
peer_addr-IsAddr = ground arith

adds : (add_connection table 23300 peer_addr).0 ≡ some 0
unfolding add_connection
adds = refl
