-- ===== src/Client/Exchange.antt =====
-- `chitcpd_send_command` over the bytes of the connection: a request and the daemon's message after it.
use chitcp.Base.{ℕ, ◌^◌, ◌<◌, ◌≡◌, ◌∙◌, List, ◌++◌, some, length, ℤ}
use chitcp.Packets.{took}
use chitcp.Packets.Receiving.{Receives}
use chitcp.Messages.{received}
use chitcp.Messages.RoundTrip.{frame, recv_msg-frame, send_and_recv_msg-took}
use chitcp.Client.{Msg, Wire, send_command}

-- What the wire's `recv` is to do on one descriptor, with the bytes that have arrived there; and the
-- messages that packing keeps.
pub record IsWire {W : Type 0} (l : Wire W) (fd : ℤ) (input : W → List ℕ) : Type 0 where
  pub fresh : (n : ℕ) → length (l.garbage n) ≡ n
  pub law : Receives (l.recv fd) input

pub record Packs {W : Type 0} (l : Wire W) (msg : Msg) : Type 0 where
  pub back : l.unpack (l.pack msg) ≡ some msg
  pub some_bytes : 0 < length (l.pack msg)
  pub small : length (l.pack msg) < 2 ^ 31

-- When the host sends the whole request, whose packing has fewer than 2 ^ 31 bytes, after which the
-- daemon's message arrives with other bytes behind it, and that message unpacks to itself from a packing of
-- 1 to 2 ^ 31 - 1 bytes, `chitcpd_send_command` returns the daemon's message, and leaves exactly the bytes
-- behind it.
pub send_command_lem :
    {W : Type 0} (l : Wire W) (fd : ℤ) (input : W → List ℕ) (w : W) (request answer : Msg)
    (rest : List ℕ)
    → IsWire l fd input
    → Packs l answer
    → length (l.pack request) < 2 ^ 31
    → (l.send fd w (frame l.pack request)).0 ≡ took (length (frame l.pack request))
    → input (l.send fd w (frame l.pack request)).1 ≡ frame l.pack answer ++ rest
    → (w' : W) × (send_command l w fd request ≡ (received answer, w')) × (input w' ≡ rest)
unfolding send_command
send_command_lem l fd input w request answer rest wire p small all arrives =
    let w1 = (l.send fd w (frame l.pack request)).1 in
    let (w', r, left) =
      recv_msg-frame l.pack l.unpack l.garbage (l.recv fd) input wire.fresh wire.law w1 answer rest
        p.back p.some_bytes p.small arrives in
    (
      w',
      send_and_recv_msg-took l.pack l.unpack l.garbage (l.send fd) (l.recv fd) l.reset w request
            small all
          ∙ r,
      left,
    )
