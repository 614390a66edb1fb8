-- ===== src/Client/Tests.antt =====
-- The client's library against the daemon, at concrete inputs.
use chitcp.Base.{
  ℕ, ◌≤◌, ◌≡◌, refl, inl, true, [], ◌∷◌, Option, none, some, arith, pos, length, take, drop,
  replicate, length-replicate, ◌++◌, List, sym, ap,
}
use chitcp.Server.{Server}
use chitcp.Messages.{Receiving, received}
use chitcp.Handlers.{usable, failed, done, gave, ebadf}
use chitcp.Handlers.Transfer
use chitcp.Handlers.Transfer.{notify_recv, with_recv}
use chitcp.Handlers.Transfer.Laws.{recv-takes}
use chitcp.Sockets.{put_entry}
use chitcp.Buffer.{Buffer}
use chitcp.Buffer.Valid.{contents}
use chitcp.Buffer.Read.{fewer}
use chitcp.Handlers.Tests.{daemon, connected, send_buffer-IsValid, usable-connected, send_buffer}
use chitcp.Client.{
  Wire, send_command, Resp, Msg, Host, Thread, returns, conclude, call, chisocket_recv,
  chisocket_accept, chisocket_socket,
}
use chitcp.Client.Exchange.{send_command_lem}
use chitcp.Packets.{took, got}
use chitcp.Messages.RoundTrip.{frame}
use chitcp.Client.Laws.{calls, commands, calls-keep, recv_bounds}
use chitcp.Client.Daemon.{plain, respond, Returned, conclude_agrees, recv_agrees}

abbrev reply : Server → Option (Resp × Server) → Receiving Msg × Server
reply si none = (Receiving.failed, si)
reply si (some (r, si')) = (received (Msg.resp r), si')

-- The daemon's table is the world, and messages reach the handlers.
abbrev handled : Server → Msg → Receiving Msg × Server
handled si msg = elim msg [
  | Msg.send fd bytes flags ↦ reply si (respond (Transfer.send si fd bytes))
  | Msg.recv fd (pos len) flags ↦ reply si (respond (Transfer.recv si fd len))
  | _ ↦ reply si (respond (done 0 si))
]

abbrev host : Host Server
host = record {
  new_socket = λ si. (some 5, si);
  connect_to = λ si fd. (true, si);
  command = λ si fd msg. handled si msg;
}

-- A daemon that answers by an address of three bytes.
abbrev long_host : Host Server
long_host = record host {
  command = λ si fd msg.
      (received (Msg.resp (record (plain (pos 3) (pos 0)) { addr = some (1 ∷ 2 ∷ 3 ∷ []) })), si);
}

abbrev new_thread : Thread Server
new_thread = record { daemon_socket = none; errno = pos 0; host = daemon }

abbrev thread : Thread Server
thread = record { daemon_socket = some 5; errno = pos 0; host = daemon }

recv_bounds_example :
    let (r, bs) = (chisocket_recv host thread (pos 1) 2 (pos 0)).0 in
    (length bs ≤ 2) × ((n : ℕ) → r ≡ returns (pos n) → length bs ≡ n)
recv_bounds_example = recv_bounds host thread (pos 1) 2 (pos 0)

calls-keep_example :
    let ms = Msg.send (pos 1) (7 ∷ []) (pos 0) ∷ Msg.recv (pos 1) (pos 2) (pos 0) ∷ [] in
    ((calls host thread ms).daemon_socket ≡ some 5)
    × ((calls host thread ms).host ≡ commands host daemon (pos 5) ms)
calls-keep_example =
    calls-keep host thread 5
      (Msg.send (pos 1) (7 ∷ []) (pos 0) ∷ Msg.recv (pos 1) (pos 2) (pos 0) ∷ []) refl

conclude_agrees_example :
    Returned thread daemon
      (failed ebadf daemon)
      (conclude (call host thread (Msg.send (pos 9) (7 ∷ []) (pos 0))))
unfolding respond Transfer.send usable
conclude_agrees_example =
    conclude_agrees host thread 5 (Msg.send (pos 9) (7 ∷ []) (pos 0)) (failed ebadf daemon) _ daemon
      daemon refl (refl, refl)

recv_agrees_example :
    (b : Buffer) × (chisocket_recv host thread (pos 1) 2 (pos 0) ≡ (
      (returns (pos (fewer 2 3)), take 2 (contents send_buffer)),
      record thread { host = put_entry daemon 1 (notify_recv (with_recv b connected)) },
    ))
unfolding respond
recv_agrees_example =
    let (b, q, used) =
      recv-takes daemon (pos 1) 2 1 connected usable-connected (cc, cc, cc, cc, cc)
        send_buffer-IsValid (omega arith) (omega arith) in
    let si = put_entry daemon 1 (notify_recv (with_recv b connected)) in
    let o = gave (fewer 2 3) (take 2 (contents send_buffer)) si in
    (
      b,
      recv_agrees host thread 5 daemon si (pos 1) 2 (pos 0) 1 connected o _ si (omega arith)
          send_buffer-IsValid (inl (usable-connected, sym q)) refl
          (refl, ap (λ x. reply daemon (respond x)) q),
    )

-- A thread that has no connection yet opens one.
connects : (chisocket_socket host new_thread (pos 2) (pos 1) (pos 0)).1.daemon_socket ≡ some 5
unfolding chisocket_socket respond
connects = refl

-- An address that does not fit is cut off, and its whole length is told.
cuts :
    (chisocket_accept long_host thread (pos 0) 2).0
    ≡ record { result = returns (pos 3); addr = 1 ∷ 2 ∷ []; addrlen = 3 }
unfolding chisocket_accept
cuts = refl

-- A connection on which the daemon answers whatever it gets by success.
abbrev success : Msg
success = Msg.resp (plain (pos 0) (pos 0))

abbrev wire : Wire (List ℕ)
wire = record {
  pack = λ msg. 7 ∷ [];
  unpack = λ bs. some success;
  garbage = λ n. replicate n 0;
  send = λ fd w bs. (took (length bs), frame (λ (msg : Msg). 7 ∷ []) success ++ 9 ∷ []);
  recv = λ fd w n. (got (take n w), drop n w);
  reset = true;
}

send_command_lem_example :
    (w : List ℕ) × (send_command wire [] (pos 5) (Msg.close (pos 1)) ≡ (received success, w))
    × (w ≡ 9 ∷ [])
send_command_lem_example =
    send_command_lem wire (pos 5) (λ w. w) [] (Msg.close (pos 1)) success (9 ∷ [])
      (record {
        fresh = λ n. length-replicate n 0;
        law = record { arrived = λ w n h. (refl, refl) };
      })
      (record { back = refl; some_bytes = omega arith; small = omega arith }) (omega arith) refl
      refl
