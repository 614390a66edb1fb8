-- ===== src/Tester/Closing.antt =====
-- libchitcp/tester_peer.c: which messages a peer sends the daemon to close its sockets.
use chitcp.Base.{
  ◌≡◌, refl, subst, ap, Bool, true, false, List, [], ◌∷◌, none, if◌then◌else◌, ℤ, negsuc,
}
use chitcp.Client.{
  Msg, Host, Thread, Told, said, unsaid, aborted, call, conclude, chisocket_close, is_0, returns,
}
use chitcp.Client.Laws.{calls}
use chitcp.Tester.{
  TestEvent, PeerState, Peer, Setting, Ran, goes, exits, is_failure, once_closed, close_passive,
  peer_close, update_state, reaches, closing_state, closed_state, on_event, cleared, turn,
}

-- The peer is `x`, or the program has ended.
abbrev Gone : {W : Type 0} → Peer W → Ran W → Type 0
Gone x (goes q) = q ≡ x
Gone x (exits t) = Unit {0}

Gone-goes : {W : Type 0} {x : Peer W} {r : Ran W} {q : Peer W} → Gone x r → r ≡ goes q → q ≡ x
Gone-goes {x = x} h e = subst (Gone x) e h

unless :
    {W : Type 0} (x : Peer W) (b : Bool) (t : Thread W) (r : Ran W)
    → Gone x r
    → Gone x (if b then exits t else r)
unless x true t r h = tt
unless x false t r h = h

-- Closing one socket, with the answer `a` of the daemon
once_closed-Gone :
    {W : Type 0} (x p : Peer W) (rest : Peer W → Ran W) (a : Told × Thread W)
    → Gone x (rest (record p { thread = a.1 }))
    → Gone x (once_closed p rest (conclude a))
unfolding once_closed conclude is_failure
once_closed-Gone x p rest (said r, t) h = answered (is_0 r.error_code)
  where
    answered :
        (b : Bool)
        → Gone x (
            once_closed p rest (
              if b
              then (returns r.ret, t)
              else (returns (negsuc 0), record t { errno = r.error_code })))
    answered true = unless x (is_failure r.ret) t (rest (record p { thread = t })) h
    answered false = tt
once_closed-Gone x p rest (unsaid rc, t) h = tt
once_closed-Gone x p rest (aborted, t) h = tt

-- The messages that close a peer's sockets
unfoldable pub closes : ℤ → ℤ → List Msg
unfolding is_failure
closes sockfd passive_sockfd =
    if is_failure passive_sockfd
    then Msg.close sockfd ∷ []
    else Msg.close sockfd ∷ Msg.close passive_sockfd ∷ []

-- The passive socket, after the message `m` for the other
passive-Gone :
    {W : Type 0} (h : Host W) (p : Peer W) (m : Msg) (absent : Bool)
    → let t = (call h p.thread m).1 in
      let m' = Msg.close p.passive_sockfd in
      Gone
        (record p { thread = calls h p.thread (if absent then m ∷ [] else m ∷ m' ∷ []) })
        (if absent
          then goes (record p { thread = t })
          else once_closed (record p { thread = t }) goes (conclude (call h t m')))
unfolding calls
passive-Gone h p m true = refl
passive-Gone h p m false =
    let t = (call h p.thread m).1 in
    let a = call h t (Msg.close p.passive_sockfd) in
    once_closed-Gone (record p { thread = a.1 }) (record p { thread = t }) goes a refl

abbrev without_sockets : {W : Type 0} → Setting W → Peer W → Peer W
without_sockets s p = record p { thread = calls s.host p.thread (closes p.sockfd p.passive_sockfd) }

peer_close-Gone :
    {W : Type 0} (s : Setting W) (p : Peer W) → Gone (without_sockets s p) (peer_close s p)
unfolding peer_close close_passive chisocket_close closes
peer_close-Gone s p =
    once_closed-Gone (without_sockets s p) p (close_passive s)
      (call s.host p.thread (Msg.close p.sockfd))
      (passive-Gone s.host p (Msg.close p.sockfd) (is_failure p.passive_sockfd))

abbrev settled : {W : Type 0} → PeerState → Peer W → Peer W
settled state q = record q { state = state; event = none }

reaches-Gone :
    {W : Type 0} (state : PeerState) (x : Peer W) (r : Ran W)
    → Gone x r
    → Gone (settled state x) (cleared (reaches state r))
unfolding reaches cleared update_state
reaches-Gone state x (goes q) h = ap (settled state) h
reaches-Gone state x (exits t) h = tt

-- When a peer acts on CLOSE and the program does not end, it has sent the messages that close its socket
-- and then, if it has one, the passive socket, and no others; it has no event, a server or a client that
-- was ready is closed, and nothing else has changed.
pub close_lem :
    {W : Type 0} (s : Setting W) (p : Peer W) {q : Peer W}
    → turn s p TestEvent.close ≡ goes q
    → q ≡ record p {
      thread = calls s.host p.thread (closes p.sockfd p.passive_sockfd);
      state = closed_state p.state;
      event = none;
    }
unfolding turn on_event update_state
close_lem s p h =
    let begun = update_state (closing_state p.state) p in
    Gone-goes
      (reaches-Gone (closed_state p.state) (without_sockets s begun) (peer_close s begun)
        (peer_close-Gone s begun))
      h
