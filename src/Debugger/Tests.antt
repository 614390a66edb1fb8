-- ===== src/Debugger/Tests.antt =====
-- The debugging interface at concrete inputs.
use chitcp.Base.{ℕ, ◌+◌, ◌≡◌, refl, true, false, [], ◌∷◌, none, some, pos, if◌then◌else◌, ◌==◌}
use chitcp.Server.{Server}
use chitcp.Messages.{received}
use chitcp.Handlers.{usable}
use chitcp.Handlers.Wait.{get_socket_state, buffer_contents}
use chitcp.Handlers.Tests.{daemon}
use chitcp.Breakpoint.{Debug, init_debug_connection, unwatched}
use chitcp.Lifecycle.{greet, debug_answer}
use chitcp.Client.{Msg, Host, Thread}
use chitcp.Client.Daemon.{plain}
use chitcp.Debugger.{chitcpd_get_socket_state, chitcpd_debug}
use chitcp.Debugger.Requests.{
  state_resp, contents_resp, Knows, get_state_agrees, greeting_resp, debugging_of, debug_agrees,
}
use chitcp.Debugger.Handshake.{
  handle, handled, at_start, sent, taken, sends, acts, gets, Reach, start, then_step, Matched,
  ended, handshake_lem,
}
use chitcp.Debugger.Events.{Handler, initial, run, turn, goes_on}
use chitcp.Debugger.Events.Laws.{pending, events, answers, run_active}

-- The handlers of a daemon whose second socket, of three, is connected, and is not watched.
abbrev host : Host Server
host = record {
  new_socket = λ si. (some 6, si);
  connect_to = λ si fd. (true, si);
  command = λ si fd msg. elim msg [
    | Msg.get_socket_state sockfd ↦
        (received (Msg.resp (state_resp (get_socket_state si sockfd))), si)
    | Msg.get_socket_buffer_contents sockfd ↦
        (received (Msg.resp (contents_resp (buffer_contents si sockfd))), si)
    | _ ↦ (received (Msg.resp (plain (pos 0) (pos 0))), si)
  ];
}

abbrev thread : Thread Server
thread = record { daemon_socket = some 5; errno = pos 0; host = daemon }

get_state_agrees_example :
    Knows
      (get_socket_state daemon (pos 1))
      (buffer_contents daemon (pos 1))
      (chitcpd_get_socket_state host true true thread (pos 1) true).0
get_state_agrees_example =
    get_state_agrees host thread 5 (pos 1) daemon daemon daemon daemon refl refl refl

abbrev unwatched_sockets : Debug
unwatched_sockets = record { watches = unwatched ∷ unwatched ∷ unwatched ∷ []; monitors = [] }

debug_agrees_example :
    (chitcpd_debug host true none thread (pos 1) 2).0
    ≡ debugging_of 6 (pos 1) (init_debug_connection daemon unwatched_sockets (pos 1) 2).0
unfolding greeting_resp greet init_debug_connection usable debug_answer
debug_agrees_example =
    debug_agrees host thread 6 daemon unwatched_sockets (pos 1) 2 (plain (pos 0) (pos 0)) daemon
      daemon daemon refl refl refl refl

-- A response to a state change ends the thread.
abbrev stops_at_1 : ℕ → ℕ
stops_at_1 flag = if flag == 1 then 1 else 0

one_event : Reach stops_at_1 (taken (handled stops_at_1 (sent 1 at_start))) ((1, 1) ∷ [])
unfolding handled handle
one_event =
    then_step (then_step (then_step start (sends 1 (λ q. cc) refl refl)) (acts (λ q. cc) refl))
      (gets 1 1 refl refl)

handshake_lem_example :
    let s = taken (handled stops_at_1 (sent 1 at_start)) in
    Matched stops_at_1 ((1, 1) ∷ [])
    × (s.waiting ≡ none → (s.event_flag ≡ 0) × (s.response ≡ none) × (s.done ≡ ended ((1, 1) ∷ [])))
handshake_lem_example = handshake_lem one_event

-- A handler that counts its calls, and accepts.
abbrev counter : Handler ℕ
counter = record { handle = λ n fd flag new. (2, n + 1); has_state = λ n fd. (true, n) }

asked_twice :
    turn counter true (pending (pos 0) (pos 4)) (initial 0)
    ≡ goes_on (record {
      active_list = pos 4 ∷ [];
      passive = true;
      first_event = false;
      ret = 2;
      handler_state = 2;
    })
unfolding turn
asked_twice = refl

run_active_example :
    (run counter (events (pos 4) (pos 0) (1 ∷ 2 ∷ [])) (initial 0)).0
    ≡ answers counter 0 (pos 4) (1 ∷ 2 ∷ [])
run_active_example = run_active counter (pos 4) (pos 0) 1 (2 ∷ []) 0 (λ q. cc)
