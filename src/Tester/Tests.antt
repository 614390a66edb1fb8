-- ===== src/Tester/Tests.antt =====
-- The tester's peers at concrete inputs.
use chitcp.Base.{ℕ, ◌≡◌, refl, true, false, [], ◌∷◌, ◌++◌, ◌+◌, none, some, pos}
use chitcp.Messages.{received}
use chitcp.Client.{
  Resp, Msg, Host, Thread, call, with_socket, get_socket, get_socket_from, tell, told, conclude,
  chisocket_close,
}
use chitcp.Client.Laws.{calls}
use chitcp.Tester.{
  TestEvent, server_ready, server_closed, Peer, Setting, goes, is_failure, once_closed,
  close_passive, peer_close, update_state, reaches, closing_state, closed_state, run_func, on_event,
  cleared, turn,
}
use chitcp.Tester.Mailbox.{
  Reach, starts, puts, acts, put_event, in_world, turns, pending, events, mailbox_lem,
}
use chitcp.Tester.Closing.{closes, close_lem}

-- A daemon that grants every request and counts the messages
abbrev granted : Resp
granted = record {
  ret = pos 0;
  error_code = pos 0;
  buf = none;
  addr = none;
  socket_state = none;
  socket_buffer_contents = none;
}

abbrev counting : Host ℕ
counting = record {
  new_socket = λ w. (some 5, w);
  connect_to = λ w fd. (true, w);
  command = λ w fd m. (received (Msg.resp granted), w + 1);
}

abbrev setting : Setting ℕ
setting = record { host = counting; memory = true; thread_error = none; server_addr = none }

abbrev at_world : ℕ → Thread ℕ
at_world w = record { daemon_socket = some 5; errno = pos 0; host = w }

-- A server with its two sockets, whose function sends one message
abbrev server : Peer ℕ
server = record {
  sockfd = pos 4;
  passive_sockfd = pos 3;
  func = some (λ fd t. record t { host = t.host + 1 });
  debug_event_flags = none;
  event = none;
  state = server_ready;
  done = false;
  thread = at_world 7;
}

abbrev closed_server : Peer ℕ
closed_server = record server { state = server_closed; thread = at_world 9 }

server-closes : turn setting server TestEvent.close ≡ goes closed_server
unfolding turn on_event reaches update_state closing_state closed_state cleared peer_close
    close_passive once_closed is_failure chisocket_close conclude call with_socket get_socket
    get_socket_from tell told
server-closes = refl

close_lem_example : closed_server ≡ record server {
  thread = calls counting (at_world 7) (closes (pos 4) (pos 3));
  state = closed_state server_ready;
  event = none;
}
close_lem_example = close_lem setting server server-closes

-- RUN is put, acted on when the world is 20, and then EXIT is put.
abbrev ran : Peer ℕ
ran = record server { thread = at_world 21 }

server-runs : turn setting (in_world 20 (put_event TestEvent.run server)) TestEvent.run ≡ goes ran
unfolding turn on_event update_state run_func cleared
server-runs = refl

reached :
    Reach setting server
      (put_event TestEvent.exit ran)
      (TestEvent.exit ∷ TestEvent.run ∷ [])
      ((TestEvent.run, 20) ∷ [])
reached =
    puts TestEvent.exit
      (acts TestEvent.run 20 (puts TestEvent.run starts refl) refl refl server-runs) refl

mailbox_lem_example :
    (turns setting server ((TestEvent.run, 20) ∷ []) ≡ goes ran)
    × (TestEvent.exit ∷ TestEvent.run ∷ []
        ≡ pending (some TestEvent.exit) ++ events {W = ℕ} ((TestEvent.run, 20) ∷ []))
mailbox_lem_example = mailbox_lem setting server reached refl
