-- ===== src/Lifecycle/Clients.antt =====
-- The loop of `chitcpd_server_thread_func` in chitcpd/server.c: the clients that connect to the daemon, and
-- their handlers.
use chitcp.Base.{
  ℕ, ◌≡◌, refl, sym, ap, ◌∙◌, Bool, true, List, [], ◌∷◌, ◌++◌, if◌then◌else◌, Option, none, some,
  ◌==◌, Bool-cases, inl, inr,
}
use mathlib.Core.List.{append_assoc, append-nil}
use chitcp.Server.{Server, DaemonState}
use chitcp.Types.{einval}
use chitcp.Handlers.{Errno}
use chitcp.Breakpoint.{Debug, init_debug_connection}
use chitcp.Lifecycle.{
  Conntype, command, debug, unknown, Greeting, shuts, handles, monitors, refuses, gives_up, greet,
  debug_answer,
}
use chitcp.Lifecycle.Network.{is_stopping}

-- What the thread meets: `accept` fails, or the first message of a client does not arrive, in a state of the
-- daemon; or a client on a socket with its first message, and whether a thread can be created for it.
pub data Meeting : Type 0 where
  error : DaemonState → Meeting
  silent : DaemonState → Meeting
  client : ℕ → ℕ → Conntype → Bool → Meeting

-- What the thread does with a handler at its end: it waits until no request is being handled, shuts the
-- handler's socket down, lets the handler go on, and waits until its thread ends.
pub data Stop : Type 0 where
  locks shuts_down unlocks joins : ℕ → Stop

unfoldable pub stop_handlers : List ℕ → List Stop
stop_handlers [] = []
stop_handlers (h ∷ hs) = locks h ∷ shuts_down h ∷ unlocks h ∷ joins h ∷ stop_handlers hs

-- The thread goes on; it has stopped its handlers and ended; or it has ended without that. `handlers` are the
-- sockets of the handlers, in the order of `handler_thread_list`.
pub data Served : Type 0 where
  goes_on : List ℕ → Debug → Served
  stops : List Stop → Debug → Served
  leaves : List ℕ → Debug → Served

pub after_greeting : (List ℕ → Debug → Served) → ℕ → List ℕ → Greeting × Debug → Served
after_greeting rest socket handlers (shuts, d) = rest handlers d
after_greeting rest socket handlers (handles, d) = rest (handlers ++ socket ∷ []) d
after_greeting rest socket handlers (monitors, d) = rest handlers d
after_greeting rest socket handlers (refuses c e, d) = rest handlers d
after_greeting rest socket handlers (gives_up c, d) = leaves handlers d

unfoldable pub server_thread : Server → List Meeting → List ℕ → Debug → Served
unfolding after_greeting stop_handlers
server_thread si [] handlers d = goes_on handlers d
server_thread si (error s ∷ ms) handlers d =
    let rest = server_thread si ms handlers d in
    if is_stopping s then stops (stop_handlers handlers) d else rest
server_thread si (silent s ∷ ms) handlers d =
    let rest = server_thread si ms handlers d in
    if is_stopping s then stops (stop_handlers handlers) d else rest
server_thread si (client socket code type created ∷ ms) handlers d =
    after_greeting (server_thread si ms) socket handlers (greet si d created code type)

-- The clients that ask for a handler, of those that connect.
unfoldable pub asks : ℕ → ℕ → Conntype → List ℕ
asks socket code type =
    if code == 0
    then elim type [ command ↦ socket ∷ [] | debug fd flags ↦ [] | unknown ↦ [] ]
    else []

unfoldable pub with_command : List (ℕ × ℕ × Conntype) → List ℕ
unfolding asks
with_command [] = []
with_command ((socket, code, type) ∷ cs) = asks socket code type ++ with_command cs

-- They connect one after the other, and every thread can be created; then the daemon stops.
abbrev pub then_stops : List (ℕ × ℕ × Conntype) → List Meeting
then_stops [] = error DaemonState.stopping ∷ []
then_stops ((socket, code, type) ∷ cs) = client socket code type true ∷ then_stops cs

-- A client without a handler leaves the list as it is.
none_new :
    (rest : List ℕ → Debug → Served) (handlers : List ℕ) (d : Debug)
    → (d' : Debug) × (rest handlers d ≡ rest (handlers ++ []) d')
none_new rest handlers d = (d, ap (λ hs. rest hs d) (sym (append-nil handlers)))

debug_answer-none :
    (rest : List ℕ → Debug → Served) (socket : ℕ) (handlers : List ℕ) (x : Option Errno × Debug)
    → (d' : Debug) × (after_greeting rest socket handlers (debug_answer x)
        ≡ rest (handlers ++ []) d')
unfolding after_greeting debug_answer
debug_answer-none rest socket handlers (none, d) = none_new rest handlers d
debug_answer-none rest socket handlers (some e, d) = none_new rest handlers d

greet-asks :
    (si : Server) (rest : List ℕ → Debug → Served) (handlers : List ℕ) (d : Debug) (socket code : ℕ)
    (type : Conntype)
    → (d' : Debug) × (after_greeting rest socket handlers (greet si d true code type)
        ≡ rest (handlers ++ asks socket code type) d')
unfolding after_greeting greet asks
greet-asks si rest handlers d socket code type = elim (Bool-cases (code == 0)) [
  | inr other ↦ rw (other) (none_new rest handlers d)
  | inl init ↦ rw (init) (by_type type)
]
  where
    by_type :
        (type : Conntype)
        → (d' : Debug) × (after_greeting rest socket handlers (elim type [
          | command ↦ (handles, d)
          | debug fd flags ↦ debug_answer (init_debug_connection si d fd flags)
          | unknown ↦ (refuses einval none, d)
        ])
            ≡ rest
                (handlers
                  ++ (elim type [ command ↦ socket ∷ [] | debug fd flags ↦ [] | unknown ↦ [] ]))
                d')
    by_type command = (d, refl)
    by_type (debug fd flags) =
        debug_answer-none rest socket handlers (init_debug_connection si d fd flags)
    by_type unknown = none_new rest handlers d

-- When clients connect one after the other to the server thread, and every handler's thread can be
-- created, and then the daemon stops: the handlers that the thread has listed are those that it had at the start and
-- those of all clients whose first message asked for a handler, each once and in their order.
server_thread_lem :
    (si : Server) (cs : List (ℕ × ℕ × Conntype)) (handlers : List ℕ) (d : Debug)
    → (d' : Debug) × (server_thread si (then_stops cs) handlers d
        ≡ stops (stop_handlers (handlers ++ with_command cs)) d')
unfolding server_thread with_command
server_thread_lem si [] handlers d =
    (d, ap (λ hs. stops (stop_handlers hs) d) (sym (append-nil handlers)))
server_thread_lem si ((socket, code, type) ∷ cs) handlers d =
    let (d1, first) =
      greet-asks si (server_thread si (then_stops cs)) handlers d socket code type in
    let now = handlers ++ asks socket code type in
    let (d2, q) = server_thread_lem si cs now d1 in
    (
      d2,
      first
          ∙ q
          ∙ ap (λ hs. stops (stop_handlers hs) d2)
              (append_assoc handlers (asks socket code type) (with_command cs)),
    )
