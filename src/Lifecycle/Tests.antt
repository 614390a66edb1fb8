-- ===== src/Lifecycle/Tests.antt =====
-- The daemon at its start, at its end, and when others connect, at concrete inputs.
use chitcp.Base.{ℕ, List, some, ◌≡◌, refl, true, false, [], ◌∷◌, none, arith, pos}
use chitcp.Types.{ok, esocket, einval, ethread}
use chitcp.Addr.Laws.{IsAddr}
use chitcp.Server.{Server, Entry, free_entry}
use chitcp.Sockets.{allocate, acquire}
use chitcp.Sockets.Refs.{World, Reach, here, then_step, allocates, acquires}
use chitcp.Sockets.Tests.{peer_addr}
use chitcp.Breakpoint.{Debug}
use chitcp.Lifecycle.{
  initial, server_start, server_stop, wait_ends, frees_tables, command, unknown, handles, gives_up,
  refuses, greet,
}
use chitcp.Lifecycle.Network.{start_both, start_thread, start_network_thread}
use chitcp.Lifecycle.Clients.{with_command}
use chitcp.Lifecycle.{Conntype}
use chitcp.Lifecycle.Laws.{at_start}

abbrev first_entry : Entry
first_entry = record free_entry { available = false; creator_thread = 5; refcount = 1 }

abbrev first : World
first = record {
  si = record (at_start 1 1 1 0).si { sockets = first_entry ∷ [] };
  held = 0 ∷ [];
  past = [];
}

opens : Reach (at_start 1 1 1 0) first
unfolding initial allocate acquire
opens = then_step (then_step here (allocates 5)) (acquires (pos 0))

abbrev table : Server
table = initial 1 1 1 0

peer_addr-IsAddr : IsAddr peer_addr
peer_addr-IsAddr = ground arith

starts : (server_start table ok ok).0 ≡ ok
unfolding server_start
starts = refl

fails_to_start : (server_start table ok esocket).0 ≡ esocket
unfolding server_start
fails_to_start = refl

stops : wait_ends (server_stop table true true 0).1 ≡ true
unfolding server_stop wait_ends
stops = refl

waits_on : wait_ends (server_stop table true false 0).1 ≡ false
unfolding server_stop wait_ends
waits_on = refl

keeps_tables : frees_tables (server_stop table true true 2).1 ≡ false
unfolding server_stop frees_tables
keeps_tables = refl

abbrev fresh : Debug
fresh = record { watches = []; monitors = [] }

takes_commands : greet table fresh true 0 command ≡ (handles, fresh)
unfolding greet
takes_commands = refl

refuses_others : greet table fresh true 0 unknown ≡ (refuses einval none, fresh)
unfolding greet
refuses_others = refl

gives_up_on_threads : greet table fresh false 0 command ≡ (gives_up ethread, fresh)
unfolding greet
gives_up_on_threads = refl

starts_both :
    (start_both table
      (start_thread (some 3) true true)
      (start_network_thread none true true true)).0
    ≡ esocket
unfolding start_both start_thread start_network_thread server_start
starts_both = refl

abbrev clients : List (ℕ × ℕ × Conntype)
clients = (8, 0, command) ∷ (9, 3, command) ∷ (10, 0, unknown) ∷ (11, 0, command) ∷ []

joins_both : with_command clients ≡ 8 ∷ 11 ∷ []
unfolding with_command
joins_both = refl
