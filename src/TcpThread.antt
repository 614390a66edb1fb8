-- ===== src/TcpThread.antt =====
-- chitcpd/tcp_thread.c and chitcpd/tcp.c: the event loop of an active socket's thread, against the
-- threads that raise its events. What the protocol does at each event is left to the student of the
-- course; modelled is what the code fixes: the order of the events, and the queue of segments.
pub mod Wakeup
pub mod Events
mod Tests
use chitcp.Base.{
  ℕ, suc, ◌+◌, ◌-◌, ◌≡◌, Bool, true, false, List, [], ◌∷◌, ◌++◌, Option, none, some, if◌then◌else◌,
}
use chitcp.Types.{
  TcpState, closed, listen, syn_rcvd, syn_sent, established, fin_wait_1, fin_wait_2, close_wait,
  closing, time_wait, last_ack, Retcode, ok, enoent, ethread,
}
use chitcp.Server.{Segment, Flags, Server}

-- `chitcpd_tcp_start_thread`, and whether the host can create the thread: the count of TCP threads. The
-- thread takes itself off the count when it ends.
unfoldable pub start_thread : Server → Bool → Retcode × Server
start_thread si created =
    let si' = record si { num_tcp_threads = si.num_tcp_threads + 1 } in
    if created
    then (ok, si')
    else (ethread, record si' { num_tcp_threads = si'.num_tcp_threads - 1 })

-- `tcp_event_type_t`
pub data Event : Type 0 where
  application_connect application_send application_receive application_close : Event
  segment_arrival timeout_rtx timeout_pst cleanup : Event

-- `flags.raw == 0`
pub all_clear : Flags → Bool
all_clear f =
    if f.app_connect
    then false
    else if f.app_send
    then false
    else if f.app_recv
    then false
    else if f.net_recv
    then false
    else if f.app_close
    then false
    else if f.timeout_rtx
    then false
    else if f.timeout_pst
    then false
    else if f.cleanup
    then false
    else true

-- The chain of tests: the event to handle, and the flags with its flag cleared. The flag of `cleanup`
-- is left as it is. `none`: no flag is set.
pub take_event : Flags → Option (Event × Flags)
take_event f =
    if f.cleanup
    then some (cleanup, f)
    else if f.app_close
    then some (application_close, record f { app_close = false })
    else if f.app_connect
    then some (application_connect, record f { app_connect = false })
    else if f.app_recv
    then some (application_receive, record f { app_recv = false })
    else if f.app_send
    then some (application_send, record f { app_send = false })
    else if f.net_recv
    then some (segment_arrival, record f { net_recv = false })
    else if f.timeout_rtx
    then some (timeout_rtx, record f { timeout_rtx = false })
    else if f.timeout_pst
    then some (timeout_pst, record f { timeout_pst = false })
    else none

-- `chitcpd_tcp_handle_segment`, up to where the protocol begins.
pub handle_segment : List Segment → Retcode × List Segment
handle_segment [] = (enoent, [])
handle_segment (s ∷ ss) = (ok, ss)

-- `tcp_state_handlers`: the handlers hand an arrival on, but for those of `CLOSED` and `TIME_WAIT`; no
-- other event touches the queue.
pub dispatch : TcpState → Event → List Segment → List Segment
unfolding handle_segment
dispatch s segment_arrival ss = elim s [
  | closed ↦ ss
  | time_wait ↦ ss
  | listen ↦ (handle_segment ss).1
  | syn_rcvd ↦ (handle_segment ss).1
  | syn_sent ↦ (handle_segment ss).1
  | established ↦ (handle_segment ss).1
  | fin_wait_1 ↦ (handle_segment ss).1
  | fin_wait_2 ↦ (handle_segment ss).1
  | close_wait ↦ (handle_segment ss).1
  | closing ↦ (handle_segment ss).1
  | last_ack ↦ (handle_segment ss).1
]
dispatch s application_connect ss = ss
dispatch s application_send ss = ss
dispatch s application_receive ss = ss
dispatch s application_close ss = ss
dispatch s timeout_rtx ss = ss
dispatch s timeout_pst ss = ss
dispatch s cleanup ss = ss

-- Where the thread is in a round of its loop.
pub data Phase : Type 0 where
  -- before the wait for an event
  waiting : Phase
  -- before the dispatch of an event
  handling : Event → Phase
  -- after the dispatch of an arrival, before the look at the queue
  looking : Phase
  -- the queue was not empty: before the flag is set again
  rearming : Phase
  exited : Phase

-- `notifying` counts the threads that have put a segment in the queue and are about to set `net_recv`.
pub record Loop : Type 0 where
  pub phase : Phase
  pub flags : Flags
  pub pending : List Segment
  pub notifying : ℕ

-- What follows the dispatch of an event. After a cleanup the thread frees its socket and ends.
pub after_event : Event → Phase
after_event segment_arrival = looking
after_event cleanup = exited
after_event application_connect = waiting
after_event application_send = waiting
after_event application_receive = waiting
after_event application_close = waiting
after_event timeout_rtx = waiting
after_event timeout_pst = waiting

-- `more_segments`
pub after_look : List Segment → Phase
after_look [] = waiting
after_look (s ∷ ss) = rearming

-- What a thread that raises an event, other than an arrival, does to the flags.
pub raise : Event → Flags → Flags
raise application_connect f = record f { app_connect = true }
raise application_send f = record f { app_send = true }
raise application_receive f = record f { app_recv = true }
raise application_close f = record f { app_close = true }
raise segment_arrival f = record f { net_recv = true }
raise timeout_rtx f = record f { timeout_rtx = true }
raise timeout_pst f = record f { timeout_pst = true }
raise cleanup f = record f { cleanup = true }

-- The steps between the critical sections: those of the other threads, and those of the loop. The TCP
-- state may change at any time, so each dispatch has its own.
pub data Step (w : Loop) : Loop → Type 0 where
  enqueues :
      (s : Segment)
      → Step w (record w { pending = w.pending ++ s ∷ []; notifying = suc w.notifying })
  notifies :
      (n : ℕ)
      → w.notifying ≡ suc n
      → Step w (record w { flags = raise segment_arrival w.flags; notifying = n })
  raises : (ev : Event) → Step w (record w { flags = raise ev w.flags })
  takes :
      (ev : Event) (f : Flags)
      → w.phase ≡ waiting
      → take_event w.flags ≡ some (ev, f)
      → Step w (record w { phase = handling ev; flags = f })
  dispatches :
      (ev : Event) (s : TcpState)
      → w.phase ≡ (handling ev)
      → Step w (record w { phase = after_event ev; pending = dispatch s ev w.pending })
  looks : w.phase ≡ looking → Step w (record w { phase = after_look w.pending })
  rearms :
      w.phase ≡ rearming
      → Step w (record w { phase = waiting; flags = raise segment_arrival w.flags })
