-- ===== src/TcpThread/Tests.antt =====
-- The event loop at concrete inputs.
use chitcp.Base.{◌≡◌, refl, true, [], ◌∷◌, some}
use chitcp.Types.{established}
use chitcp.Server.{no_flags}
use chitcp.TcpThread.{
  all_clear, segment_arrival, application_close, Loop, waiting, take_event, dispatch, enqueues,
  notifies, takes, dispatches, looks, raise, after_event, after_look,
}
use chitcp.TcpThread.Wakeup.{Reach, here, then_step, sleeps-empty}

closes_first :
    take_event (record no_flags { app_close = true; net_recv = true })
    ≡ some (application_close, record no_flags { net_recv = true })
unfolding take_event
closes_first = refl

abbrev start : Loop
start = record { phase = waiting; flags = no_flags; pending = []; notifying = 0 }

-- A segment comes, is taken and handled.
one_round : Reach start start
unfolding take_event raise dispatch after_event after_look
one_round =
    then_step
      (then_step
        (then_step (then_step (then_step here (enqueues (1 ∷ []))) (notifies 0 refl))
          (takes segment_arrival no_flags refl refl))
        (dispatches segment_arrival established refl))
      (looks refl)

all_clear_start : all_clear no_flags ≡ true
unfolding all_clear
all_clear_start = refl

sleeps-empty_example : start.pending ≡ []
sleeps-empty_example = sleeps-empty one_round refl refl refl all_clear_start refl
