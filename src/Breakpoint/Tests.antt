-- ===== src/Breakpoint/Tests.antt =====
-- A monitor whose client goes away at a breakpoint.
use chitcp.Base.{ℕ, ◌≡◌, ◌≢◌, refl, true, false, List, [], ◌∷◌, some, none, arith}
use chitcp.Breakpoint.{
  Phase, unlocked, removing, leaving, breaking, talking, Monitor, Watch, Debug, unwatched,
  attach_new, wait_for, take_lock, recheck, fail, remove_all, remove_from, detach, detach_watch,
  release, monitors_event, answered,
}
use chitcp.Breakpoint.Life.{
  count, creates, meets, locks_to_break, looks, loses, removes, releases, Reach, start, then_step,
}
use chitcp.Breakpoint.Safety.{destroyed_safe, dying_destroyed}
use chitcp.Delivery.{stop}

abbrev none_has : List Watch
none_has = unwatched ∷ unwatched ∷ []

abbrev watched : Watch
watched = record { monitor = some 0; event_flags = 2 }

abbrev monitor_at : Phase → ℕ → Monitor
monitor_at p n = record {
  ref_count = 1;
  numwaiters = n;
  dying = false;
  phase = p;
  destroyed = false;
}

abbrev talk : Debug
talk = record { watches = watched ∷ unwatched ∷ []; monitors = monitor_at (talking 0) 0 ∷ [] }

abbrev over : Debug
over = record {
  watches = none_has;
  monitors =
      record { ref_count = 0; numwaiters = 0; dying = true; phase = unlocked; destroyed = true }
      ∷ [];
}

none_counted : (m : ℕ) → count m none_has ≡ 0
unfolding count
none_counted m = refl

talk-Reach : Reach none_has talk
unfolding attach_new wait_for take_lock recheck monitors_event
talk-Reach =
    then_step
      (then_step
        (then_step (then_step (start none_counted) (creates 0 2 unwatched refl refl))
          (meets 0 0 2 watched refl refl refl))
        (locks_to_break 0 0 (monitor_at unlocked 1) refl refl (omega arith)))
      (looks 0 0 (monitor_at (breaking 0) 0) watched refl refl refl)

over-Reach : Reach none_has over
unfolding fail remove_all remove_from detach detach_watch release
over-Reach =
    then_step
      (then_step (then_step talk-Reach (loses 0 0 (monitor_at (talking 0) 0) refl refl)) (
        removes 0
          (record {
            ref_count = 1;
            numwaiters = 0;
            dying = true;
            phase = removing;
            destroyed = false;
          })
          refl refl))
      (releases 0
        (record { ref_count = 0; numwaiters = 0; dying = true; phase = leaving; destroyed = false })
        refl refl)

abbrev ended : Monitor
ended = record { ref_count = 0; numwaiters = 0; dying = true; phase = unlocked; destroyed = true }

destroyed_safe_example :
    (count 0 over.watches ≡ 0) × (ended.numwaiters ≡ 0) × (ended.phase ≡ unlocked)
destroyed_safe_example = destroyed_safe 0 ended over-Reach refl refl

dying_destroyed_example :
    (ended.phase ≢ removing → count 0 over.watches ≡ 0)
    × (ended.phase ≡ unlocked → ended.numwaiters ≡ 0 → ended.destroyed ≡ true)
dying_destroyed_example = dying_destroyed 0 ended over-Reach refl refl

-- A client that stops watching its only socket.
stopped : (answered talk 0 0 2 none stop).1.watches ≡ none_has
unfolding answered detach detach_watch
stopped = refl
