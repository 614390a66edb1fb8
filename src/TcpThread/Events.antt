-- ===== src/TcpThread/Events.antt =====
-- The order of the events.
use chitcp.Base.{◌≡◌, refl, ◌⊎◌, inl, inr, Bool, true, false, none, some, arith}
use chitcp.Server.{Flags}
use chitcp.TcpThread.{Event, cleanup, all_clear, take_event, raise}

-- What a round takes: the event's own flag goes, and no other, but a cleanup keeps its flag.
abbrev pub Taken : Flags → Type 0
Taken f =
    ((take_event f ≡ none) × (all_clear f ≡ true))
    ⊎ ((ev : Event) × (g : Flags) × (take_event f ≡ some (ev, g))
        × (all_clear f ≡ false)
        × (raise ev g ≡ f)
        × (f.cleanup ≡ true → (ev ≡ cleanup) × (g ≡ f)))

Taken-bits :
    (a b c d e h k m : Bool)
    → Taken (record {
      app_connect = c;
      app_send = e;
      app_recv = d;
      net_recv = h;
      app_close = b;
      timeout_rtx = k;
      timeout_pst = m;
      cleanup = a;
    })
unfolding take_event all_clear raise
Taken-bits true b c d e h k m = inr (_, _, refl, ground arith, refl, λ q. (refl, refl))
Taken-bits false true c d e h k m = inr (_, _, refl, ground arith, refl, λ q. cc (q))
Taken-bits false false true d e h k m = inr (_, _, refl, ground arith, refl, λ q. cc (q))
Taken-bits false false false true e h k m = inr (_, _, refl, ground arith, refl, λ q. cc (q))
Taken-bits false false false false true h k m = inr (_, _, refl, ground arith, refl, λ q. cc (q))
Taken-bits false false false false false true k m =
    inr (_, _, refl, ground arith, refl, λ q. cc (q))
Taken-bits false false false false false false true m =
    inr (_, _, refl, ground arith, refl, λ q. cc (q))
Taken-bits false false false false false false false true =
    inr (_, _, refl, ground arith, refl, λ q. cc (q))
Taken-bits false false false false false false false false = inl (refl, refl)

-- The loop sleeps exactly when no flag is set. Otherwise it takes one event, and setting that event's
-- flag again gives back the flags: no other event is lost. A cleanup goes before every other event, and
-- its flag stays.
take_event_lem : (f : Flags) → Taken f
take_event_lem f =
    Taken-bits f.cleanup f.app_close f.app_connect f.app_recv f.app_send f.net_recv f.timeout_rtx
      f.timeout_pst
