-- ===== src/TcpThread/Wakeup.antt =====
-- No wake-up is lost: the thread does not sleep while a segment waits for it.
use chitcp.Base.{
  ◌<◌, ◌≡◌, refl, ◌⊎◌, inl, inr, true, false, List, [], ◌∷◌, none, some, arith, sym, subst, ◌∙◌,
}
use chitcp.Types.{TcpState}
use chitcp.Server.{Segment, Flags}
use chitcp.TcpThread.{
  Event, application_connect, application_send, application_receive, application_close,
  segment_arrival, timeout_rtx, timeout_pst, cleanup, all_clear, take_event, dispatch, Phase,
  waiting, handling, looking, rearming, exited, Loop, after_event, after_look, raise, Step,
  enqueues, notifies, raises, takes, dispatches, looks, rearms,
}

-- An event flag is set exactly when there is an event to take.
pub take_event-all_clear : (f : Flags) → all_clear f ≡ true → take_event f ≡ none
unfolding take_event all_clear
take_event-all_clear f h = ground arith

-- A segment in the queue is noted, or about to be.
abbrev pub Noted : Loop → Type 0
Noted w = (w.pending ≡ []) ⊎ (w.flags.net_recv ≡ true) ⊎ (0 < w.notifying)

-- Only between the taking of an arrival and the end of its round may the flag be clear.
abbrev pub Safe : Phase → Loop → Type 0
Safe waiting w = Noted w
Safe (handling segment_arrival) w = Unit
Safe (handling cleanup) w = Unit
Safe (handling application_connect) w = Noted w
Safe (handling application_send) w = Noted w
Safe (handling application_receive) w = Noted w
Safe (handling application_close) w = Noted w
Safe (handling timeout_rtx) w = Noted w
Safe (handling timeout_pst) w = Noted w
Safe looking w = Unit
Safe rearming w = Unit
Safe exited w = Unit

abbrev pub Inv : Loop → Type 0
Inv w = Safe w.phase w

-- What keeps the segments noted keeps the loop safe, in every phase.
Safe-mono : (p : Phase) (u v : Loop) → (Noted u → Noted v) → Safe p u → Safe p v
Safe-mono waiting u v f h = f h
Safe-mono (handling segment_arrival) u v f h = h
Safe-mono (handling cleanup) u v f h = h
Safe-mono (handling application_connect) u v f h = f h
Safe-mono (handling application_send) u v f h = f h
Safe-mono (handling application_receive) u v f h = f h
Safe-mono (handling application_close) u v f h = f h
Safe-mono (handling timeout_rtx) u v f h = f h
Safe-mono (handling timeout_pst) u v f h = f h
Safe-mono looking u v f h = h
Safe-mono rearming u v f h = h
Safe-mono exited u v f h = h

Noted-raise : (ev : Event) (w : Loop) → Noted w → Noted (record w { flags = raise ev w.flags })
unfolding raise
Noted-raise application_connect w h = h
Noted-raise application_send w h = h
Noted-raise application_receive w h = h
Noted-raise application_close w h = h
Noted-raise segment_arrival w h = inr (inl refl)
Noted-raise timeout_rtx w h = h
Noted-raise timeout_pst w h = h
Noted-raise cleanup w h = h

-- Taking an event other than an arrival leaves `net_recv` alone.
takes_net_recv :
    (f g : Flags) (ev : Event)
    → take_event f ≡ some (ev, g)
    → (ev ≡ segment_arrival) ⊎ (g.net_recv ≡ f.net_recv)
unfolding take_event
takes_net_recv f g ev h = ground arith

Safe-handling : (ev : Event) (w : Loop) → (ev ≡ segment_arrival) ⊎ Noted w → Safe (handling ev) w
Safe-handling segment_arrival w h = tt
Safe-handling cleanup w h = tt
Safe-handling application_connect w h = elim h [ inl q ↦ cc (q) | inr n ↦ n ]
Safe-handling application_send w h = elim h [ inl q ↦ cc (q) | inr n ↦ n ]
Safe-handling application_receive w h = elim h [ inl q ↦ cc (q) | inr n ↦ n ]
Safe-handling application_close w h = elim h [ inl q ↦ cc (q) | inr n ↦ n ]
Safe-handling timeout_rtx w h = elim h [ inl q ↦ cc (q) | inr n ↦ n ]
Safe-handling timeout_pst w h = elim h [ inl q ↦ cc (q) | inr n ↦ n ]

Safe-dispatch :
    (ev : Event) (s : TcpState) (w : Loop)
    → Safe (handling ev) w
    → Safe (after_event ev) (record w { phase = after_event ev; pending = dispatch s ev w.pending })
unfolding after_event dispatch
Safe-dispatch segment_arrival s w h = tt
Safe-dispatch cleanup s w h = tt
Safe-dispatch application_connect s w h = h
Safe-dispatch application_send s w h = h
Safe-dispatch application_receive s w h = h
Safe-dispatch application_close s w h = h
Safe-dispatch timeout_rtx s w h = h
Safe-dispatch timeout_pst s w h = h

Safe-look : (ss : List Segment) (w : Loop) → w.pending ≡ ss → Safe (after_look ss) w
unfolding after_look
Safe-look [] w q = inl q
Safe-look (s ∷ ss) w q = tt

-- Every step, of the thread and of the others, keeps this.
Step-Inv : {u v : Loop} → Step u v → Inv u → Inv v
unfolding raise
Step-Inv {u = u} (enqueues s) h = Safe-mono u.phase u _ (λ n. inr (inr (omega arith))) h
Step-Inv {u = u} (notifies n q) h = Safe-mono u.phase u _ (λ m. inr (inl refl)) h
Step-Inv {u = u} (raises ev) h = Safe-mono u.phase u _ (Noted-raise ev u) h
Step-Inv {u = u} (takes ev f p q) h =
    let noted : Noted u = subst (λ x. Safe x u) p h in
    Safe-handling ev _ (elim (takes_net_recv u.flags f ev q) [
      | inl a ↦ inl a
      | inr same ↦ inr (elim noted [
        | inl none_left ↦ inl none_left
        | inr (inl set) ↦ inr (inl (same ∙ set))
        | inr (inr soon) ↦ inr (inr soon)
      ])
    ])
Step-Inv {u = u} (dispatches ev s p) h = Safe-dispatch ev s u (subst (λ x. Safe x u) p h)
Step-Inv {u = u} (looks p) h = Safe-look u.pending _ refl
Step-Inv {u = u} (rearms p) h = inr (inl refl)

pub data Reach (w : Loop) : Loop → Type 0 where
  here : Reach w w
  then_step : {u v : Loop} → Reach w u → Step u v → Reach w v

Reach-Inv : {u v : Loop} → Reach u v → Inv u → Inv v
Reach-Inv here h = h
Reach-Inv (then_step r s) h = Step-Inv s (Reach-Inv r h)

clear_net_recv : (f : Flags) → all_clear f ≡ true → f.net_recv ≡ false
unfolding all_clear
clear_net_recv f h = ground arith

-- Along every interleaving from a thread that starts with an empty queue: when the thread is about to
-- sleep, with all flags clear, and nobody is about to notify it, no segment waits in its queue.
pub sleeps-empty :
    {u v : Loop}
    → Reach u v
    → u.phase ≡ waiting
    → u.pending ≡ []
    → v.phase ≡ waiting
    → all_clear v.flags ≡ true
    → v.notifying ≡ 0
    → v.pending ≡ []
sleeps-empty {u = u} {v = v} r start empty sleeping clear quiet =
    let inv : Inv u = subst (λ x. Safe x u) (sym start) (inl empty) in
    let noted : Noted v = subst (λ x. Safe x v) sleeping (Reach-Inv r inv) in
    elim noted [
      | inl q ↦ q
      | inr (inl set) ↦ absurd (true_false (sym set ∙ clear_net_recv v.flags clear))
      | inr (inr soon) ↦ absurd (omega arith)
    ]
  where
    true_false : ¬ (true ≡ false)
    true_false q = cc (q)
