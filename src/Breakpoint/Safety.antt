-- ===== src/Breakpoint/Safety.antt =====
-- A monitor is destroyed when nothing leads to it any more, and not before.
use chitcp.Base.{ℕ, ◌≡◌, ◌≢◌, true, List, some, get_elem?}
use chitcp.Breakpoint.{unlocked, removing, breaking, detaching, Monitor, Watch, Debug}
use chitcp.Breakpoint.Life.{
  count, Step, creates, meets, frees, locks_to_break, locks_to_detach, looks, loses, hears, removes,
  detaches, releases, Reach, start, then_step, Inv,
}
use chitcp.Breakpoint.Keep.{waits-Inv, locks-Inv, looks-Inv}
use chitcp.Breakpoint.Answers.{detaches-Inv, removes-Inv, releases-Inv, hears-Inv, loses-Inv}
use chitcp.Breakpoint.Fresh.{creates-Inv}

Step-Inv : {u v : Debug} → Step u v → Inv u → Inv v
Step-Inv {u} (creates s flags w g free) inv = creates-Inv u s flags w inv g free
Step-Inv {u} (meets s m flag w g own e) inv = waits-Inv u s m w inv g own
Step-Inv {u} (frees s m w g own) inv = waits-Inv u s m w inv g own
Step-Inv {u} (locks_to_break s m x g free w) inv =
    locks-Inv u m x (breaking s) inv g free w (λ e. cc (e)) (λ e. cc (e))
Step-Inv {u} (locks_to_detach s m x g free w) inv =
    locks-Inv u m x (detaching s) inv g free w (λ e. cc (e)) (λ e. cc (e))
Step-Inv {u} (looks s m x w g held gw) inv = looks-Inv u s m x w inv g held
Step-Inv {u} (loses s m x g held) inv = loses-Inv u s m x inv g held
Step-Inv {u} (hears s m flags x new resp g held) inv =
    hears-Inv u s m flags x new resp inv g (λ e. cc (e, held))
Step-Inv {u} (removes m x g held) inv = removes-Inv u m x inv g held
Step-Inv {u} (detaches s m x g held) inv = detaches-Inv u s m x inv g held
Step-Inv {u} (releases m x g held) inv = releases-Inv u m x inv g held

Reach-Inv : {ws : List Watch} {d : Debug} → Reach ws d → Inv d
Reach-Inv (start none_has) = record { good = λ m x g. cc (g); known = λ m g. none_has m }
Reach-Inv (then_step r s) = Step-Inv s (Reach-Inv r)

-- Along every interleaving of breakpoints, answers, new monitors and freed sockets, from sockets without a monitor: once a monitor is destroyed, no socket leads to it, no thread waits for it and none holds its lock.
pub destroyed_safe :
    {ws : List Watch} {d : Debug} (m : ℕ) (x : Monitor)
    → Reach ws d
    → get_elem? d.monitors m ≡ some x
    → x.destroyed ≡ true
    → (count m d.watches ≡ 0) × (x.numwaiters ≡ 0) × (x.phase ≡ unlocked)
destroyed_safe m x r g over =
    let v = (Reach-Inv r).good m x g in
    let (z, free, dying) = v.over over in (v.clear dying (λ e. cc (e, free)), z, free)

-- Along every such interleaving, a monitor that is dying is destroyed as soon as no thread waits for it or holds its lock, and before that no socket leads to it, but while it is being removed.
pub dying_destroyed :
    {ws : List Watch} {d : Debug} (m : ℕ) (x : Monitor)
    → Reach ws d
    → get_elem? d.monitors m ≡ some x
    → x.dying ≡ true
    → (x.phase ≢ removing → count m d.watches ≡ 0)
      × (x.phase ≡ unlocked → x.numwaiters ≡ 0 → x.destroyed ≡ true)
dying_destroyed m x r g dying = let v = (Reach-Inv r).good m x g in (v.clear dying, v.ended dying)
