-- ===== src/Breakpoint/Answers.antt =====
-- The client's answers, and the end of a monitor, keep the monitors good.
use chitcp.Base.{
  ℕ, ◌+◌, ◌≡◌, ◌≢◌, refl, sym, ap, ◌∙◌, inl, inr, true, Option, none, some, ◌==◌, get_elem?, set,
  arith, get_elem?-set_self, get_elem?-set_ne, subst,
}
use chitcp.Sockets.Refs.Cases.{get_elem?-lt}
use chitcp.Delivery.{Response, none_resp, stop, accept_monitor, duplicate, withhold, draw_withheld}
use chitcp.Breakpoint.{
  unlocked, removing, leaving, talking, detaching, Monitor, Debug, update, detach, remove_all,
  attach, release, released, fail, answered, after,
}
use chitcp.Breakpoint.Life.{count, Inv}
use chitcp.Breakpoint.Shrink.{
  count-attach, bit_ne, bit-le, Shrunk, update-eq, detach_lem, remove_all_lem,
}
use chitcp.Breakpoint.Keep.{one-Inv, update-Inv, Shrunk-Inv, holds-Inv, after-phase, goes_on-Inv}

-- After a socket lost the monitor, the holder goes on.
lost-Inv :
    (d d' : Debug) (m : ℕ) (x y : Monitor) (f : Monitor → Monitor)
    → Inv d
    → get_elem? d.monitors m ≡ some x
    → Shrunk d d' m x y
    → x.phase ≢ unlocked
    → (f y).phase ≢ unlocked
    → (f y).ref_count ≡ y.ref_count
    → (f y).destroyed ≡ y.destroyed
    → ((f y).dying ≡ true → (f y).phase ≢ removing → count m d'.watches ≡ 0)
    → Inv (update d' m f)
lost-Inv d d' m x y f inv g p held still refs same clear =
    let v = inv.good m x g in
    Shrunk-Inv d d' m x y f inv p (record {
      refs = omega (arith, p.refs v.refs, refs);
      clear = clear;
      over = λ e. absurd (held (v.over (sym p.same_end ∙ sym same ∙ e)).1);
      ended = λ dy un z. absurd (still un);
    })

stops-Inv :
    (d : Debug) (s m : ℕ) (x : Monitor)
    → Inv d
    → get_elem? d.monitors m ≡ some x
    → x.phase ≢ unlocked
    → Inv (update (detach d m s) m after)
stops-Inv d s m x inv g held =
    let (y, p, _) = detach_lem d m s x g in
    lost-Inv d (detach d m s) m x y after inv g p held (after-phase y).0 refl refl
      (λ dy ne. absurd (ne ((after-phase y).1 dy)))

pub detaches-Inv :
    (d : Debug) (s m : ℕ) (x : Monitor)
    → Inv d
    → get_elem? d.monitors m ≡ some x
    → x.phase ≡ detaching s
    → Inv (update (detach d m s) m (λ y. record y { phase = leaving }))
detaches-Inv d s m x inv g held =
    let v = inv.good m x g in
    let (y, p, _) = detach_lem d m s x g in
    lost-Inv d (detach d m s) m x y (λ z. record z { phase = leaving }) inv g p (λ e. cc (e, held))
      (λ e. cc (e)) refl refl
      (λ dy ne. elim (p.dies v.refs dy) [
        | inl before ↦ omega (arith, v.clear before (λ e. cc (e, held)), p.fewer m)
        | inr none_left ↦ none_left
      ])

pub removes-Inv :
    (d : Debug) (m : ℕ) (x : Monitor)
    → Inv d
    → get_elem? d.monitors m ≡ some x
    → x.phase ≡ removing
    → Inv (update (remove_all d m) m (λ y. record y { phase = leaving }))
removes-Inv d m x inv g held =
    let (y, p, none_left) = remove_all_lem d m x g in
    lost-Inv d (remove_all d m) m x y (λ z. record z { phase = leaving }) inv g p
      (λ e. cc (e, held)) (λ e. cc (e)) refl refl (λ dy ne. none_left)

pub releases-Inv :
    (d : Debug) (m : ℕ) (x : Monitor)
    → Inv d
    → get_elem? d.monitors m ≡ some x
    → x.phase ≡ leaving
    → Inv (release d m)
unfolding release
releases-Inv d m x inv g held =
    let v = inv.good m x g in
    update-Inv d m x released inv g (record {
      refs = v.refs;
      clear = λ dy ne. v.clear dy (λ e. cc (e, held));
      over = λ e. (ground (arith, e), refl, ground (arith, e));
      ended = λ dy un z. ground (arith, dy, z);
    })

accepts-Inv :
    (d : Debug) (m flags t : ℕ) (x : Monitor)
    → Inv d
    → get_elem? d.monitors m ≡ some x
    → x.phase ≢ unlocked
    → Inv (update (attach d m flags t) m after)
unfolding attach
accepts-Inv d m flags t x inv g held =
    let v = inv.good m x g in
    let ws = set d.watches t (record { monitor = some m; event_flags = flags }) in
    let x1 : Monitor = record x { ref_count = x.ref_count + 1 } in
    let d1 : Debug = record { watches = ws; monitors = d.monitors } in
    let d2 : Debug = record { watches = ws; monitors = set d.monitors m x1 } in
    let d3 : Debug = record { watches = ws; monitors = set (set d.monitors m x1) m (after x1) } in
    let g2 : get_elem? d2.monitors m ≡ some x1 =
      get_elem?-set_self d.monitors m x1 (get_elem?-lt d.monitors m x g) in
    let eq : update (update d1 m (λ y. record y { ref_count = y.ref_count + 1 })) m after ≡ d3 =
      ap (λ z. update z m after)
        (update-eq d1 m x (λ y. record y { ref_count = y.ref_count + 1 }) g)
      ∙ update-eq d2 m x1 after g2 in
    subst Inv (sym eq) (
      one-Inv d d3 m (after x1) inv
        (get_elem?-set_self d2.monitors m (after x1) (get_elem?-lt d2.monitors m x1 g2))
        (λ k ne.
          get_elem?-set_ne d2.monitors m k (after x1) (λ e. ne (sym e))
          ∙ get_elem?-set_ne d.monitors m k x1 (λ e. ne (sym e)))
        (λ k ne. omega (arith, count-attach k m flags d.watches t, bit_ne m k (λ e. ne (sym e))))
        (record {
          refs = omega (arith, count-attach m m flags d.watches t, bit-le (m == m), v.refs);
          clear = λ dy ne. absurd (ne ((after-phase x1).1 dy));
          over = λ e. absurd (held (v.over e).1);
          ended = λ dy un z. absurd ((after-phase x1).0 un);
        }))

-- Every answer of the client.
pub hears-Inv :
    (d : Debug) (s m flags : ℕ) (x : Monitor) (new : Option ℕ) (resp : Response)
    → Inv d
    → get_elem? d.monitors m ≡ some x
    → x.phase ≢ unlocked
    → Inv (answered d m s flags new resp).1
unfolding answered
hears-Inv d s m flags x new stop inv g held = stops-Inv d s m x inv g held
hears-Inv d s m flags x none accept_monitor inv g held = goes_on-Inv d m x inv g held
hears-Inv d s m flags x (some t) accept_monitor inv g held = accepts-Inv d m flags t x inv g held
hears-Inv d s m flags x new none_resp inv g held = goes_on-Inv d m x inv g held
hears-Inv d s m flags x new Response.drop inv g held = goes_on-Inv d m x inv g held
hears-Inv d s m flags x new duplicate inv g held = goes_on-Inv d m x inv g held
hears-Inv d s m flags x new withhold inv g held = goes_on-Inv d m x inv g held
hears-Inv d s m flags x new draw_withheld inv g held = goes_on-Inv d m x inv g held

pub loses-Inv :
    (d : Debug) (s m : ℕ) (x : Monitor)
    → Inv d
    → get_elem? d.monitors m ≡ some x
    → x.phase ≡ talking s
    → Inv (fail d m)
unfolding fail
loses-Inv d s m x inv g held =
    holds-Inv d m x (λ y. record y { dying = true; phase = removing }) inv g (λ e. cc (e, held))
      (λ e. cc (e)) refl refl (λ dy ne. absurd (ne refl))
