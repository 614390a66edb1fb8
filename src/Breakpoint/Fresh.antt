-- ===== src/Breakpoint/Fresh.antt =====
-- New monitors are good.
use chitcp.Base.{
  ℕ, zero, suc, ◌≤◌, ◌≡◌, ◌≢◌, refl, sym, ap, ◌⊎◌, inl, inr, List, [], ◌∷◌, ◌++◌, none, some, ◌==◌,
  get_elem?, set, length, arith, subst,
}
use chitcp.Breakpoint.{Monitor, Watch, Debug, attach_new, new_monitor}
use chitcp.Breakpoint.Life.{count, Good, Inv}
use chitcp.Breakpoint.Shrink.{count-attach, bit_ne, bit-le}
use chitcp.Breakpoint.Keep.{Good-le}

-- A new monitor, at the end of the list.
last-cases :
    (xs : List Monitor) (y z : Monitor) (k : ℕ)
    → get_elem? (xs ++ y ∷ []) k ≡ some z
    → ((k ≡ length xs) × (z ≡ y)) ⊎ (get_elem? xs k ≡ some z)
last-cases [] y z zero g = inl (refl, cc (g))
last-cases [] y z (suc k) g = cc (g)
last-cases (x ∷ xs) y z zero g = inr g
last-cases (x ∷ xs) y z (suc k) g = elim (last-cases xs y z k g) [
  | inl (e, q) ↦ inl (ap suc e, q)
  | inr h ↦ inr h
]

last-none :
    (xs : List Monitor) (y : Monitor) (k : ℕ)
    → get_elem? (xs ++ y ∷ []) k ≡ none
    → (get_elem? xs k ≡ none) × (length xs ≢ k)
last-none [] y zero g = cc (g)
last-none [] y (suc k) g = (refl, λ e. cc (e))
last-none (x ∷ xs) y zero g = cc (g)
last-none (x ∷ xs) y (suc k) g = let (h, ne) = last-none xs y k g in (h, λ e. ne (omega (arith, e)))

beyond : (xs : List Monitor) → get_elem? xs (length xs) ≡ none
beyond [] = refl
beyond (x ∷ xs) = beyond xs

new-Good : (n : ℕ) → n ≤ 1 → Good n new_monitor
new-Good n le = record {
  refs = le;
  clear = λ dy ne. cc (dy);
  over = λ e. cc (e);
  ended = λ dy un z. cc (dy);
}

pub creates-Inv :
    (d : Debug) (s flags : ℕ) (w : Watch)
    → Inv d
    → get_elem? d.watches s ≡ some w
    → w.monitor ≡ none
    → Inv (attach_new d s flags)
unfolding attach_new
creates-Inv d s flags w inv gw free = record { good = good; known = known }
  where
    good :
        (k : ℕ) (z : Monitor)
        → get_elem? (d.monitors ++ new_monitor ∷ []) k ≡ some z
        → Good
            (count k (
              set d.watches s (record { monitor = some (length d.monitors); event_flags = flags })))
            z
    good k z g = elim (last-cases d.monitors new_monitor z k g) [
      | inl (e, q) ↦
          let out : get_elem? d.monitors k ≡ none =
            subst (λ j. get_elem? d.monitors j ≡ none) (sym e) (beyond d.monitors) in
          subst (Good _) (sym q) (
            new-Good _ (
              omega (
                arith,
                count-attach k (length d.monitors) flags d.watches s,
                bit-le (length d.monitors == k),
                inv.known k out,
              )))
      | inr h ↦
          let ne : length d.monitors ≢ k =
            λ e. cc (h, beyond d.monitors, ap (get_elem? d.monitors) e) in
          Good-le _ _ z
            (omega (
              arith,
              count-attach k (length d.monitors) flags d.watches s,
              bit_ne (length d.monitors) k ne,
            ))
            (inv.good k z h)
    ]

    known :
        (k : ℕ)
        → get_elem? (d.monitors ++ new_monitor ∷ []) k ≡ none
        → count k
            (set d.watches s (record { monitor = some (length d.monitors); event_flags = flags }))
          ≡ 0
    known k g =
        let (h, ne) = last-none d.monitors new_monitor k g in
        omega (
          arith,
          count-attach k (length d.monitors) flags d.watches s,
          bit_ne (length d.monitors) k ne,
          inv.known k h,
        )
