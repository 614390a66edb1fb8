-- ===== src/Sockets/Restore.antt =====
-- A reference that is taken and given back.
use chitcp.Base.{
  ℕ, zero, suc, ◌+◌, ◌-◌, ◌≡◌, refl, List, [], ◌∷◌, some, arith, get_elem?, set, get_elem?-set_self,
  sym, ap, ◌∙◌,
}
use chitcp.Server.{Server, Entry}
use chitcp.Sockets.{release, put_entry, change}
use chitcp.Sockets.Refs.Cases.{get_elem?-lt}

set-set {ℓ} : {A : Type ℓ} (xs : List A) (i : ℕ) (a b : A) → set (set xs i a) i b ≡ set xs i b
set-set [] i a b = refl
set-set (x ∷ xs) zero a b = refl
set-set (x ∷ xs) (suc i) a b = ap (λ ys. x ∷ ys) (set-set xs i a b)

pub set-get {ℓ} :
    {A : Type ℓ} (xs : List A) (i : ℕ) (a : A) → get_elem? xs i ≡ some a → set xs i a ≡ xs
set-get [] i a h = refl
set-get (x ∷ xs) zero a h = let q : x ≡ a = cc (h) in ap (λ y. y ∷ xs) (sym q)
set-get (x ∷ xs) (suc i) a h = ap (λ ys. x ∷ ys) (set-get xs i a h)

-- Giving back a reference that was just taken leaves the table as it was.
pub release-put :
    (si : Server) (i : ℕ) (e : Entry)
    → get_elem? si.sockets i ≡ some e
    → release (put_entry si i (record e { refcount = e.refcount + 1 })) i ≡ si
unfolding release
release-put si i e g =
    let e' : Entry = record e { refcount = e.refcount + 1 } in
    let f : Entry → Entry = λ x. record x { refcount = x.refcount - 1 } in
    let g' = get_elem?-set_self si.sockets i e' (get_elem?-lt si.sockets i e g) in
    let opened : change (put_entry si i e') i f ≡ put_entry (put_entry si i e') i (f e') =
      rw (g', change) refl in
    let back : f e' ≡ e = ap (λ n. record e { refcount = n }) (omega arith) in
    let same : set (set si.sockets i e') i (f e') ≡ si.sockets =
      set-set si.sockets i e' (f e') ∙ ap (set si.sockets i) back ∙ set-get si.sockets i e g in
    opened ∙ ap (λ es. record si { sockets = es }) same
