-- ===== src/Delivery/Tally.antt =====
-- The segments that the daemon holds, counted: in the sockets' lists and in the delivery queue.

use chitcp.Base.{
  ℕ, zero, suc, ◌+◌, ◌≡◌, ◌≢◌, refl, inl, inr, Bool, List, [], ◌∷◌, ◌++◌, some, arith, get_elem?,
  set, Option-cases, ap, ◌∙◌,
}
use chitcp.Types.{active, passive, uninitialized}
use chitcp.Addr.{Addr}
use chitcp.Server.{Segment, Entry, Withheld, Delivery, Server}
use chitcp.Sockets.{change, put_entry, lookup, release}
use chitcp.Sockets.Lookup.{lookup_lem}
use chitcp.Delivery.{deliver, deliver_to, queue, delivery_of, Time}

abbrev pub sum_of {ℓ} : {A : Type ℓ} → (A → ℕ) → List A → ℕ
sum_of f [] = 0
sum_of f (x ∷ xs) = f x + sum_of f xs

pub sum_of-append {ℓ} :
    {A : Type ℓ} (f : A → ℕ) (xs ys : List A) → sum_of f (xs ++ ys) ≡ sum_of f xs + sum_of f ys
sum_of-append f [] ys = omega arith
sum_of-append f (x ∷ xs) ys = omega (arith, sum_of-append f xs ys)

sum_of-set {ℓ} :
    {A : Type ℓ} (f : A → ℕ) (xs : List A) (i : ℕ) (x y : A)
    → get_elem? xs i ≡ some x
    → sum_of f (set xs i y) + f x ≡ sum_of f xs + f y
sum_of-set f [] i x y h = cc (h)
sum_of-set f (z ∷ xs) zero x y h = let q : z ≡ x = cc (h) in omega (arith, ap f q)
sum_of-set f (z ∷ xs) (suc i) x y h = omega (arith, sum_of-set f xs i x y h)

-- Each segment has a weight. Two lists with the same sum for every weight hold the same segments.
module _ (weight : Segment → ℕ) where
  abbrev pub withheld_tally : List Withheld → ℕ
  withheld_tally ws = sum_of (λ x. weight x.segment) ws

  -- The segments that wait at a socket: only the one of the lists that its type names is there.
  abbrev pub waiting_tally : Entry → ℕ
  waiting_tally e = elim e.actpas_type [
    | active ↦ sum_of weight e.active.tcp_data.pending_segments
    | passive ↦ sum_of (λ p. weight p.initial_segment) e.passive.pending_connections
    | uninitialized ↦ 0
  ]

  abbrev pub entry_tally : Entry → ℕ
  entry_tally e = withheld_tally e.withheld_segments + waiting_tally e

  abbrev pub queue_tally : List Delivery → ℕ
  queue_tally ds = sum_of (λ d. weight d.tcp_segment) ds

  abbrev pub tally : Server → ℕ
  tally si = sum_of entry_tally si.sockets + queue_tally si.delivery_queue

  pub tally-change :
      (si : Server) (i : ℕ) (f : Entry → Entry) (e : Entry)
      → get_elem? si.sockets i ≡ some e
      → tally (change si i f) + entry_tally e ≡ tally si + entry_tally (f e)
  tally-change si i f e g =
      let q : change si i f ≡ put_entry si i (f e) = rw (g, change) refl in
      omega (arith, ap tally q, sum_of-set entry_tally si.sockets i e (f e) g)

  -- A change that leaves the segments of an entry alone.
  pub tally-change_same :
      (si : Server) (i : ℕ) (f : Entry → Entry)
      → ((e : Entry) → entry_tally (f e) ≡ entry_tally e)
      → tally (change si i f) ≡ tally si
  tally-change_same si i f same = elim (Option-cases (get_elem? si.sockets i)) [
    | inl out ↦ let q : change si i f ≡ si = rw (out, change) refl in ap tally q
    | inr (e, g) ↦ omega (arith, tally-change si i f e g, same e)
  ]

  pub tally-release : (si : Server) (i : ℕ) → tally (release si i) ≡ tally si
  unfolding release
  tally-release si i = tally-change_same si i _ (λ e. refl)

  pub tally-lookup : (si : Server) (l r : Addr) (x : Bool) → tally (lookup si l r x).1 ≡ tally si
  tally-lookup si l r x = elim (lookup_lem si l r x) [
    | inl (q, _) ↦ ap (λ y. tally y.1) q
    | inr (k, n, q, _) ↦
        ap (λ y. tally y.1) q
        ∙ tally-change_same si k (λ e. record e { refcount = e.refcount + 1 }) (λ e. refl)
  ]

  pub tally-queue :
      (si : Server) (now : Time) (s : Segment) (l r : Addr)
      → tally (queue si now s l r) ≡ tally si + weight s
  unfolding queue delivery_of
  tally-queue si now s l r = omega (
    arith,
    sum_of-append (λ d. weight d.tcp_segment) si.delivery_queue (delivery_of si now s l r ∷ []),
  )

  entry_tally-deliver_to :
      (s : Segment) (l r : Addr) (e : Entry)
      → e.actpas_type ≢ uninitialized
      → entry_tally (deliver_to s l r e) ≡ entry_tally e + weight s
  unfolding deliver_to
  entry_tally-deliver_to s l r e ready = ground (
    arith,
    sum_of-append weight e.active.tcp_data.pending_segments (s ∷ []),
    sum_of-append (λ p. weight p.initial_segment) e.passive.pending_connections
        (record { initial_segment = s; local_addr = l; remote_addr = r } ∷ []),
  )

  -- A delivery to a socket that is set up adds the segment.
  pub tally-deliver :
      (si : Server) (i : ℕ) (s : Segment) (l r : Addr) (e : Entry)
      → get_elem? si.sockets i ≡ some e
      → e.actpas_type ≢ uninitialized
      → tally (deliver si i s l r) ≡ tally si + weight s
  unfolding deliver
  tally-deliver si i s l r e g ready =
      omega (arith, tally-change si i (deliver_to s l r) e g, entry_tally-deliver_to s l r e ready)
