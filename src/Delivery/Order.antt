-- ===== src/Delivery/Order.antt =====
-- The delivery queue: when a segment is due, and that no segment overtakes another.
use chitcp.Base.{
  ℕ, zero, suc, ◌+◌, ◌*◌, ◌≤◌, ◌<◌, ◌≡◌, refl, inl, inr, ◌↔◌, true, false, ◌||◌, List, [], ◌∷◌,
  ◌++◌, some, arith, ltb, get_elem?, take, drop, Bool-cases, sym, subst,
}
use chitcp.Addr.{Addr}
use chitcp.Addr.Laws.{IsAddr, cmp-eq}
use chitcp.Server.{Segment, Delivery, Server}
use chitcp.Delivery.{
  Time, second, delivery_time, delivery_of, is_due, queue, same_connection, has_segments, receive,
  lookup_and_deliver, deliver_due,
}

-- A time in nanoseconds.
abbrev pub total : Time → ℕ
total t = t.sec * second + t.nsec

-- The time of delivery is the time of arrival and the latency, with the nanoseconds below a
-- second, if they are at the arrival.
pub delivery_time-total :
    (now : Time) (latency : ℕ)
    → now.nsec < second
    → (total (delivery_time now latency) ≡ total now + latency)
      × ((delivery_time now latency).nsec < second)
unfolding delivery_time
delivery_time-total now latency h = ground arith

-- The delivery thread's test compares the two times as wholes.
pub is_due-total :
    (now : Time) (d : Delivery)
    → now.nsec < second
    → d.time_nsec < second
    → (is_due now d ≡ true) ↔ (d.time_sec * second + d.time_nsec ≤ total now)
unfolding is_due
is_due-total now d h k = ground arith

-- A queued segment is due exactly when the latency has passed since it was queued, if both clock
-- readings have their nanoseconds below a second.
is_due-latency :
    (si : Server) (queued now : Time) (s : Segment) (l r : Addr)
    → queued.nsec < second
    → now.nsec < second
    → (is_due now (delivery_of si queued s l r) ≡ true) ↔ (total queued + si.latency_ns ≤ total now)
unfolding delivery_of
is_due-latency si queued now s l r hq hn =
    let t = delivery_time-total queued si.latency_ns hq in
    let (f, g) = is_due-total now (delivery_of si queued s l r) hn t.1 in
    (λ h. omega (arith, f h, t.0), λ h. g (omega (arith, h, t.0)))

abbrev pub deliver_all : Server → List Delivery → Server
deliver_all si [] = si
deliver_all si (d ∷ ds) =
    deliver_all (lookup_and_deliver si d.tcp_segment d.local_addr d.remote_addr) ds

due-cons :
    (clock : ℕ → Time) (k n : ℕ) (d : Delivery) (ds : List Delivery)
    → is_due (clock k) d ≡ true
    → ((j : ℕ) (x : Delivery)
        → get_elem? ds j ≡ some x
        → j < n
        → is_due (clock (k + 1 + j)) x ≡ true)
    → (j : ℕ) (x : Delivery) → get_elem? (d ∷ ds) j ≡ some x
    → j < suc n
    → is_due (clock (k + j)) x ≡ true
due-cons clock k n d ds due all zero x g lt =
    let q : d ≡ x = cc (g) in
    let z : k ≡ k + 0 = omega arith in
    subst (λ m. is_due (clock m) x ≡ true) z (subst (λ y. is_due (clock k) y ≡ true) q due)
due-cons clock k n d ds due all (suc j) x g lt =
    let z : k + 1 + j ≡ k + suc j = omega arith in
    subst (λ m. is_due (clock m) x ≡ true) z (all j x g (omega arith))

-- A round of the delivery thread delivers the longest prefix of the queue that is due, in its order, and
-- leaves the rest in the queue.
deliver_due_lem :
    (clock : ℕ → Time) (k : ℕ) (si : Server) (ds : List Delivery)
    → (n : ℕ) × (deliver_due clock k si ds
        ≡ record (deliver_all si (take n ds)) { delivery_queue = drop n ds })
      × ((j : ℕ) (d : Delivery) → get_elem? ds j ≡ some d → j < n → is_due (clock (k + j)) d ≡ true)
      × ((d : Delivery) → get_elem? ds n ≡ some d → is_due (clock (k + n)) d ≡ false)
unfolding deliver_due
deliver_due_lem clock k si [] = (0, refl, λ j d g lt. cc (g), λ d g. cc (g))
deliver_due_lem clock k si (d ∷ ds) = elim (Bool-cases (is_due (clock k) d)) [
  | inr early ↦ (
    0,
    rw (early, deliver_due) refl,
    λ j x g lt. absurd (omega arith),
    λ x g. ground (arith, early, g),
  )
  | inl due ↦
      let (n, q, all, next) =
        deliver_due_lem clock (k + 1)
          (lookup_and_deliver si d.tcp_segment d.local_addr d.remote_addr) ds in
      (
        suc n,
        rw (due, deliver_due) q,
        due-cons clock k n d ds due all,
        λ x g. subst (λ m. is_due (clock m) x ≡ false) (omega arith) (next x g),
      )
]

same_connection_iff :
    (l r : Addr) (d : Delivery)
    → IsAddr l
    → IsAddr r
    → IsAddr d.local_addr
    → IsAddr d.remote_addr
    → (same_connection l r d ≡ true) ↔ ((d.local_addr ≡ l) × (d.remote_addr ≡ r))
unfolding same_connection
same_connection_iff l r d vl vr vdl vdr =
    let (fl, gl) = cmp-eq d.local_addr l vdl vl in
    let (fr, gr) = cmp-eq d.remote_addr r vdr vr in
    (λ h. (fl (ground arith), fr (ground arith)), λ h. ground (arith, gl h.0, gr h.1))

has_segments-found :
    (ds : List Delivery) (l r : Addr) (j : ℕ) (d : Delivery)
    → get_elem? ds j ≡ some d
    → same_connection l r d ≡ true
    → has_segments ds l r ≡ true
unfolding has_segments
has_segments-found [] l r j d g same = cc (g)
has_segments-found (x ∷ ds) l r zero d g same = ground arith
has_segments-found (x ∷ ds) l r (suc j) d g same =
    ground (arith, has_segments-found ds l r j d g same)

-- While a segment of a connection waits in the queue, a new one with the same addresses, of known
-- families, goes behind it and is not delivered at once, whatever the latency.
pub receive-no_overtaking :
    (si : Server) (i : ℕ) (now : Time) (s : Segment) (l r : Addr) (j : ℕ) (d : Delivery)
    → IsAddr l
    → IsAddr r
    → get_elem? si.delivery_queue j ≡ some d
    → d.local_addr ≡ l
    → d.remote_addr ≡ r
    → receive si i now s l r
      ≡ record si { delivery_queue = si.delivery_queue ++ delivery_of si now s l r ∷ [] }
unfolding receive queue
receive-no_overtaking si i now s l r j d vl vr g ql qr =
    let vdl = subst IsAddr (sym ql) vl in
    let vdr = subst IsAddr (sym qr) vr in
    let same = (same_connection_iff l r d vl vr vdl vdr).1 (ql, qr) in
    let found = has_segments-found si.delivery_queue l r j d g same in
    let q : (ltb 0 si.latency_ns || has_segments si.delivery_queue l r) ≡ true =
      ground (arith, found) in
    rw (q, receive) refl
