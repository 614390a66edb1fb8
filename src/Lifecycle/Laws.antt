-- ===== src/Lifecycle/Laws.antt =====
-- What holds of the daemon from its start on, and who may connect.
use chitcp.Base.{
  arith, ℕ, zero, suc, ◌<◌, ◌^◌, ◌≡◌, refl, sym, subst, ap, ◌⊎◌, inl, inr, Bool, true, false,
  if◌then◌else◌, [], none, some, replicate, get_elem?, Option-cases,
}
use chitcp.Addr.{Addr, addr_is_loopback}
use chitcp.Addr.Laws.{IsAddr}
use chitcp.Server.{Server, Entry, free_entry}
use chitcp.Sockets.{free_wait}
use chitcp.Sockets.Refs.{World, Inv, Counted, Reach, count}
use chitcp.Sockets.Refs.Safety.{held_safe}
use chitcp.Connections.{get_connection, add_connection, get_available_entry}
use chitcp.Connections.Laws.{Found, get-Found, get-add}
use chitcp.Lifecycle.{initial, Arrival, serves, closes_server, quits, with_entry, arrive_at, arrive}

get-replicate {ℓ} : {A : Type ℓ} (n i : ℕ) (a b : A) → get_elem? (replicate n a) i ≡ some b → b ≡ a
get-replicate zero i a b h = cc (h)
get-replicate (suc n) zero a b h = cc (h)
get-replicate (suc n) (suc i) a b h = get-replicate n i a b h

-- Nobody holds a reference on a socket of a new daemon.
abbrev pub at_start : ℕ → ℕ → ℕ → ℕ → World
at_start n_sockets n_ports n_connections start = record {
  si = initial n_sockets n_ports n_connections start;
  held = [];
  past = [];
}

at_start-Inv : (n p c start : ℕ) → Inv (at_start n p c start)
unfolding initial
at_start-Inv n p c start = (
  λ i e g. subst (Counted [] [] i) (sym (get-replicate n i free_entry e g)) record {
    counted = refl;
    free_unheld = λ _. refl;
    free_clear = λ _. refl;
    past_unheld = λ _. refl;
    past_freeing = λ h. elim h [ ];
    past_once = omega arith;
  },
  λ i g. (refl, refl),
)

-- From the start of the daemon on, with tables of any sizes and along every interleaving of the steps on
-- the socket table, a socket to which some thread holds a reference is in use: it is not available, and
-- no thread that frees it has seen the last reference go, or can see that now.
started_safe :
    (n_sockets n_ports n_connections start : ℕ) {v : World} (i : ℕ) (e : Entry)
    → Reach (at_start n_sockets n_ports n_connections start) v
    → 0 < count i v.held
    → get_elem? v.si.sockets i ≡ some e
    → (e.available ≡ false) × (count i v.past ≡ 0) × (free_wait v.si i ≡ false)
started_safe n p c start i e r h g = held_safe i e (at_start-Inv n p c start) r h g

pub Arrived : Server → Bool → Addr → Arrival → Type 0
Arrived si created a (serves i si') =
    (created ≡ true) × (j : ℕ) × (get_connection si' a ≡ some j) × Found a si'.connections j
Arrived si created a (closes_server si') =
    (si' ≡ si)
    × (addr_is_loopback a ≡ false)
    × (j : ℕ) × (get_connection si a ≡ some j)
    × Found a si.connections j
Arrived si created a (quits si') =
    (created ≡ false) ⊎ ((get_connection si a ≡ none) × (get_available_entry si ≡ none))

entry-Arrived :
    (si : Server) (created : Bool) (a : Addr) (i : ℕ) (si' : Server)
    → (j : ℕ) → get_connection si' a ≡ some j
    → Found a si'.connections j
    → Arrived si created a (with_entry created (some i, si'))
unfolding Arrived with_entry
entry-Arrived si true a i si' j q at = (refl, j, q, at)
entry-Arrived si false a i si' j q at = inl refl

new-Arrived :
    (si : Server) (created : Bool) (port : ℕ) (a : Addr)
    → IsAddr a
    → port < 2 ^ 16
    → get_connection si a ≡ none
    → Arrived si created a (with_entry created (add_connection si port a))
unfolding Arrived with_entry
new-Arrived si created port a v h new = elim (get-add si port a a v v h refl refl) [
  | inl (q, full) ↦
      subst (λ x. Arrived si created a (with_entry created x)) (sym q) (inr (new, full))
  | inr (i, j, q, found, at) ↦
      let si' = (add_connection si port a).1 in
      let q' : (some i, si') ≡ add_connection si port a = ap (λ x. (x, si')) (sym q) in
      subst (λ x. Arrived si created a (with_entry created x)) q'
        (entry-Arrived si created a i si' j found at)
]

old-Arrived :
    (si : Server) (created loopback : Bool) (a : Addr) (i : ℕ)
    → addr_is_loopback a ≡ loopback
    → get_connection si a ≡ some i
    → Arrived si created a
        (if loopback then if created then serves i si else quits si else closes_server si)
unfolding Arrived
old-Arrived si created false a i l h = (refl, l, i, h, get-Found si a i h)
old-Arrived si true true a i l h = (refl, i, h, get-Found si a i h)
old-Arrived si false true a i l h = inl refl

-- A connection from an address of a known family, when the daemons' port is below 2 ^ 16: if it is
-- served, its thread was created and looking the address up finds an entry in use with the address's IP
-- address; if the server's socket is closed, the address is no loopback, there already was such an entry,
-- and nothing changed; if the thread ends without that, the connection's thread could not be created, or
-- the address had no entry and none was available.
arrive_lem :
    (si : Server) (created : Bool) (port : ℕ) (a : Addr)
    → IsAddr a
    → port < 2 ^ 16
    → Arrived si created a (arrive si created port a)
unfolding arrive arrive_at Arrived
arrive_lem si created port a v h = elim (Option-cases (get_connection si a)) [
  | inl new ↦
      subst (λ x. Arrived si created a (arrive_at si created port a x)) (sym new)
        (new-Arrived si created port a v h new)
  | inr (i, old) ↦
      subst (λ x. Arrived si created a (arrive_at si created port a x)) (sym old)
        (old-Arrived si created (addr_is_loopback a) a i refl old)
]
