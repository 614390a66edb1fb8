-- ===== src/Lifecycle/Network/Laws.antt =====
-- The network thread keeps one connection for each peer.
use chitcp.Base.{
  ℕ, zero, suc, ◌<◌, ◌^◌, ◌≡◌, refl, ◌⊎◌, inl, inr, Bool, true, false, List, [], ◌∷◌, Option, none,
  some, get_elem?, set, Option-cases, Bool-cases, sym, ap, subst, ◌∙◌, if◌then◌else◌,
}
use chitcp.Addr.{Addr, addr_is_loopback}
use chitcp.Addr.Laws.{IsAddr}
use chitcp.Server.{Server, Connection}
use chitcp.Connections.{get_connection, add_connection}
use chitcp.Connections.Laws.{get_connection-none, add_connection-set}
use chitcp.Lifecycle.{Arrival, serves, closes_server, quits, with_entry, arrive_at, arrive}
use chitcp.Lifecycle.Network.{
  Knock, error, from, Ending, goes_on, shuts, closed_server, quit, after_arrival, network_thread,
  is_stopping,
}

-- The same host
abbrev pub SameHost : Addr → Addr → Type 0
SameHost a b = (a.family ≡ b.family) × (a.ip ≡ b.ip)

-- The entries in use have addresses of known families, and no two are of the same host.
pub record Distinct (cs : List Connection) : Type 0 where
  pub known :
      (i : ℕ) (c : Connection) → get_elem? cs i ≡ some c → c.available ≡ false → IsAddr c.peer_addr
  pub one :
      (i j : ℕ) (c d : Connection)
      → get_elem? cs i ≡ some c
      → get_elem? cs j ≡ some d
      → c.available ≡ false
      → d.available ≡ false
      → SameHost c.peer_addr d.peer_addr
      → i ≡ j

flip : (a b : Addr) → SameHost a b → SameHost b a
flip a b (f, i) = (sym f, sym i)

get-set {ℓ} :
    {A : Type ℓ} (xs : List A) (i j : ℕ) (v x : A)
    → get_elem? (set xs i v) j ≡ some x
    → ((j ≡ i) × (x ≡ v)) ⊎ (get_elem? xs j ≡ some x)
get-set [] i j v x h = inr h
get-set (y ∷ ys) zero zero v x h = inl (refl, cc (h))
get-set (y ∷ ys) zero (suc j) v x h = inr h
get-set (y ∷ ys) (suc i) zero v x h = inr h
get-set (y ∷ ys) (suc i) (suc j) v x h = elim (get-set ys i j v x h) [
  | inl (p, q) ↦ inl (ap suc p, q)
  | inr old ↦ inr old
]

set-Distinct :
    (cs : List Connection) (i : ℕ) (e : Connection)
    → Distinct cs
    → IsAddr e.peer_addr
    → ((j : ℕ) (d : Connection)
        → get_elem? cs j ≡ some d
        → d.available ≡ false
        → ¬ SameHost e.peer_addr d.peer_addr)
    → Distinct (set cs i e)
set-Distinct cs i e dis v new = record {
  known = λ j c g used. elim (get-set cs i j e c g) [
    | inl (at, is) ↦ subst (λ (x : Connection). IsAddr x.peer_addr) (sym is) v
    | inr old ↦ dis.known j c old used
  ];
  one = λ j k c d g g' used used' same. elim (get-set cs i j e c g) [
    | inl (at, is) ↦ elim (get-set cs i k e d g') [
      | inl (at', is') ↦ at ∙ sym at'
      | inr old' ↦ absurd (
          new k d old' used' (subst (λ (x : Connection). SameHost x.peer_addr d.peer_addr) is same))
    ]
    | inr old ↦ elim (get-set cs i k e d g') [
      | inl (at', is') ↦ absurd (
          new j c old used (
            flip c.peer_addr e.peer_addr
              (subst (λ (x : Connection). SameHost c.peer_addr x.peer_addr) is' same)))
      | inr old' ↦ dis.one j k c d old old' used used' same
    ]
  ];
}

add-Distinct :
    (si : Server) (port : ℕ) (a : Addr)
    → Distinct si.connections
    → IsAddr a
    → port < 2 ^ 16
    → get_connection si a ≡ none
    → Distinct (add_connection si port a).1.connections
add-Distinct si port a dis v h new = elim (add_connection-set si port a v h) [
  | inl same ↦ subst (λ (x : Option ℕ × Server). Distinct x.1.connections) (sym same) dis
  | inr (i, c, q, used, vc, f, p) ↦
      subst (λ (x : Option ℕ × Server). Distinct x.1.connections) (sym q)
        (set-Distinct si.connections i c dis vc (λ j d g used' same.
          get_connection-none si a j d new v g used' (dis.known j d g used') (sym f ∙ same.0)
            (sym p ∙ same.1)))
]

-- The daemon's state that an arrival leaves.
abbrev left_by : Arrival → Server
left_by (serves i si) = si
left_by (closes_server si) = si
left_by (quits si) = si

with_entry-left : (created : Bool) (x : Option ℕ × Server) → left_by (with_entry created x) ≡ x.1
unfolding with_entry
with_entry-left created (none, si) = refl
with_entry-left true (some i, si) = refl
with_entry-left false (some i, si) = refl

old-left :
    (si : Server) (created loopback : Bool) (i : ℕ)
    → left_by (if loopback then if created then serves i si else quits si else closes_server si)
      ≡ si
old-left si created false i = refl
old-left si true true i = refl
old-left si false true i = refl

arrive-Distinct :
    (si : Server) (created : Bool) (port : ℕ) (a : Addr)
    → Distinct si.connections
    → IsAddr a
    → port < 2 ^ 16
    → Distinct (left_by (arrive si created port a)).connections
unfolding arrive arrive_at
arrive-Distinct si created port a dis v h = elim (Option-cases (get_connection si a)) [
  | inl new ↦
      subst (λ x. Distinct (left_by (arrive_at si created port a x)).connections) (sym new)
        (subst (λ (x : Server). Distinct x.connections)
          (sym (with_entry-left created (add_connection si port a)))
          (add-Distinct si port a dis v h new))
  | inr (i, old) ↦
      subst (λ x. Distinct (left_by (arrive_at si created port a x)).connections) (sym old)
        (subst (λ (x : Server). Distinct x.connections)
          (sym (old-left si created (addr_is_loopback a) i)) dis)
]

-- The daemon's state when the network thread stops, or waits.
abbrev pub end_of : Ending → Server
end_of (goes_on si) = si
end_of (shuts is si) = si
end_of (closed_server si) = si
end_of (quit si) = si

abbrev pub AllKnown : List Knock → Type 0
AllKnown [] = Unit {0}
AllKnown (error s ∷ ks) = AllKnown ks
AllKnown (from a created ∷ ks) = IsAddr a × AllKnown ks

-- Whatever `accept` returns to the network thread, when no other thread adds connections meanwhile (a
-- request to connect does, without a lock) and when the addresses that connect are of known families
-- and the daemons' port is below 2 ^ 16: if no two connections in use were of one host at the start, and
-- their addresses were of known families, so it is when the thread ends or waits.
network_thread-Distinct :
    (port : ℕ) (ks : List Knock) (si : Server)
    → port < 2 ^ 16
    → AllKnown ks
    → Distinct si.connections
    → Distinct (end_of (network_thread port ks si)).connections
unfolding network_thread after_arrival
network_thread-Distinct port [] si h all dis = dis
network_thread-Distinct port (error s ∷ ks) si h all dis = elim (Bool-cases (is_stopping s)) [
  | inl stop ↦ rw (stop) dis
  | inr more ↦ rw (more) (network_thread-Distinct port ks si h all dis)
]
network_thread-Distinct port (from a created ∷ ks) si h (v, all) dis =
    arrived (arrive si created port a) (arrive-Distinct si created port a dis v h)
      (λ si'. network_thread-Distinct port ks si' h all)
  where
    arrived :
        (x : Arrival)
        → Distinct (left_by x).connections
        → ((si' : Server)
            → Distinct si'.connections
            → Distinct (end_of (network_thread port ks si')).connections)
        → Distinct (end_of (after_arrival (network_thread port ks) x)).connections
    arrived (serves i si') d rest = rest si' d
    arrived (closes_server si') d rest = d
    arrived (quits si') d rest = d
