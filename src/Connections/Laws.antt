-- ===== src/Connections/Laws.antt =====
-- A peer that was added is found.
use chitcp.Base.{
  ℕ, zero, suc, ◌+◌, ◌<◌, ◌^◌, ◌≡◌, ◌≢◌, refl, ◌⊎◌, inl, inr, true, false, List, [], ◌∷◌, none,
  some, arith, get_elem?, set, Option-cases, Bool-cases, sym, ap, subst, ◌∙◌,
}
use chitcp.Addr.{Addr, addr_cmp, set_addr_port, ntohs}
use chitcp.Addr.Laws.{IsAddr, addr_cmp_iff, ntohs-ntohs}
use chitcp.Server.{Server, Connection}
use chitcp.Connections.{
  matches, find, get_connection, first_entry, get_available_entry, peer_entry, add_connection,
}

-- What a search finds: the first entry in use with the address's IP address.
abbrev pub Found : Addr → List Connection → ℕ → Type 0
Found a cs j =
    (c : Connection) × (get_elem? cs j ≡ some c)
    × (c.available ≡ false)
    × (addr_cmp a c.peer_addr ≡ 0)

find-Found :
    (a : Addr) (cs : List Connection) (k i : ℕ)
    → find a cs k ≡ some i
    → (j : ℕ) × (i ≡ k + j) × Found a cs j
unfolding find matches
find-Found a [] k i h = cc (h)
find-Found a (c ∷ cs) k i h = elim (Bool-cases (matches a c)) [
  | inl here ↦ (0, ground (arith, h, here), (c, refl, ground (arith, here), ground (arith, here)))
  | inr other ↦
      let (j, q, f) = find-Found a cs (k + 1) i (ground (arith, h, other)) in
      (suc j, omega (arith, q), f)
]

pub get-Found :
    (si : Server) (a : Addr) (i : ℕ) → get_connection si a ≡ some i → Found a si.connections i
unfolding get_connection
get-Found si a i h =
    let (j, q, f) = find-Found a si.connections 0 i h in
    subst (Found a si.connections) (omega (arith, q)) f

-- An entry that matches is found, or an earlier one that matches too.
find-set :
    (a : Addr) (cs : List Connection) (c : Connection) (k m i : ℕ)
    → first_entry cs m ≡ some (m + i)
    → matches a c ≡ true
    → (j : ℕ) × (find a (set cs i c) k ≡ some j)
unfolding find first_entry
find-set a [] c k m i h good = cc (h)
find-set a (x ∷ cs) c k m zero h good = (k, ground (arith, good))
find-set a (x ∷ cs) c k m (suc i) h good = elim (Bool-cases (matches a x)) [
  | inl here ↦ (k, ground (arith, here))
  | inr other ↦ elim (Bool-cases x.available) [
    | inl free ↦ absurd (ground (arith, h, free))
    | inr used ↦
        let (j, q) = find-set a cs c (k + 1) (m + 1) i (ground (arith, h, used)) good in
        (j, ground (arith, other, q))
  ]
]

IsAddr-set_addr_port :
    (a : Addr) (port : ℕ) → IsAddr a → port < 2 ^ 16 → IsAddr (set_addr_port a port)
unfolding set_addr_port
IsAddr-set_addr_port a port v h = ground (arith, v, h)

same_host :
    (a : Addr) (port : ℕ)
    → ((set_addr_port a port).family ≡ a.family) × ((set_addr_port a port).ip ≡ a.ip)
unfolding set_addr_port
same_host a port = ground arith

matches-peer_entry :
    (a b : Addr) (port : ℕ)
    → IsAddr a
    → IsAddr b
    → port < 2 ^ 16
    → b.family ≡ a.family
    → b.ip ≡ a.ip
    → matches b (peer_entry port a) ≡ true
unfolding matches peer_entry
matches-peer_entry a b port va vb h f i =
    let p = (ntohs-ntohs port h).1 in
    let (sf, sp) = same_host a (ntohs port) in
    let z =
      (addr_cmp_iff b (set_addr_port a (ntohs port)) vb
          (IsAddr-set_addr_port a (ntohs port) va p)).1
        (f ∙ sym sf, i ∙ sym sp) in
    ground (arith, z)

-- Once a connection to a peer is added, looking up any address of that peer, of a known family and
-- whatever the ports, finds a connection in use whose IP address compares equal to it; adding fails,
-- with nothing changed, only when no entry is available.
pub get-add :
    (si : Server) (port : ℕ) (a b : Addr)
    → IsAddr a
    → IsAddr b
    → port < 2 ^ 16
    → b.family ≡ a.family
    → b.ip ≡ a.ip
    → ((add_connection si port a ≡ (none, si)) × (get_available_entry si ≡ none))
      ⊎ ((i : ℕ) × (j : ℕ) × ((add_connection si port a).0 ≡ some i)
          × (get_connection (add_connection si port a).1 b ≡ some j)
          × Found b (add_connection si port a).1.connections j)
unfolding get_connection get_available_entry add_connection
get-add si port a b va vb h f ip = elim (Option-cases (first_entry si.connections 0)) [
  | inl full ↦ inl (rw (full, add_connection) refl, full)
  | inr (i, free) ↦
      let cs = set si.connections i (peer_entry port a) in
      let q : add_connection si port a ≡ (some i, record si { connections = cs }) =
        rw (free, add_connection) refl in
      let good = matches-peer_entry a b port va vb h f ip in
      let (j, found) =
        find-set b si.connections (peer_entry port a) 0 0 i (free ∙ ap some (omega arith)) good in
      let (j', e, at) = find-Found b cs 0 j found in
      let e' : j' ≡ j = omega arith in
      let r = subst (Found b cs) e' at in
      inr (
        i,
        j,
        ap (λ x. x.0) q,
        ap (λ x. get_connection x.1 b) q ∙ found,
        subst (λ x. Found b x.connections j) (sym (ap (λ x. x.1) q)) r,
      )
]

-- Nothing that a search passes over matches.
find-none :
    (a : Addr) (cs : List Connection) (k j : ℕ) (c : Connection)
    → find a cs k ≡ none
    → get_elem? cs j ≡ some c
    → matches a c ≡ false
unfolding find
find-none a [] k j c h g = cc (g)
find-none a (x ∷ cs) k zero c h g = ground (arith, h, g)
find-none a (x ∷ cs) k (suc j) c h g = elim (Bool-cases (matches a x)) [
  | inl here ↦ absurd (ground (arith, h, here))
  | inr other ↦ find-none a cs (k + 1) j c (ground (arith, h, other)) g
]

-- An address with no connection is of no host that has one.
pub get_connection-none :
    (si : Server) (a : Addr) (j : ℕ) (c : Connection)
    → get_connection si a ≡ none
    → IsAddr a
    → get_elem? si.connections j ≡ some c
    → c.available ≡ false
    → IsAddr c.peer_addr
    → a.family ≡ c.peer_addr.family
    → a.ip ≢ c.peer_addr.ip
unfolding get_connection matches
get_connection-none si a j c h va g used vc f i =
    let cmp = (addr_cmp_iff a c.peer_addr va vc).1 (f, i) in
    let m = find-none a si.connections 0 j c h g in absurd (ground (arith, m, cmp, used))

-- What adding a connection changes: nothing, or one entry, which is then in use for the same host.
pub add_connection-set :
    (si : Server) (port : ℕ) (a : Addr)
    → IsAddr a
    → port < 2 ^ 16
    → (add_connection si port a ≡ (none, si))
      ⊎ ((i : ℕ) × (c : Connection) × (add_connection si port a
            ≡ (some i, record si { connections = set si.connections i c }))
          × (c.available ≡ false)
          × IsAddr c.peer_addr
          × (c.peer_addr.family ≡ a.family)
          × (c.peer_addr.ip ≡ a.ip))
unfolding add_connection peer_entry
add_connection-set si port a v h = elim (Option-cases (get_available_entry si)) [
  | inl full ↦ inl (rw (full, add_connection) refl)
  | inr (i, free) ↦
      let (f, p) = same_host a (ntohs port) in
      inr (
        i,
        peer_entry port a,
        rw (free, add_connection) refl,
        refl,
        IsAddr-set_addr_port a (ntohs port) v (ntohs-ntohs port h).1,
        f,
        p,
      )
]
