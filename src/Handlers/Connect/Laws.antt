-- ===== src/Handlers/Connect/Laws.antt =====
-- What `connect` leaves: errors change nothing; else the socket has an ephemeral port that was free.
use chitcp.Base.{
  ℕ, ◌+◌, ◌^◌, ◌<◌, ◌≤◌, ◌≡◌, ◌≢◌, refl, sym, ◌⊎◌, inl, inr, Bool, true, false, ◌||◌, [], Option,
  none, some, arith, get_elem?, get_elem?-set_self, Bool-cases, ap, ◌∙◌, ℤ, length, leb, subst, set,
  if◌then◌else◌,
}
use chitcp.Types.{closed, syn_sent, active}
use chitcp.Addr.{Addr, Family, cleared, addr_is_loopback, set_addr_port, get_addr_port, ntohs}
use chitcp.Addr.Laws.{ntohs-ntohs}
use chitcp.Server.{Server, Entry}
use chitcp.Sockets.{acquire, release, change, put_entry, find_ephemeral_port}
use chitcp.Sockets.Refs.Cases.{acquire_cases, get_elem?-lt}
use chitcp.Sockets.Restore.{release-put}
use chitcp.Sockets.Slots.{find_ephemeral_port_lem}
use chitcp.Handlers.Entries.{change-put, start_thread-sockets, Wrote, put-Wrote, Wrote-next}
use chitcp.TcpThread.{start_thread}
use chitcp.Handlers.{failed, done, waits, Errno, ebadf, ealready, econnaborted, is_state, raise}
use chitcp.Handlers.Connect.{
  connect, connect_found, connect_start, connect_resume, connecting, peer_connection, local_address,
}

-- Each time `connect` wakes up, on a socket of the table: it goes on sleeping just while the socket is in CLOSED or SYN_SENT and is not being freed; it fails just when the socket is being freed; else it succeeds. When it ends its reference is given back.
pub connect_resume_lem :
    (si : Server) (i : ℕ) (e : Entry)
    → get_elem? si.sockets i ≡ some e
    → ((connect_resume si i ≡ waits 0 si)
        × (e.freeing ≡ false)
        × ((e.tcp_state ≡ closed) ⊎ (e.tcp_state ≡ syn_sent)))
      ⊎ ((connect_resume si i ≡ failed econnaborted (release si i)) × (e.freeing ≡ true))
      ⊎ ((connect_resume si i ≡ done 0 (release si i))
          × (e.freeing ≡ false)
          × (e.tcp_state ≢ closed)
          × (e.tcp_state ≢ syn_sent))
unfolding connect_resume
connect_resume_lem si i e g = elim (Bool-cases e.freeing) [
  | inl freed ↦ inr (inl (rw (g, connect_resume, freed) (ground arith), freed))
  | inr alive ↦ elim (Bool-cases (is_state e.tcp_state closed || is_state e.tcp_state syn_sent)) [
    | inl early ↦ inl (rw (g, connect_resume, early, alive) refl, alive, ground (arith, early))
    | inr open_now ↦ inr (
        inr (
          rw (g, connect_resume, open_now, alive) refl,
          alive,
          ground (arith, open_now),
          ground (arith, open_now),
        ))
  ]
]

-- The checks of `connect`: it fails, with the reference given back and the daemon as it was, on a descriptor that cannot be acquired and on a socket that is not closed; else the handler goes on with a reference, to the peer's daemon.
pub connect_lem :
    (si : Server) (created : Bool) (daemon_port : ℕ) (fd : ℤ) (a : Addr)
    → ((c : Errno) × (connect si created daemon_port fd a ≡ failed c si)
        × ((acquire si fd ≡ (none, si))
            ⊎ ((i : ℕ) × (e : Entry) × (get_elem? si.sockets i ≡ some e) × (e.tcp_state ≢ closed))))
      ⊎ ((i : ℕ) × (e : Entry) × (get_elem? si.sockets i ≡ some e)
          × (e.available ≡ false)
          × (e.freeing ≡ false)
          × (e.tcp_state ≡ closed)
          × (connect si created daemon_port fd a
              ≡ connect_start
                  (peer_connection
                    (put_entry si i (record e { refcount = e.refcount + 1 }))
                    daemon_port
                    a)
                  created
                  i
                  a))
unfolding connect connect_found
connect_lem si created port fd a = elim (acquire_cases si fd) [
  | inl q ↦ inl (ebadf, ap (λ x. connect_found x created port a) q, inl q)
  | inr (i, e, _, g, av, fr, q) ↦
      let e' : Entry = record e { refcount = e.refcount + 1 } in
      let si' = put_entry si i e' in
      let g' = get_elem?-set_self si.sockets i e' (get_elem?-lt si.sockets i e g) in
      let r : connect si created port fd a ≡ connect_found (some i, si') created port a =
        ap (λ x. connect_found x created port a) q in
      elim (Bool-cases (is_state e.tcp_state closed)) [
        | inr other ↦ inl (
          ealready,
          r ∙ rw (g', connect_found, other) (ap (failed ealready) (release-put si i e g)),
          inr (i, e, g, ground (arith, other)),
        )
        | inl shut ↦
            inr (i, e, g, av, fr, ground (arith, shut), r ∙ rw (g', connect_found, shut) refl)
      ]
]

-- The entry of a socket that connects to `a` from the port `p`.
pub record IsConnecting (a : Addr) (p : ℕ) (e c : Entry) : Type 0 where
  pub same_use : c.available ≡ e.available
  pub held : c.refcount ≡ e.refcount
  pub is_active : c.actpas_type ≡ active
  pub shut : c.tcp_state ≡ closed
  pub to : c.remote_addr ≡ a
  pub from_family : c.local_addr.family ≡ a.family
  pub from_port : ntohs (get_addr_port c.local_addr) ≡ p
  pub loopback : addr_is_loopback a ≡ true → c.local_addr.ip ≡ a.ip
  pub anywhere : addr_is_loopback a ≡ false → c.local_addr.ip ≡ 0
  pub none_pending : c.active.tcp_data.pending_segments ≡ []
  pub woken : c.active.flags.app_connect ≡ true

set_port :
    (x : Addr) (f : Family) (p : ℕ)
    → f ≢ Family.af_unspec
    → set_addr_port (record x { family = f }) p ≡ record { family = f; ip = x.ip; port = p }
unfolding set_addr_port
set_port x Family.af_unspec p known = absurd (known refl)
set_port x Family.af_inet p known = refl
set_port x Family.af_inet6 p known = refl

get_port :
    (f : Family) (ip p : ℕ)
    → f ≢ Family.af_unspec
    → get_addr_port (record { family = f; ip = ip; port = p }) ≡ p
unfolding get_addr_port
get_port Family.af_unspec ip p known = absurd (known refl)
get_port Family.af_inet ip p known = refl
get_port Family.af_inet6 ip p known = refl

abbrev signalled : Entry → Entry
signalled = raise (λ f. record f { app_connect = true })

connecting_lem :
    (conn : Option ℕ) (a : Addr) (p : ℕ) (e : Entry)
    → a.family ≢ Family.af_unspec
    → p < 2 ^ 16
    → e.tcp_state ≡ closed
    → IsConnecting a p e (signalled (connecting conn a p e))
unfolding connecting local_address
connecting_lem conn a p e known small shut =
    let base = if addr_is_loopback a then a else cleared in
    let l : set_addr_port (record base { family = a.family }) (ntohs p)
        ≡ record { family = a.family; ip = base.ip; port = ntohs p } =
      set_port base a.family (ntohs p) known in
    record {
      same_use = refl;
      held = refl;
      is_active = refl;
      shut = shut;
      to = refl;
      from_family = ap (λ x. x.family) l;
      from_port =
          ap (λ x. ntohs (get_addr_port x)) l
          ∙ ap ntohs (get_port a.family base.ip (ntohs p) known)
          ∙ (ntohs-ntohs p small).0;
      loopback = λ h. ap (λ x. x.ip) l ∙ rw h refl;
      anywhere = λ h. ap (λ x. x.ip) l ∙ rw h refl;
      none_pending = refl;
      woken = refl;
    }

resume-eq :
    (s : Server) (i : ℕ) (c : Entry)
    → get_elem? s.sockets i ≡ some c
    → c.tcp_state ≡ closed
    → c.freeing ≡ false
    → connect_resume s i ≡ waits 0 s
unfolding connect_resume
resume-eq s i c g shut alive = rw (g, connect_resume, shut, alive) refl

start_thread-ports : (si : Server) (created : Bool) → (start_thread si created).1.ports ≡ si.ports
unfolding start_thread
start_thread-ports si created = ground arith

-- The rest of `connect`, to an address of a known family, on a closed socket in the table that is not being freed, with at most 2 ^ 16 ports of which an ephemeral one is free: the handler goes to sleep, the socket has a port that was free and connects from it to the address, the port table names the socket there, and the other sockets and ports are as they were.
pub connect_start_lem :
    (conn : Option ℕ) (si : Server) (created : Bool) (i : ℕ) (a : Addr) (e : Entry)
    → get_elem? si.sockets i ≡ some e
    → e.tcp_state ≡ closed
    → e.freeing ≡ false
    → a.family ≢ Family.af_unspec
    → length si.ports ≤ 2 ^ 16
    → (free : ℕ) → si.ephemeral_port_start ≤ free
    → get_elem? si.ports free ≡ some none
    → (p : ℕ) × (c : Entry) × (s' : Server) × (connect_start (conn, si) created i a ≡ waits 0 s')
      × (si.ephemeral_port_start ≤ p)
      × (get_elem? si.ports p ≡ some none)
      × (s'.ports ≡ set si.ports p (some i))
      × (get_elem? s'.sockets i ≡ some c)
      × IsConnecting a p e c
      × ((k : ℕ) → i ≢ k → get_elem? s'.sockets k ≡ get_elem? si.sockets k)
unfolding connect_start connecting
connect_start_lem conn si created i a e g shut alive known few free lo fr =
    elim (find_ephemeral_port_lem si few) [
      | inr (_, taken) ↦ absurd (taken free lo fr)
      | inl (above, was_free, _) ↦
          let p = find_ephemeral_port si in
          let inside : p < length si.ports = get_elem?-lt si.ports p none was_free in
          let c1 = connecting conn a p e in
          let s1 = put_entry si i c1 in
          let s2 : Server = record s1 { ports = set si.ports p (some i) } in
          let s3 = (start_thread s2 created).1 in
          let c2 = signalled c1 in
          let s4 = put_entry s3 i c2 in
          let w1 = put-Wrote si i c1 e g in
          let w3 : Wrote si i c1 s3 =
            subst
              (λ es.
                (get_elem? es i ≡ some c1)
                × ((k : ℕ) → i ≢ k → get_elem? es k ≡ get_elem? si.sockets k))
              (sym (start_thread-sockets s2 created)) w1 in
          let w4 = Wrote-next si s3 i c1 c2 w3 in
          let bound : leb (length si.ports) p ≡ false = ground (arith, inside) in
          (
            p,
            c2,
            s4,
            rw bound (
                ap
                  (λ z.
                    connect_resume
                      (change (start_thread (record z { ports = set z.ports p (some i) }) created).1
                        i signalled)
                      i)
                  (change-put si i e (connecting conn a p) g)
                ∙ ap (λ z. connect_resume z i) (change-put s3 i c1 signalled w3.0)
                ∙ resume-eq s4 i c2 w4.0 shut alive),
            above,
            was_free,
            start_thread-ports s2 created,
            w4.0,
            connecting_lem conn a p e known (omega arith) shut,
            w4.1,
          )
    ]
