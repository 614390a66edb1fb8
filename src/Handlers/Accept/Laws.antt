-- ===== src/Handlers/Accept/Laws.antt =====
-- What `accept` leaves: errors change nothing, and a pending connection becomes a socket of its own.
use chitcp.Base.{
  ℕ, ◌+◌, ◌≡◌, ◌≢◌, refl, sym, ◌⊎◌, inl, inr, Bool, true, false, ◌||◌, List, [], ◌∷◌, Option, none,
  some, arith, get_elem?, get_elem?-set_self, get_elem?-set_ne, Bool-cases, ap, ◌∙◌, ℤ, subst,
}
use chitcp.Types.{listen, syn_rcvd, active, passive}
use chitcp.Server.{Server, Entry, Pending}
use chitcp.Sockets.{acquire, release, allocate, allocated, change, put_entry}
use chitcp.Sockets.Refs.Cases.{acquire_cases, acquire-eq, allocate_cases, get_elem?-lt}
use chitcp.Sockets.Restore.{release-put}
use chitcp.Handlers.Entries.{change-put, start_thread-sockets, Wrote, put-Wrote, Wrote-next}
use chitcp.Connections.{get_connection}
use chitcp.TcpThread.{start_thread}
use chitcp.Handlers.{Errno, ebadf, einval, enomem, econnaborted, is_state, is_type, raise}
use chitcp.Handlers.Accept.{
  failed, waits_open, accepted, accept_open, accept_resume, spawned, spawned_state, queued,
  accept_prepare, accept_queue, accept_start, accept_spawn, accept_take, accept_wake, accept_found,
  accept,
}

wake-eq :
    (si : Server) (thread : ℕ) (created : Bool) (i : ℕ) (e : Entry)
    → get_elem? si.sockets i ≡ some e
    → accept_wake si thread created i
      ≡ accept_take si thread created i e e.passive.pending_connections
unfolding accept_wake
wake-eq si thread created i e g = rw (g, accept_wake) refl

-- The checks: they fail, with the reference given back and the daemon as it was, on a descriptor that cannot be acquired and on a socket that is not passive or does not listen; else the handler goes on to the pending connections with a reference.
pub accept_lem :
    (si : Server) (thread : ℕ) (created : Bool) (fd : ℤ)
    → ((c : Errno) × (accept si thread created fd ≡ failed c si)
        × ((acquire si fd ≡ (none, si))
            ⊎ ((i : ℕ) × (e : Entry) × (get_elem? si.sockets i ≡ some e)
                × ((e.actpas_type ≢ passive) ⊎ (e.tcp_state ≢ listen)))))
      ⊎ ((i : ℕ) × (e : Entry) × (get_elem? si.sockets i ≡ some e)
          × (e.available ≡ false)
          × (e.freeing ≡ false)
          × (e.actpas_type ≡ passive)
          × (e.tcp_state ≡ listen)
          × (accept si thread created fd
              ≡ accept_take
                  (put_entry si i (record e { refcount = e.refcount + 1 }))
                  thread
                  created
                  i
                  (record e { refcount = e.refcount + 1 })
                  e.passive.pending_connections))
unfolding accept accept_found accept_wake
accept_lem si thread created fd = elim (acquire_cases si fd) [
  | inl q ↦ inl (ebadf, ap (λ x. accept_found x thread created) q, inl q)
  | inr (i, e, _, g, av, fr, q) ↦
      let e' : Entry = record e { refcount = e.refcount + 1 } in
      let si' = put_entry si i e' in
      let g' = get_elem?-set_self si.sockets i e' (get_elem?-lt si.sockets i e g) in
      let r : accept si thread created fd ≡ accept_found (some i, si') thread created =
        ap (λ x. accept_found x thread created) q in
      let back = release-put si i e g in
      elim (Bool-cases (is_type e.actpas_type passive)) [
        | inr other ↦ inl (
          einval,
          r ∙ rw (g', accept_found, other) (ap (failed einval) back),
          inr (i, e, g, inl (ground (arith, other))),
        )
        | inl is_passive ↦ elim (Bool-cases (is_state e.tcp_state listen)) [
          | inr other ↦ inl (
            einval,
            r ∙ rw (g', accept_found, is_passive, other) (ap (failed einval) back),
            inr (i, e, g, inr (ground (arith, other))),
          )
          | inl listens ↦ inr (
            i,
            e,
            g,
            av,
            fr,
            ground (arith, is_passive),
            ground (arith, listens),
            r ∙ rw (g', accept_found, is_passive, listens) (wake-eq si' thread created i e' g'),
          )
        ]
      ]
]

-- A new socket for a pending connection of the passive socket `i`.
pub record IsChild (i : ℕ) (parent : Entry) (p : Pending) (c : Entry) : Type 0 where
  pub used : c.available ≡ false
  pub alive : c.freeing ≡ false
  pub is_active : c.actpas_type ≡ active
  pub listens : c.tcp_state ≡ listen
  pub from : c.local_addr ≡ p.local_addr
  pub to : c.remote_addr ≡ p.remote_addr
  pub first : c.active.tcp_data.pending_segments ≡ p.initial_segment ∷ []
  pub child_of : c.active.parent_socket ≡ some i
  pub woken : c.active.flags.net_recv ≡ true
  pub same_domain : c.domain ≡ parent.domain
  pub same_type : c.type ≡ parent.type
  pub same_protocol : c.protocol ≡ parent.protocol

-- The entry of the new socket when the handler goes to sleep.
abbrev child : Option ℕ → ℕ → ℕ → Entry → Pending → Entry → Entry
child connection thread i parent p x =
    let a = allocated thread x in
    raise (λ f. record f { net_recv = true })
      (queued p (spawned connection i parent p (record a { refcount = a.refcount + 1 })))

child-IsChild :
    (connection : Option ℕ) (thread i : ℕ) (parent : Entry) (p : Pending) (x : Entry)
    → x.freeing ≡ false
    → IsChild i parent p (child connection thread i parent p x)
unfolding queued spawned spawned_state
child-IsChild connection thread i parent p x alive = record {
  used = refl;
  alive = alive;
  is_active = refl;
  listens = refl;
  from = refl;
  to = refl;
  first = refl;
  child_of = refl;
  woken = refl;
  same_domain = refl;
  same_type = refl;
  same_protocol = refl;
}

opening :
    (s : Server) (i j : ℕ) (c : Entry)
    → get_elem? s.sockets j ≡ some c
    → c.tcp_state ≡ listen
    → c.freeing ≡ false
    → accept_resume s i j ≡ waits_open i j s
unfolding accept_resume accept_open
opening s i j c g listens alive = rw (g, accept_resume, listens, alive) refl

-- Start with the reference to the new socket.
start_lem :
    (si s : Server) (created : Bool) (i j : ℕ) (parent : Entry) (p : Pending) (c : Entry)
    → Wrote si j c s
    → c.freeing ≡ false
    → (s' : Server) × (accept_start (some j, s) created i parent p ≡ waits_open i j s')
      × Wrote si j
          (raise
            (λ f. record f { net_recv = true })
            (queued p (spawned (get_connection s p.remote_addr) i parent p c)))
          s'
unfolding accept_start accept_prepare accept_queue spawned queued
start_lem si s created i j parent p c wr alive =
    let fill = spawned (get_connection s p.remote_addr) i parent p in
    let c0 = fill c in
    let s0 = put_entry s j c0 in
    let c1 = queued p c0 in
    let s1 = put_entry s0 j c1 in
    let s2 = (start_thread s1 created).1 in
    let c2 = raise (λ f. record f { net_recv = true }) c1 in
    let s3 = put_entry s2 j c2 in
    let w0 = Wrote-next si s j c c0 wr in
    let w1 = Wrote-next si s0 j c0 c1 w0 in
    let same : s2.sockets ≡ s1.sockets = start_thread-sockets s1 created in
    let w2 : Wrote si j c1 s2 =
      subst
        (λ es.
          (get_elem? es j ≡ some c1) × ((k : ℕ) → j ≢ k → get_elem? es k ≡ get_elem? si.sockets k))
        (sym same) w1 in
    let w3 = Wrote-next si s2 j c1 c2 w2 in
    let woke : Entry → Entry = raise (λ f. record f { net_recv = true }) in
    (
      s3,
      ap (λ z. accept_queue z created i j p) (change-put s j c fill wr.0)
          ∙ ap (λ z. accept_resume (change (start_thread z created).1 j woke) i j)
              (change-put s0 j c0 (queued p) w0.0)
          ∙ ap (λ z. accept_resume z i j) (change-put s2 j c1 woke w2.0)
          ∙ opening s3 i j c2 w3.0 refl alive,
      w3,
    )

-- With a slot for the new socket.
spawn_lem :
    (si : Server) (thread : ℕ) (created : Bool) (i j : ℕ) (parent : Entry) (p : Pending) (x : Entry)
    → get_elem? si.sockets j ≡ some x
    → x.freeing ≡ false
    → (s' : Server) × (conn : Option ℕ) × (accept_spawn
          (some j, change si j (allocated thread))
          created
          i
          parent
          p
        ≡ waits_open i j s')
      × Wrote si j (child conn thread i parent p x) s'
unfolding accept_spawn
spawn_lem si thread created i j parent p x g alive =
    let a = allocated thread x in
    let a' : Entry = record a { refcount = a.refcount + 1 } in
    let s1 = put_entry si j a in
    let wr = put-Wrote si j a x g in
    let s2 = put_entry s1 j a' in
    let wr2 = Wrote-next si s1 j a a' wr in
    let conn = get_connection s2 p.remote_addr in
    let (s', e, w) = start_lem si s2 created i j parent p a' wr2 alive in
    (
      s',
      conn,
      ap (λ z. accept_start (acquire z (ℤ.pos j)) created i parent p)
            (change-put si j x (allocated thread) g)
          ∙ ap (λ z. accept_start z created i parent p) (acquire-eq s1 j a wr.0 refl alive)
          ∙ e,
      w,
    )

abbrev is_available : Option Entry → Bool
is_available none = false
is_available (some x) = x.available

differ :
    (es : List Entry) (i j : ℕ) (a b : Entry)
    → get_elem? es i ≡ some a
    → get_elem? es j ≡ some b
    → a.available ≡ false
    → b.available ≡ true
    → i ≢ j
differ es i j a b ga gb used free same =
    let q : a.available ≡ b.available = ap is_available (sym ga ∙ ap (get_elem? es) same ∙ gb) in
    cc (q, used, free)

-- The handler with a reference to a passive socket `i` that is in use and not being freed, when connections are pending, in a daemon where no free slot is being freed: it takes the first one off. Without a free slot it fails, its reference given back. Else a free slot becomes a socket of the connection's addresses with its first segment pending and its thread woken, in LISTEN; the other sockets are as they were; and the handler waits for the handshake, with references to both sockets.
pub accept_take_lem :
    (si : Server) (thread : ℕ) (created : Bool) (i : ℕ) (e : Entry) (p : Pending)
    (ps : List Pending)
    → get_elem? si.sockets i ≡ some e
    → e.available ≡ false
    → e.freeing ≡ false
    → ((j : ℕ) (x : Entry)
        → get_elem? si.sockets j ≡ some x
        → x.available ≡ true
        → x.freeing ≡ false)
    → let e' : Entry = record e { passive = record e.passive { pending_connections = ps } } in
      let taken = put_entry si i e' in
      let o = accept_take si thread created i e (p ∷ ps) in
      ((o ≡ failed enomem (release taken i)) × (allocate taken thread ≡ (none, taken)))
      ⊎ ((j : ℕ) × (x : Entry) × (c : Entry) × (s' : Server) × (o ≡ waits_open i j s')
          × (get_elem? si.sockets j ≡ some x)
          × (x.available ≡ true)
          × (get_elem? s'.sockets i ≡ some e')
          × (get_elem? s'.sockets j ≡ some c)
          × IsChild i e p c
          × ((k : ℕ) → k ≢ i → k ≢ j → get_elem? s'.sockets k ≡ get_elem? si.sockets k))
unfolding accept_take accept_spawn
accept_take_lem si thread created i e p ps g used alive sound =
    let e' : Entry = record e { passive = record e.passive { pending_connections = ps } } in
    let taken = put_entry si i e' in
    let gi : get_elem? taken.sockets i ≡ some e' =
      get_elem?-set_self si.sockets i e' (get_elem?-lt si.sockets i e g) in
    let r : accept_take si thread created i e (p ∷ ps)
        ≡ accept_spawn (allocate taken thread) created i e p =
      rw alive refl in
    elim (allocate_cases taken thread) [
      | inl (q, full) ↦ inl (r ∙ ap (λ z. accept_spawn z created i e p) q, q)
      | inr (j, x, q, gj, av) ↦
          let apart : i ≢ j = differ taken.sockets i j e' x gi gj used av in
          let gx : get_elem? si.sockets j ≡ some x =
            sym (get_elem?-set_ne si.sockets i j e' apart) ∙ gj in
          let (s', conn, w, wr) = spawn_lem taken thread created i j e p x gj (sound j x gx av) in
          inr (
            j,
            x,
            child conn thread i e p x,
            s',
            r ∙ ap (λ z. accept_spawn z created i e p) q ∙ w,
            gx,
            av,
            wr.1 i (λ same. apart (sym same)) ∙ gi,
            wr.0,
            child-IsChild conn thread i e p x (sound j x gx av),
            λ k ni nj.
                wr.1 k (λ same. nj (sym same))
                ∙ get_elem?-set_ne si.sockets i k e' (λ same. ni (sym same)),
          )
    ]

-- Each time the handler wakes up from its wait for the handshake of socket `j`, whose entry is in the table: it goes on sleeping just while the socket is in LISTEN or SYN_RCVD and is not being freed; it fails just when the socket is being freed; else it returns the socket and its remote address. When it ends, both references are given back.
pub accept_resume_lem :
    (si : Server) (i j : ℕ) (e : Entry)
    → get_elem? si.sockets j ≡ some e
    → ((accept_resume si i j ≡ waits_open i j si)
        × (e.freeing ≡ false)
        × ((e.tcp_state ≡ listen) ⊎ (e.tcp_state ≡ syn_rcvd)))
      ⊎ ((accept_resume si i j ≡ failed econnaborted (release (release si j) i))
          × (e.freeing ≡ true))
      ⊎ ((accept_resume si i j ≡ accepted j e.remote_addr (release (release si j) i))
          × (e.freeing ≡ false)
          × (e.tcp_state ≢ listen)
          × (e.tcp_state ≢ syn_rcvd))
unfolding accept_resume accept_open
accept_resume_lem si i j e g = elim (Bool-cases e.freeing) [
  | inl freed ↦ inr (inl (rw (g, accept_resume, freed) (ground arith), freed))
  | inr alive ↦ elim (Bool-cases (is_state e.tcp_state listen || is_state e.tcp_state syn_rcvd)) [
    | inl waits ↦ inl (rw (g, accept_resume, waits, alive) refl, alive, ground (arith, waits))
    | inr open_now ↦ inr (
        inr (
          rw (g, accept_resume, open_now, alive) refl,
          alive,
          ground (arith, open_now),
          ground (arith, open_now),
        ))
  ]
]
