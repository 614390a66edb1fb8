-- ===== src/Segments/Laws.antt =====
-- What a new segment holds, and what its receiver makes of its ports.
use chitcp.Base.{
  ℕ, suc, zero, ◌+◌, ◌*◌, ◌/◌, ◌%◌, ◌^◌, ◌<◌, ◌≤◌, ◌≡◌, refl, sym, ap, ◌∙◌, List, [], ◌∷◌, lt→ltb,
  length, get_or, set, take, drop, replicate, copy_at, arith, length-set, length-copy_at,
  length-replicate, inl, get_or-copy_at_out, length-take, drop-copy_at, get_or-set_self,
  get_or-set_ne, drop_all, ◌≢◌,
}
use chitcp.Addr.{Addr, Family, get_addr_port, set_addr_port, ntohs}
use chitcp.Addr.Laws.{IsAddr}
use chitcp.Server.{Segment, Entry, source_port, dest_port}
use chitcp.Delivery.{local_of, remote_of}
use chitcp.Segments.{
  ntohl, doff, segment_init, payload, payload_len, seg_len, seg_seq, seg_ack, seg_wnd, seg_up,
  set_header_ports, segment_create, header_size, set_doff, get16, put16,
}

-- The conversion of 32-bit numbers is its own inverse.
pub ntohl-ntohl : (x : ℕ) → x < 2 ^ 32 → (ntohl (ntohl x) ≡ x) × (ntohl x < 2 ^ 32)
unfolding ntohl
ntohl-ntohl x h = (omega arith, omega arith)

drop-set : (xs : List ℕ) (i n : ℕ) (v : ℕ) → i < n → drop n (set xs i v) ≡ drop n xs
drop-set [] i n v h = refl
drop-set (x ∷ xs) i zero v h = elim h [ ]
drop-set (x ∷ xs) zero (suc n) v h = refl
drop-set (x ∷ xs) (suc i) (suc n) v h = drop-set xs i n v (omega arith)

get_or-replicate : (n i : ℕ) → ◌≡◌ {A = ℕ} (get_or (replicate n 0) i 0) 0
get_or-replicate zero i = refl
get_or-replicate (suc n) zero = refl
get_or-replicate (suc n) (suc i) = get_or-replicate n i

-- The bytes of a new segment: the cleared header with its offset, then the payload.
pub record IsInit (bytes : List ℕ) (len : ℕ) (s : Segment) : Type 0 where
  pub long : length s ≡ header_size + len
  pub body : drop header_size s ≡ take len bytes
  pub offset : get_or s 12 0 ≡ 80
  pub clear : (i : ℕ) → 4 ≤ i → i < header_size → i ≢ 12 → get_or s i 0 ≡ 0

abbrev blank : ℕ → Segment
blank len = set_doff (replicate (header_size + len) 0) (header_size / 4)

length-blank : (len : ℕ) → length (blank len) ≡ header_size + len
length-blank len = length-set _ 12 _ ∙ length-replicate (header_size + len) 0

blank-offset : (len : ℕ) → get_or (blank len) 12 0 ≡ 80
blank-offset len =
    get_or-set_self _ 12 _ 0 (omega (arith, length-replicate {A = ℕ} (header_size + len) 0))
    ∙ ap (λ b. b % 16 + 80) (get_or-replicate (header_size + len) 12)

blank-clear : (len i : ℕ) → i ≢ 12 → get_or (blank len) i 0 ≡ 0
blank-clear len i ne =
    get_or-set_ne _ 12 i _ 0 (λ e. ne (sym e)) ∙ get_or-replicate (header_size + len) i

segment_init-IsInit :
    (bytes : List ℕ) (len : ℕ) → len ≤ length bytes → IsInit bytes len (segment_init bytes len)
unfolding segment_init
segment_init-IsInit bytes zero h = record {
  long = length-blank 0;
  body = drop_all header_size (blank 0) (omega (arith, length-blank 0));
  offset = blank-offset 0;
  clear = λ i lo lt ne. blank-clear 0 i ne;
}
segment_init-IsInit bytes (suc n) h =
    let xs = blank (suc n) in
    let ys = take (suc n) bytes in
    let t : IsInit bytes (suc n) (copy_at xs header_size ys) = record {
      long = length-copy_at xs header_size ys ∙ length-blank (suc n);
      body =
          drop-copy_at xs header_size ys
            (omega (arith, length-blank (suc n), length-take (suc n) bytes h));
      offset = get_or-copy_at_out xs header_size ys 12 0 (inl (omega arith)) ∙ blank-offset (suc n);
      clear = λ i lo lt ne.
          get_or-copy_at_out xs header_size ys i 0 (inl lt) ∙ blank-clear (suc n) i ne;
    } in
    rw (lt→ltb 0 (suc n) (omega arith)) t

-- The ports go to the first four bytes.
ports-head : (s : Segment) (p q i : ℕ) → 4 ≤ i → get_or (put16 (put16 s 0 p) 2 q) i 0 ≡ get_or s i 0
ports-head s p q i h =
    get_or-set_ne _ (2 + 1) i _ 0 (λ e. absurd (omega arith))
    ∙ get_or-set_ne _ 2 i _ 0 (λ e. absurd (omega arith))
    ∙ get_or-set_ne _ (0 + 1) i _ 0 (λ e. absurd (omega arith))
    ∙ get_or-set_ne s 0 i _ 0 (λ e. absurd (omega arith))

drop-put16 : (s : Segment) (i n v : ℕ) → i + 1 < n → drop n (put16 s i v) ≡ drop n s
drop-put16 s i n v h =
    drop-set (set s i (v % 256)) (i + 1) n (v / 256 % 256) h
    ∙ drop-set s i n (v % 256) (omega arith)

ports-body :
    (s : Segment) (p q : ℕ) → drop header_size (put16 (put16 s 0 p) 2 q) ≡ drop header_size s
ports-body s p q =
    drop-put16 (put16 s 0 p) 2 header_size q (omega arith)
    ∙ drop-put16 s 0 header_size p (omega arith)

ports-long : (s : Segment) (p q : ℕ) → length (put16 (put16 s 0 p) 2 q) ≡ length s
ports-long s p q =
    length-set _ (2 + 1) _ ∙ length-set _ 2 _ ∙ length-set _ (0 + 1) _ ∙ length-set s 0 _

ports-low :
    (s : Segment) (p q : ℕ)
    → header_size ≤ length s
    → p < 2 ^ 16
    → get16 (put16 (put16 s 0 p) 2 q) 0 ≡ p
ports-low (a ∷ b ∷ c ∷ d ∷ s) p q h lt = omega arith
ports-low [] p q h lt = absurd (omega arith)
ports-low (a ∷ []) p q h lt = absurd (omega arith)
ports-low (a ∷ b ∷ []) p q h lt = absurd (omega arith)
ports-low (a ∷ b ∷ c ∷ []) p q h lt = absurd (omega arith)

ports-high :
    (s : Segment) (p q : ℕ)
    → header_size ≤ length s
    → q < 2 ^ 16
    → get16 (put16 (put16 s 0 p) 2 q) 2 ≡ q
ports-high (a ∷ b ∷ c ∷ d ∷ s) p q h lt = omega arith
ports-high [] p q h lt = absurd (omega arith)
ports-high (a ∷ []) p q h lt = absurd (omega arith)
ports-high (a ∷ b ∷ []) p q h lt = absurd (omega arith)
ports-high (a ∷ b ∷ c ∷ []) p q h lt = absurd (omega arith)

create-IsInit :
    (e : Entry) (bytes : List ℕ) (len : ℕ)
    → len ≤ length bytes
    → IsInit bytes len (segment_create e bytes len)
unfolding segment_create set_header_ports
create-IsInit e bytes len h =
    let t = segment_init-IsInit bytes len h in
    let raw = segment_init bytes len in
    let p = get_addr_port e.local_addr in
    let q = get_addr_port e.remote_addr in
    record {
      long = ports-long raw p q ∙ t.long;
      body = ports-body raw p q ∙ t.body;
      offset = ports-head raw p q 12 (omega arith) ∙ t.offset;
      clear = λ i lo hi ne. ports-head raw p q i lo ∙ t.clear i lo hi ne;
    }

-- What the macros read in a new segment.
pub record IsCreated (e : Entry) (bytes : List ℕ) (len : ℕ) (s : Segment) : Type 0 where
  pub long : length s ≡ header_size + len
  pub sent : payload s ≡ take len bytes
  pub sent_len : payload_len s ≡ len
  pub span : seg_len s ≡ len
  pub seq : seg_seq s ≡ 0
  pub ack : seg_ack s ≡ 0
  pub wnd : seg_wnd s ≡ 0
  pub up : seg_up s ≡ 0
  pub from : source_port s ≡ get_addr_port e.local_addr
  pub to : dest_port s ≡ get_addr_port e.remote_addr

-- A segment created with a payload of `len` bytes, fewer than 2 ^ 16 and no more than there are, by a socket whose ports fit in 16 bits: the macros find the payload and its length, the ports of the socket, and zero elsewhere.
segment_create_lem :
    (e : Entry) (bytes : List ℕ) (len : ℕ)
    → len ≤ length bytes
    → len < 2 ^ 16
    → get_addr_port e.local_addr < 2 ^ 16
    → get_addr_port e.remote_addr < 2 ^ 16
    → IsCreated e bytes len (segment_create e bytes len)
unfolding segment_create set_header_ports payload payload_len doff seg_len seg_seq seg_ack seg_wnd
    seg_up ntohl ntohs source_port dest_port
segment_create_lem e bytes len h small lp rp =
    let raw = segment_init bytes len in
    let s = segment_create e bytes len in
    let t0 = segment_init-IsInit bytes len h in
    let t : IsInit bytes len s = create-IsInit e bytes len h in
    let z : (i : ℕ) → 4 ≤ i → i < header_size → i ≢ 12 → get_or s i 0 ≡ 0 = t.clear in
    record {
      long = t.long;
      sent = ap (λ d. drop (4 * (d / 16 % 16)) s) t.offset ∙ t.body;
      sent_len = omega (arith, t.offset, t.long);
      span = omega (arith, t.offset, t.long, z 13);
      seq = omega (arith, z 4, z 5, z 6, z 7);
      ack = omega (arith, z 8, z 9, z 10, z 11);
      wnd = omega (arith, z 14, z 15);
      up = omega (arith, z 18, z 19);
      from = ports-low raw _ _ (omega (arith, t0.long)) lp;
      to = ports-high raw _ _ (omega (arith, t0.long)) rp;
    }

-- An address is another one of the same family and number with its port set.
set_port-eq :
    (x a : Addr) (p : ℕ)
    → a.family ≢ Family.af_unspec
    → x.family ≡ a.family
    → x.ip ≡ a.ip
    → p ≡ get_addr_port a
    → set_addr_port x p ≡ a
unfolding set_addr_port get_addr_port
set_port-eq x a p known ef ei ep = ground (arith, known, ef, ei, ep)

port_in : (a : Addr) → IsAddr a → get_addr_port a < 2 ^ 16
unfolding get_addr_port
port_in a v = ground (arith, v.port_in)

-- A segment created by a socket with addresses in range, with a payload of `len` bytes, fewer than
-- 2 ^ 16 and no more than there are, and received between hosts of those addresses: the receiver takes
-- the socket's remote address for its own, and the socket's local address for the peer's.
segment_create-addresses :
    (e : Entry) (bytes : List ℕ) (len : ℕ) (local_real peer_real : Addr)
    → len ≤ length bytes
    → len < 2 ^ 16
    → IsAddr e.local_addr
    → IsAddr e.remote_addr
    → local_real.family ≡ e.remote_addr.family
    → local_real.ip ≡ e.remote_addr.ip
    → peer_real.family ≡ e.local_addr.family
    → peer_real.ip ≡ e.local_addr.ip
    → (local_of (segment_create e bytes len) local_real ≡ e.remote_addr)
      × (remote_of (segment_create e bytes len) peer_real ≡ e.local_addr)
segment_create-addresses e bytes len x y h small vl vr fx ix fy iy =
    let t = segment_create_lem e bytes len h small (port_in _ vl) (port_in _ vr) in
    (
      set_port-eq x e.remote_addr _ vr.known fx ix t.to,
      set_port-eq y e.local_addr _ vl.known fy iy t.from,
    )
