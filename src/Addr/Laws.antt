-- ===== src/Addr/Laws.antt =====
-- What the comparisons of addr.c decide.
use chitcp.Base.{ℕ, ◌^◌, ◌<◌, ◌≡◌, ◌≢◌, ◌↔◌, refl, arith, ap, sym, ◌∙◌}
use chitcp.Addr.{
  Family, af_unspec, af_inet, af_inet6, Addr, addr_cmp, addr_port_cmp, ntohs, family_code,
}

-- An address that a socket can have: of a known family, with its fields in range.
pub record IsAddr (a : Addr) : Type 0 where
  pub known : a.family ≢ af_unspec
  pub ip_in : a.family ≡ af_inet → a.ip < 2 ^ 32
  pub port_in : a.port < 2 ^ 16

family-eq_of_code : (f g : Family) → family_code f ≡ family_code g → f ≡ g
family-eq_of_code f g h = ground arith

cmp_zero :
    (f g : Family) (a b p q : ℕ)
    → f ≢ af_unspec
    → (f ≡ af_inet → a < 2 ^ 32)
    → (g ≡ af_inet → b < 2 ^ 32)
    → addr_cmp (record { family = f; ip = a; port = p }) (record { family = g; ip = b; port = q })
      ≡ 0
    → (f ≡ g) × (a ≡ b)
unfolding addr_cmp
cmp_zero af_unspec g a b p q k ha hb h = absurd (k refl)
cmp_zero af_inet af_unspec a b p q k ha hb h = absurd (omega arith)
cmp_zero af_inet af_inet a b p q k ha hb h = (refl, omega (arith, ha refl, hb refl))
cmp_zero af_inet af_inet6 a b p q k ha hb h = absurd (omega arith)
cmp_zero af_inet6 af_unspec a b p q k ha hb h = absurd (omega arith)
cmp_zero af_inet6 af_inet a b p q k ha hb h = absurd (omega arith)
cmp_zero af_inet6 af_inet6 a b p q k ha hb h = (refl, ground arith)

-- The port comparison, on its own.
port_zero :
    (f g : Family) (a b p q : ℕ)
    → f ≢ af_unspec
    → p < 2 ^ 16
    → q < 2 ^ 16
    → addr_port_cmp
        (record { family = f; ip = a; port = p })
        (record { family = g; ip = b; port = q })
      ≡ 0
    → (f ≡ g) × (p ≡ q)
unfolding addr_port_cmp
port_zero af_unspec g a b p q k hp hq h = absurd (k refl)
port_zero af_inet af_unspec a b p q k hp hq h = absurd (omega arith)
port_zero af_inet af_inet a b p q k hp hq h = (refl, omega arith)
port_zero af_inet af_inet6 a b p q k hp hq h = absurd (omega arith)
port_zero af_inet6 af_unspec a b p q k hp hq h = absurd (omega arith)
port_zero af_inet6 af_inet a b p q k hp hq h = absurd (omega arith)
port_zero af_inet6 af_inet6 a b p q k hp hq h = (refl, omega arith)

cmp_same :
    (f : Family) (a p q : ℕ)
    → f ≢ af_unspec
    → (addr_cmp (record { family = f; ip = a; port = p }) (record { family = f; ip = a; port = q })
        ≡ 0)
unfolding addr_cmp
cmp_same af_unspec a p q k = absurd (k refl)
cmp_same af_inet a p q k = omega arith
cmp_same af_inet6 a p q k = ground arith

port_same :
    (f : Family) (a b p : ℕ)
    → f ≢ af_unspec
    → (addr_port_cmp
          (record { family = f; ip = a; port = p })
          (record { family = f; ip = b; port = p })
        ≡ 0)
unfolding addr_port_cmp
port_same af_unspec a b p k = absurd (k refl)
port_same af_inet a b p k = omega arith
port_same af_inet6 a b p k = omega arith

-- On addresses of known families with their fields in range, `chitcp_addr_cmp` is zero exactly
-- when family and IP address are the same, whatever the ports.
pub addr_cmp_iff :
    (a b : Addr)
    → IsAddr a
    → IsAddr b
    → (addr_cmp a b ≡ 0) ↔ ((a.family ≡ b.family) × (a.ip ≡ b.ip))
addr_cmp_iff a b va vb = (
  λ h. cmp_zero a.family b.family a.ip b.ip a.port b.port va.known va.ip_in vb.ip_in h,
  λ e.
      ap (addr_cmp a) (λ i. record { family = sym e.0 i; ip = sym e.1 i; port = b.port })
      ∙ cmp_same a.family a.ip a.port b.port va.known,
)

-- `chitcp_addr_port_cmp` is zero exactly when family and port are the same.
pub addr_port_cmp_iff :
    (a b : Addr)
    → IsAddr a
    → IsAddr b
    → (addr_port_cmp a b ≡ 0) ↔ ((a.family ≡ b.family) × (a.port ≡ b.port))
addr_port_cmp_iff a b va vb = (
  λ h. port_zero a.family b.family a.ip b.ip a.port b.port va.known va.port_in vb.port_in h,
  λ e.
      ap (addr_port_cmp a) (λ i. record { family = sym e.0 i; ip = b.ip; port = sym e.1 i })
      ∙ port_same a.family a.ip b.ip a.port va.known,
)

-- On addresses of known families with their fields in range, the two comparisons together decide
-- equality.
pub cmp-eq :
    (a b : Addr) → IsAddr a → IsAddr b → (addr_cmp a b ≡ 0) × (addr_port_cmp a b ≡ 0) ↔ (a ≡ b)
cmp-eq a b va vb = (
  λ h.
      let (f, i) = (addr_cmp_iff a b va vb).0 h.0 in
      let (g, p) = (addr_port_cmp_iff a b va vb).0 h.1 in ground arith,
  λ e. (
    (addr_cmp_iff a b va vb).1 (ground arith, ground arith),
    (addr_port_cmp_iff a b va vb).1 (ground arith, ground arith),
  ),
)

-- `ntohs` undoes itself on 16-bit numbers.
pub ntohs-ntohs : (x : ℕ) → x < 2 ^ 16 → (ntohs (ntohs x) ≡ x) × (ntohs x < 2 ^ 16)
unfolding ntohs
ntohs-ntohs x h = omega arith
