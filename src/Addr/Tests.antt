-- ===== src/Addr/Tests.antt =====
-- Addresses at concrete inputs.
use chitcp.Base.{◌^◌, ◌<◌, ◌≡◌, ◌↔◌, ◌-◌, arith}
use chitcp.Addr.{Addr, af_inet, af_inet6, addr_cmp, addr_port_cmp, ntohs}
use chitcp.Addr.Laws.{IsAddr, addr_port_cmp_iff, cmp-eq, ntohs-ntohs}

abbrev v4 : Addr
v4 = record { family = af_inet; ip = 2 ^ 32 - 1; port = 80 }

abbrev v6 : Addr
v6 = record { family = af_inet6; ip = 1; port = 80 }

v4-IsAddr : IsAddr v4
v4-IsAddr = ground arith

v6-IsAddr : IsAddr v6
v6-IsAddr = ground arith

addr_port_cmp_iff_example :
    (addr_port_cmp v4 v6 ≡ 0) ↔ ((v4.family ≡ v6.family) × (v4.port ≡ v6.port))
addr_port_cmp_iff_example = addr_port_cmp_iff v4 v6 v4-IsAddr v6-IsAddr

cmp-eq_example : (addr_cmp v4 v6 ≡ 0) × (addr_port_cmp v4 v6 ≡ 0) ↔ (v4 ≡ v6)
cmp-eq_example = cmp-eq v4 v6 v4-IsAddr v6-IsAddr

ntohs-ntohs_example : (ntohs (ntohs 1025) ≡ 1025) × (ntohs 1025 < 2 ^ 16)
ntohs-ntohs_example = ntohs-ntohs 1025 (omega arith)
