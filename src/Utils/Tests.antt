-- ===== src/Utils/Tests.antt =====
-- The checksum and the loops at concrete inputs: a socket that takes or brings a byte at a time.
use chitcp.Base.{ℕ, suc, ◌≤◌, ◌≡◌, refl, List, [], ◌∷◌, length, take, drop, arith}
use native.Mathlib.Decide.{dec_lt}
use chitcp.Base.Order.{lt_wf}
use chitcp.Addr.{ntohs}
use chitcp.Packets.{Received, got}
use chitcp.Packets.Tests.{one, stream}
use chitcp.Utils.{cksum, fold}
use chitcp.Utils.Loops.{Busy, Brings}

abbrev text : List ℕ
text = 0x45 ∷ 0 ∷ 0xff ∷ 0xff ∷ 7 ∷ []

-- 0xffff + 0x4500 + 0x0700 folds to 0x4c00, whose complement is 0xb3ff, with its bytes swapped.
checked : cksum text ≡ 0xffb3
unfolding cksum fold lt_wf ntohs dec_lt
checked = refl

one-Busy : Busy one
one-Busy w b bs e = cc (e)

abbrev next : List ℕ → ℕ → Received × List ℕ
next w n = (got (take 1 w), drop 1 w)

next-Brings : Brings next stream
next-Brings = record { part = part }
  where
    part :
        (w : List ℕ) (n : ℕ)
        → (k : ℕ) × (k ≤ suc n)
          × (k ≤ length w)
          × (k ≡ 0 → w ≡ [])
          × ((next w (suc n)).0 ≡ got (take k w))
          × ((next w (suc n)).1 ≡ drop k w)
    part [] n = (0, omega arith, omega arith, λ _. refl, refl, refl)
    part (b ∷ bs) n = (1, omega arith, omega arith, λ e. cc (e), refl, refl)
