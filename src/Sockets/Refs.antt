-- ===== src/Sockets/Refs.antt =====
-- The life of a socket entry under any interleaving of threads: a thread that holds a reference never
-- sees the entry cleared or given to another socket.
pub mod Cases
pub mod Safety
use chitcp.Base.{
  ℕ, zero, suc, ◌+◌, ◌-◌, ◌≤◌, ◌<◌, ◌≡◌, ◌≢◌, refl, ◌⊎◌, inl, inr, Bool, true, false, List, [], ◌∷◌,
  Option, none, some, arith, ltb, ◌==◌, if◌then◌else◌, get_elem?, set, get_elem?-set_self,
  get_elem?-set_ne, length, Bool-cases, Option-cases, sym, ap, ◌∙◌, subst, ℤ, not, ◌&&◌, pos,
}
use chitcp.Types.{uninitialized, closed}
use chitcp.Addr.{Addr}
use chitcp.Server.{Server, Entry, free_entry}
use chitcp.Sockets.Lookup.{Best, lookup_lem, wildcards_sound}
use chitcp.Sockets.{
  allocate, acquire, release, lookup, free_begin, free_wait, free_port, free_clear,
}

-- The table's operations that the threads make, each a step under the table's lock. `held` lists the
-- references that threads have taken and not given back, one number for each; `past` the sockets whose
-- free has seen the last reference go and has not cleared the entry yet.
pub record World : Type 0 where
  pub si : Server
  pub held : List ℕ
  pub past : List ℕ

abbrev pub count : ℕ → List ℕ → ℕ
count i [] = 0
count i (x ∷ xs) = let rest = count i xs in if x == i then suc rest else rest

abbrev pub remove : ℕ → List ℕ → List ℕ
remove i [] = []
remove i (x ∷ xs) = if x == i then xs else x ∷ remove i xs

-- What a lookup or an acquire gives its thread.
abbrev pub take_ref : World → Option ℕ × Server → World
take_ref w (none, si) = record w { si = si }
take_ref w (some i, si) = record w { si = si; held = i ∷ w.held }

-- A thread releases what it holds, and a socket is freed by one thread, once: these are the callers'
-- part of the protocol.
pub data Step (w : World) : World → Type 0 where
  allocates : (thread : ℕ) → Step w (record w { si = (allocate w.si thread).1 })
  acquires : (fd : ℤ) → Step w (take_ref w (acquire w.si fd))
  looks_up : (l r : Addr) (exact : Bool) → Step w (take_ref w (lookup w.si l r exact))
  releases :
      (i : ℕ)
      → 0 < count i w.held
      → Step w (record w { si = release w.si i; held = remove i w.held })
  begins_free :
      (i : ℕ) (e : Entry)
      → get_elem? w.si.sockets i ≡ some e
      → e.available ≡ false
      → Step w (record w { si = free_begin w.si i })
  ends_wait :
      (i : ℕ) (e : Entry)
      → get_elem? w.si.sockets i ≡ some e
      → e.freeing ≡ true
      → count i w.past ≡ 0
      → free_wait w.si i ≡ true
      → Step w (record w { past = i ∷ w.past })
  clears_port : (i : ℕ) → 0 < count i w.past → Step w (record w { si = free_port w.si i })
  clears_entry :
      (i : ℕ)
      → 0 < count i w.past
      → Step w (record w { si = free_clear w.si i; past = remove i w.past })

pub data Reach (w : World) : World → Type 0 where
  here : Reach w w
  then_step : {u v : World} → Reach w u → Step u v → Reach w v

-- Every reference is counted, and nobody holds one on a free entry, or on one that a thread is about to
-- clear, which is still marked.
pub record Counted (held past : List ℕ) (i : ℕ) (e : Entry) : Type 0 where
  pub counted : e.refcount ≡ count i held
  pub free_unheld : e.available ≡ true → count i held ≡ 0
  pub free_clear : e.available ≡ true → e.freeing ≡ false
  pub past_unheld : 0 < count i past → count i held ≡ 0
  pub past_freeing : 0 < count i past → e.freeing ≡ true
  pub past_once : count i past ≤ 1

abbrev pub AllCounted : List Entry → List ℕ → List ℕ → Type 0
AllCounted es held past =
    ((i : ℕ) (e : Entry) → get_elem? es i ≡ some e → Counted held past i e)
    × ((i : ℕ) → get_elem? es i ≡ none → (count i held ≡ 0) × (count i past ≡ 0))

abbrev pub Inv : World → Type 0
Inv w = AllCounted w.si.sockets w.held w.past
