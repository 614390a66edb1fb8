-- ===== src/Handlers/Entries.antt =====
-- One entry of the socket table written, and the others as they were.
use chitcp.Base.{
  ℕ, ◌≡◌, ◌≢◌, refl, ◌∙◌, Bool, some, arith, get_elem?, get_elem?-set_self, get_elem?-set_ne,
}
use chitcp.Server.{Server, Entry}
use chitcp.Sockets.{change, put_entry}
use chitcp.Sockets.Refs.Cases.{get_elem?-lt}
use chitcp.TcpThread.{start_thread}

pub change-put :
    (si : Server) (i : ℕ) (e : Entry) (f : Entry → Entry)
    → get_elem? si.sockets i ≡ some e
    → change si i f ≡ put_entry si i (f e)
change-put si i e f g = rw (g, change) refl

pub start_thread-sockets :
    (si : Server) (created : Bool) → (start_thread si created).1.sockets ≡ si.sockets
unfolding start_thread
start_thread-sockets si created = ground arith

-- What is left of a daemon after one entry is written, and one more.
abbrev pub Wrote : Server → ℕ → Entry → Server → Type 0
Wrote si j c s =
    (get_elem? s.sockets j ≡ some c)
    × ((k : ℕ) → j ≢ k → get_elem? s.sockets k ≡ get_elem? si.sockets k)

pub put-Wrote :
    (si : Server) (j : ℕ) (c x : Entry)
    → get_elem? si.sockets j ≡ some x
    → Wrote si j c (put_entry si j c)
put-Wrote si j c x g = (
  get_elem?-set_self si.sockets j c (get_elem?-lt si.sockets j x g),
  λ k ne. get_elem?-set_ne si.sockets j k c ne,
)

pub Wrote-next :
    (si s : Server) (j : ℕ) (c c' : Entry) → Wrote si j c s → Wrote si j c' (put_entry s j c')
Wrote-next si s j c c' (g, other) =
    let (g', other') = put-Wrote s j c' c g in (g', λ k ne. other' k ne ∙ other k ne)
