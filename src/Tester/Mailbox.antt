-- ===== src/Tester/Mailbox.antt =====
-- libchitcp/tester_peer.c: how a peer's events reach it (`chitcp_tester_peer_event`). A step is what a
-- thread does while it holds the event's lock; the world may change between two steps.
use chitcp.Base.{◌≡◌, refl, sym, ap, ◌∙◌, false, List, [], ◌∷◌, ◌++◌, Option, none, some}
use chitcp.Tester.{TestEvent, Peer, Setting, Ran, goes, exits, on_event, cleared, turn}

-- `chitcp_tester_peer_event`, once no event is there
abbrev pub put_event : {W : Type 0} → TestEvent → Peer W → Peer W
put_event e p = record p { event = some e }

abbrev pub in_world : {W : Type 0} → W → Peer W → Peer W
in_world w p = record p { thread = record p.thread { host = w } }

-- Steps of other threads, which put events, and of the peer's thread, which acts on them, from `p₀`, with
-- the events that were put and those that were acted on, in which worlds; the last first.
pub data Reach {W : Type 0} (s : Setting W) (p₀ : Peer W)
    : Peer W → List TestEvent → List (TestEvent × W) → Type 0 where
  starts : Reach s p₀ p₀ [] []
  puts :
      {p : Peer W} {es : List TestEvent} {hs : List (TestEvent × W)} (e : TestEvent)
      → Reach s p₀ p es hs
      → p.event ≡ none
      → Reach s p₀ (put_event e p) (e ∷ es) hs
  acts :
      {p q : Peer W} {es : List TestEvent} {hs : List (TestEvent × W)} (e : TestEvent) (w : W)
      → Reach s p₀ p es hs
      → p.event ≡ some e
      → p.done ≡ false
      → turn s (in_world w p) e ≡ goes q
      → Reach s p₀ q es ((e, w) ∷ hs)

-- The turns for the events, one after the other, without other threads
unfoldable pub turn_after : {W : Type 0} → Setting W → TestEvent → W → Ran W → Ran W
turn_after s e w (goes p) = turn s (put_event e (in_world w p)) e
turn_after s e w (exits t) = exits t

unfoldable pub turns : {W : Type 0} → Setting W → Peer W → List (TestEvent × W) → Ran W
unfolding turn_after
turns s p [] = goes p
turns s p ((e, w) ∷ hs) = turn_after s e w (turns s p hs)

abbrev pub pending : Option TestEvent → List TestEvent
pending none = []
pending (some e) = e ∷ []

abbrev pub events : {W : Type 0} → List (TestEvent × W) → List TestEvent
events [] = []
events ((e, w) ∷ hs) = e ∷ events hs

abbrev pub idle : {W : Type 0} → Peer W → Peer W
idle p = record p { event = none }

event_of : {W : Type 0} → Ran W → Option TestEvent
event_of (goes p) = p.event
event_of (exits t) = none

event_of-cleared : {W : Type 0} (r : Ran W) → event_of (cleared r) ≡ none
unfolding event_of cleared
event_of-cleared (goes p) = refl
event_of-cleared (exits t) = refl

turn-event :
    {W : Type 0} (s : Setting W) (p : Peer W) (e : TestEvent) {q : Peer W}
    → turn s p e ≡ goes q
    → q.event ≡ none
unfolding event_of turn
turn-event s p e h = sym (ap event_of h) ∙ event_of-cleared (on_event s p e)

turn_after-goes :
    {W : Type 0} (s : Setting W) (e : TestEvent) (w : W) {p : Peer W} {r : Ran W}
    → r ≡ goes (idle p)
    → p.event ≡ some e
    → turn_after s e w r ≡ turn s (in_world w p) e
unfolding turn_after
turn_after-goes s e w {p} q there =
    ap (turn_after s e w) q ∙ ap (λ o. turn s (record (in_world w p) { event = o }) e) (sym there)

-- However other threads put events and the peer's thread acts on them, from a peer without an event: the
-- peer is, but for an event that it has not acted on, what its turns for the events give one after the
-- other, each in the world in which it acted; and the events that were put are those that it acted on, in
-- their order and each once, but for the last, which may be pending.
pub mailbox_lem :
    {W : Type 0} (s : Setting W) (p₀ : Peer W) {p : Peer W} {es : List TestEvent}
    {hs : List (TestEvent × W)}
    → Reach s p₀ p es hs
    → p₀.event ≡ none
    → (turns s p₀ hs ≡ goes (idle p)) × (es ≡ pending p.event ++ events hs)
unfolding turns
mailbox_lem s p₀ starts empty =
    (ap (λ o. goes (record p₀ { event = o })) empty, ap (λ o. pending o ++ []) (sym empty))
mailbox_lem s p₀ (puts {hs = hs} e r free) empty =
    let (same, all) = mailbox_lem s p₀ r empty in
    (same, ap (λ es. e ∷ es) (all ∙ ap (λ o. pending o ++ events hs) free))
mailbox_lem s p₀ (acts {p = p} {q = q} {hs = hs} e w r there going step) empty =
    let (same, all) = mailbox_lem s p₀ r empty in
    let free = turn-event s (in_world w p) e step in
    (
      turn_after-goes s e w same there ∙ step ∙ ap (λ o. goes (record q { event = o })) free,
      all
          ∙ ap (λ o. pending o ++ events hs) there
          ∙ ap (λ o. pending o ++ (e ∷ events hs)) (sym free),
    )
