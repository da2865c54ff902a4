-- ===== src/Server/Handlers/Clients.antt =====
-- The clients that an input channel's handler has registered, and who gets the car's input events.
use aacs.Prelude.{
  ℕ, ◌<◌, ◌≡◌, refl, ◌∙◌, Bool, true, false, List, [], ◌∷◌, All, map, ◌==◌, if◌then◌else◌, arith,
  suc,
}
use aacs.Proto.{Proto}
use aacs.Frame.{Message}
use aacs.Wire.Codes.{input_code, event}
use aacs.Wire.Bytes.{front16}
use aacs.Server.Handlers.{
  Emit, to_client, only, InputState, input_handler, insert_client, erase_client, disconnect,
  handle_from_headunit, everyone, to_headunit, Handler, default_handler, video_handler,
  handle_from_client,
}

-- Ascending, as a std::set keeps its elements.
abbrev pub IsAscending : List ℕ → Type 0
IsAscending [] = Unit {0}
IsAscending (c ∷ cs) = All (λ d. c < d) cs × IsAscending cs

abbrev pub has_client : ℕ → List ℕ → Bool
has_client c [] = false
has_client c (d ∷ ds) = if c == d then true else has_client c ds

All-trans : (c d : ℕ) (cs : List ℕ) → c < d → All (λ e. d < e) cs → All (λ e. c < e) cs
All-trans c d [] lt h = tt
All-trans c d (e ∷ cs) lt (h, hs) = (omega arith, All-trans c d cs lt hs)

insert_client-All :
    (b c : ℕ) (cs : List ℕ) → b < c → All (λ e. b < e) cs → All (λ e. b < e) (insert_client c cs)
unfolding insert_client
insert_client-All b c [] lt h = (lt, tt)
insert_client-All b c (d ∷ ds) lt (h, hs) = ground (arith, insert_client-All b c ds lt hs)

insert_client-IsAscending :
    (c : ℕ) (cs : List ℕ) → IsAscending cs → IsAscending (insert_client c cs)
unfolding insert_client
insert_client-IsAscending c [] h = (tt, tt)
insert_client-IsAscending c (d ∷ ds) (h, hs) =
    ground (arith, insert_client-IsAscending c ds hs, insert_client-All d c ds, All-trans c d ds)

erase_client-All :
    (b c : ℕ) (cs : List ℕ) → All (λ e. b < e) cs → All (λ e. b < e) (erase_client c cs)
unfolding erase_client
erase_client-All b c [] h = tt
erase_client-All b c (d ∷ ds) (h, hs) = ground (arith, erase_client-All b c ds hs)

pub erase_client-IsAscending :
    (c : ℕ) (cs : List ℕ) → IsAscending cs → IsAscending (erase_client c cs)
unfolding erase_client
erase_client-IsAscending c [] h = tt
erase_client-IsAscending c (d ∷ ds) (h, hs) =
    ground (arith, erase_client-IsAscending c ds hs, erase_client-All d c ds h)

has_client-above : (c : ℕ) (cs : List ℕ) → All (λ d. c < d) cs → has_client c cs ≡ false
has_client-above c [] h = refl
has_client-above c (d ∷ ds) (h, hs) = ground (arith, has_client-above c ds hs)

has_client-erase_client :
    (c : ℕ) (cs : List ℕ) → IsAscending cs → has_client c (erase_client c cs) ≡ false
unfolding erase_client
has_client-erase_client c [] h = refl
has_client-erase_client c (d ∷ ds) (h, hs) =
    ground (arith, has_client-erase_client c ds hs, has_client-above d ds h)

pub has_client-insert_client : (c : ℕ) (cs : List ℕ) → has_client c (insert_client c cs) ≡ true
unfolding insert_client
has_client-insert_client c [] = ground arith
has_client-insert_client c (d ∷ ds) = ground (arith, has_client-insert_client c ds)

-- How many of the emitted messages are for one client alone.
abbrev pub count_to : ℕ → List Emit → ℕ
count_to c [] = 0
count_to c (to_client (only d) channel is_spec bytes ∷ es) =
    if c == d then suc (count_to c es) else count_to c es
count_to c (to_client everyone channel is_spec bytes ∷ es) = count_to c es
count_to c (to_headunit channel flags bytes ∷ es) = count_to c es

count_to-clients :
    (c id : ℕ) (bytes : List ℕ) (cs : List ℕ)
    → IsAscending cs
    → count_to c (map (λ d. to_client (only d) id false bytes) cs)
      ≡ (if has_client c cs then 1 else 0)
count_to-clients c id bytes [] h = refl
count_to-clients c id bytes (d ∷ ds) (h, hs) =
    ground (arith, count_to-clients c id bytes ds hs, has_client-above d ds h)

abbrev pub IsKept : Handler → Type 0
IsKept (default_handler id) = Unit {0}
IsKept (video_handler v) = Unit {0}
IsKept (input_handler h) = IsAscending h.registered_clients

-- The clients of an input handler stay a set in ascending order under every operation of a handler:
-- a message from the head unit, one from a client, and a client that leaves.
pub clients-IsKept :
    (proto : Proto) (h : Handler) (m : Message) (client channel : ℕ) (is_spec : Bool)
    (bytes : List ℕ)
    → IsKept h
    → IsKept (handle_from_headunit h m).handler
      × IsKept (handle_from_client proto h client channel is_spec bytes).next_handler
      × IsKept (disconnect h client)
unfolding handle_from_headunit handle_from_client disconnect
clients-IsKept proto (default_handler id) m client channel is_spec bytes k = (tt, tt, tt)
clients-IsKept proto (video_handler v) m client channel is_spec bytes k = ground arith
clients-IsKept proto (input_handler h) m client channel is_spec bytes k = (
  ground arith,
  insert_client-IsAscending client h.registered_clients k,
  erase_client-IsAscending client h.registered_clients k,
)

-- An input event of the head unit is addressed to each registered client exactly once, and to no
-- other. The registered clients ascend.
pub event_delivery :
    (h : InputState) (m : Message) (c : ℕ)
    → IsAscending h.registered_clients
    → front16 m.content ≡ input_code event
    → count_to c (handle_from_headunit (input_handler h) m).emitted
      ≡ (if has_client c h.registered_clients then 1 else 0)
unfolding handle_from_headunit
event_delivery h m c k e = rw e (count_to-clients c h.input_id m.content h.registered_clients k)

-- A client that has sent anything to an input channel is addressed exactly once for an input event
-- of the head unit, also if it was registered before, and one that has left is not addressed. The
-- registered clients ascend.
register_and_leave :
    (proto : Proto) (h : InputState) (client channel : ℕ) (is_spec : Bool) (bytes : List ℕ)
    (m : Message)
    → IsAscending h.registered_clients
    → front16 m.content ≡ input_code event
    → (count_to client
          (handle_from_headunit
            (handle_from_client proto (input_handler h) client channel is_spec bytes).next_handler
            m).emitted
        ≡ 1)
      × (count_to client (handle_from_headunit (disconnect (input_handler h) client) m).emitted ≡ 0)
unfolding handle_from_client disconnect
register_and_leave proto h client channel is_spec bytes m k e =
    let ins = insert_client client h.registered_clients in
    let gone = erase_client client h.registered_clients in
    (
      event_delivery (record h { registered_clients = ins; got_input_open = false }) m client
            (insert_client-IsAscending client h.registered_clients k) e
          ∙ rw (has_client-insert_client client h.registered_clients) refl,
      event_delivery (record h { registered_clients = gone }) m client
            (erase_client-IsAscending client h.registered_clients k) e
          ∙ rw (has_client-erase_client client h.registered_clients k) refl,
    )
