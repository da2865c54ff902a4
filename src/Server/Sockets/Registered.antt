-- ===== src/Server/Sockets/Registered.antt =====
-- Which clients the input handlers of AAServer hold as registered: the numbers in the map of clients
-- of AAServer/main.cpp, and what a handler keeps of them.
pub mod Operations
pub mod Steps
use aacs.Prelude.{
  ℕ, suc, ◌<◌, ◌≡◌, ◌≢◌, refl, ◌∙◌, Bool, true, false, ◌||◌, List, [], ◌∷◌, Option, none, some,
  ◌==◌, ltb, if◌then◌else◌, All, arith,
}
use aacs.Proto.{Proto}
use aacs.Frame.{Message}
use aacs.Server.Handlers.{
  InputState, Handler, default_handler, video_handler, input_handler, insert_client, erase_client,
  disconnect, handle_from_headunit, handle_from_client,
}
use aacs.Server.Handlers.Clients.{IsAscending, IsKept, clients-IsKept, erase_client-IsAscending}
use aacs.Server.Sockets.Requests.{insert_new, erase_socket, number_of}
use aacs.Server.Sockets.Registry.{find_client}

-- Some socket has this number.
abbrev pub has_number : ℕ → List (ℕ × ℕ) → Bool
has_number c [] = false
has_number c ((k, n) ∷ rest) = if c == n then true else has_number c rest

abbrev pub IsConnected : List (ℕ × ℕ) → Handler → Type 0
IsConnected clients (default_handler id) = Unit {0}
IsConnected clients (video_handler v) = Unit {0}
IsConnected clients (input_handler h) =
    IsAscending h.registered_clients × All (λ c. has_number c clients ≡ true) h.registered_clients

has_number-insert_new :
    (c socket n : ℕ) (m : List (ℕ × ℕ))
    → has_number c m ≡ true
    → has_number c (insert_new socket n m) ≡ true
unfolding insert_new
has_number-insert_new c socket n [] h = ground arith
has_number-insert_new c socket n ((k, o) ∷ m) h =
    let rest = has_number-insert_new c socket n m in grind arith

has_number-erase_socket :
    (c socket : ℕ) (m : List (ℕ × ℕ))
    → c ≢ number_of socket m
    → has_number c m ≡ true
    → has_number c (erase_socket socket m) ≡ true
unfolding erase_socket number_of
has_number-erase_socket c socket [] ne h = h
has_number-erase_socket c socket ((k, o) ∷ m) ne h =
    let rest = has_number-erase_socket c socket m in grind arith

pub has_number-number_of :
    (socket n : ℕ) (m : List (ℕ × ℕ))
    → find_client socket m ≡ some n
    → has_number (number_of socket m) m ≡ true
unfolding number_of
has_number-number_of socket n [] e = ground arith
has_number-number_of socket n ((k, o) ∷ m) e =
    let rest = has_number-number_of socket n m in grind arith

inserted_connected :
    (m : List (ℕ × ℕ)) (socket n : ℕ) (cs : List ℕ)
    → All (λ c. has_number c m ≡ true) cs
    → All (λ c. has_number c (insert_new socket n m) ≡ true) cs
inserted_connected m socket n [] h = tt
inserted_connected m socket n (c ∷ cs) (h, hs) =
    (has_number-insert_new c socket n m h, inserted_connected m socket n cs hs)

-- A new client leaves the registered ones connected.
pub insert_new-IsConnected :
    (m : List (ℕ × ℕ)) (socket n : ℕ) (h : Handler)
    → IsConnected m h
    → IsConnected (insert_new socket n m) h
insert_new-IsConnected m socket n (default_handler id) k = tt
insert_new-IsConnected m socket n (video_handler v) k = tt
insert_new-IsConnected m socket n (input_handler h) (k, c) =
    (k, inserted_connected m socket n h.registered_clients c)

insert_client-All :
    (m : List (ℕ × ℕ)) (c : ℕ) (cs : List ℕ)
    → has_number c m ≡ true
    → All (λ d. has_number d m ≡ true) cs
    → All (λ d. has_number d m ≡ true) (insert_client c cs)
unfolding insert_client
insert_client-All m c [] e h = (e, tt)
insert_client-All m c (d ∷ ds) e (h, hs) = ground (arith, insert_client-All m c ds e hs, e, h)

-- A connected client's message registers it.
pub handle_from_client-IsConnected :
    (proto : Proto) (m : List (ℕ × ℕ)) (h : Handler) (client channel : ℕ) (is_spec : Bool)
    (bytes : List ℕ)
    → has_number client m ≡ true
    → IsConnected m h
    → IsConnected m (handle_from_client proto h client channel is_spec bytes).next_handler
unfolding handle_from_client
handle_from_client-IsConnected proto m (default_handler id) client channel is_spec bytes e k = tt
handle_from_client-IsConnected proto m (video_handler v) client channel is_spec bytes e k = tt
handle_from_client-IsConnected proto m (input_handler h) client channel is_spec bytes e (k, c) = (
  (clients-IsKept proto (input_handler h)
      (record { channel = 0; flags = 0; content = []; offset = 0 }) client channel is_spec bytes
      k).1,
  insert_client-All m client h.registered_clients e c,
)

pub handle_from_headunit-IsConnected :
    (m : List (ℕ × ℕ)) (h : Handler) (msg : Message)
    → IsConnected m h
    → IsConnected m (handle_from_headunit h msg).handler
unfolding handle_from_headunit
handle_from_headunit-IsConnected m (default_handler id) msg k = tt
handle_from_headunit-IsConnected m (video_handler v) msg k = ground arith
handle_from_headunit-IsConnected m (input_handler h) msg k = ground arith

above_others : (b c : ℕ) (cs : List ℕ) → b ≡ c → All (λ d. c < d) cs → All (λ d. d ≢ b) cs
above_others b c [] same h = tt
above_others b c (d ∷ ds) same (h, hs) =
    ((λ e. omega (arith, e, same, h)), above_others b c ds same hs)

erase_client-others : (c : ℕ) (cs : List ℕ) → IsAscending cs → All (λ d. d ≢ c) (erase_client c cs)
unfolding erase_client
erase_client-others c [] h = tt
erase_client-others c (d ∷ ds) (h, hs) =
    ground (arith, erase_client-others c ds hs, above_others c d ds, h)

erase_client-All :
    (m : List (ℕ × ℕ)) (c : ℕ) (cs : List ℕ)
    → All (λ d. has_number d m ≡ true) cs
    → All (λ d. has_number d m ≡ true) (erase_client c cs)
unfolding erase_client
erase_client-All m c [] h = tt
erase_client-All m c (d ∷ ds) (h, hs) = ground (arith, erase_client-All m c ds hs, h, hs)

erased_connected :
    (m : List (ℕ × ℕ)) (socket : ℕ) (cs : List ℕ)
    → All (λ d. d ≢ number_of socket m) cs
    → All (λ d. has_number d m ≡ true) cs
    → All (λ d. has_number d (erase_socket socket m) ≡ true) cs
erased_connected m socket [] n h = tt
erased_connected m socket (c ∷ cs) (n, ns) (h, hs) =
    (has_number-erase_socket c socket m n h, erased_connected m socket cs ns hs)

-- A client that leaves the map leaves every handler.
pub disconnect-IsConnected :
    (m : List (ℕ × ℕ)) (socket : ℕ) (h : Handler)
    → IsConnected m h
    → IsConnected (erase_socket socket m) (disconnect h (number_of socket m))
unfolding disconnect
disconnect-IsConnected m socket (default_handler id) k = tt
disconnect-IsConnected m socket (video_handler v) k = tt
disconnect-IsConnected m socket (input_handler h) (k, c) = (
  erase_client-IsAscending (number_of socket m) h.registered_clients k,
  erased_connected m socket (erase_client (number_of socket m) h.registered_clients)
      (erase_client-others (number_of socket m) h.registered_clients k)
      (erase_client-All m (number_of socket m) h.registered_clients c),
)
