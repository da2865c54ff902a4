-- ===== src/Server/Sockets/Registry.antt =====
-- The map of clients in AAServer/main.cpp, as new sockets come and clients leave.
use aacs.Prelude.{
  ℕ, suc, ◌<◌, ◌≡◌, ◌≢◌, refl, List, [], ◌∷◌, Option, none, some, ◌==◌, if◌then◌else◌, All, arith,
}
use aacs.Tls.{Tls}
use aacs.Server.Sockets.Requests.{Hub, insert_new, erase_socket, new_client, client_gone}

-- The map as a function from sockets to numbers.
abbrev pub find_client : ℕ → List (ℕ × ℕ) → Option ℕ
find_client j [] = none
find_client j ((k, n) ∷ rest) = if j == k then some n else find_client j rest

-- Ascending by socket, no number twice, and every number below `count`.
abbrev pub IsRegistry : ℕ → List (ℕ × ℕ) → Type 0
IsRegistry count [] = Unit {0}
IsRegistry count ((k, n) ∷ rest) =
    (n < count) × All (λ e. k < e.0) rest × All (λ e. e.1 ≢ n) rest × IsRegistry count rest

keys_above : (j k : ℕ) (m : List (ℕ × ℕ)) → j < k → All (λ e. k < e.0) m → All (λ e. j < e.0) m
keys_above j k [] lt h = tt
keys_above j k (e ∷ m) lt (h, hs) = (omega arith, keys_above j k m lt hs)

find_above : (j : ℕ) (m : List (ℕ × ℕ)) → All (λ e. j < e.0) m → find_client j m ≡ none
find_above j [] h = refl
find_above j ((k, n) ∷ m) (h, hs) = ground (arith, find_above j m hs)

fresh_number : (count : ℕ) (m : List (ℕ × ℕ)) → IsRegistry count m → All (λ e. e.1 ≢ count) m
fresh_number count [] h = tt
fresh_number count ((k, n) ∷ m) (lt, a, d, r) = ((λ e. omega (arith, e)), fresh_number count m r)

one_more : (count : ℕ) (m : List (ℕ × ℕ)) → IsRegistry count m → IsRegistry (suc count) m
one_more count [] h = tt
one_more count ((k, n) ∷ m) (lt, a, d, r) = (omega arith, a, d, one_more count m r)

insert_new-keys :
    (j socket n : ℕ) (m : List (ℕ × ℕ))
    → j < socket
    → All (λ e. j < e.0) m
    → All (λ e. j < e.0) (insert_new socket n m)
unfolding insert_new
insert_new-keys j socket n [] lt h = (lt, tt)
insert_new-keys j socket n ((k, o) ∷ m) lt (h, hs) =
    ground (arith, insert_new-keys j socket n m lt hs)

insert_new-numbers :
    (o socket n : ℕ) (m : List (ℕ × ℕ))
    → n ≢ o
    → All (λ e. e.1 ≢ o) m
    → All (λ e. e.1 ≢ o) (insert_new socket n m)
unfolding insert_new
insert_new-numbers o socket n [] ne h = (ne, tt)
insert_new-numbers o socket n ((k, p) ∷ m) ne (h, hs) =
    ground (arith, insert_new-numbers o socket n m ne hs, ne, h)

insert_new-IsRegistry :
    (socket count : ℕ) (m : List (ℕ × ℕ))
    → IsRegistry count m
    → IsRegistry (suc count) (insert_new socket count m)
unfolding insert_new
insert_new-IsRegistry socket count [] h = (omega arith, tt, tt, tt)
insert_new-IsRegistry socket count ((k, n) ∷ m) (lt, a, d, r) = ground (
  arith,
  insert_new-IsRegistry socket count m r,
  one_more count m r,
  keys_above socket k m,
  fresh_number count m r,
  insert_new-keys k socket count m,
  insert_new-numbers n socket count m,
)

find_client-insert_new :
    (j socket n count : ℕ) (m : List (ℕ × ℕ))
    → IsRegistry count m
    → find_client j (insert_new socket n m) ≡ (
        if j == socket
        then elim (find_client socket m) [ none ↦ some n | some o ↦ some o ]
        else find_client j m)
unfolding insert_new
find_client-insert_new j socket n count [] h = ground arith
find_client-insert_new j socket n count ((k, o) ∷ m) (lt, a, d, r) =
    ground (
      arith,
      find_client-insert_new j socket n count m r,
      find_above socket m,
      keys_above socket k m,
    )

erase_socket-keys :
    (j socket : ℕ) (m : List (ℕ × ℕ))
    → All (λ e. j < e.0) m
    → All (λ e. j < e.0) (erase_socket socket m)
unfolding erase_socket
erase_socket-keys j socket [] h = tt
erase_socket-keys j socket ((k, o) ∷ m) (h, hs) = ground (arith, erase_socket-keys j socket m hs)

erase_socket-numbers :
    (o socket : ℕ) (m : List (ℕ × ℕ))
    → All (λ e. e.1 ≢ o) m
    → All (λ e. e.1 ≢ o) (erase_socket socket m)
unfolding erase_socket
erase_socket-numbers o socket [] h = tt
erase_socket-numbers o socket ((k, p) ∷ m) (h, hs) =
    ground (arith, erase_socket-numbers o socket m hs, h)

erase_socket-IsRegistry :
    (socket count : ℕ) (m : List (ℕ × ℕ))
    → IsRegistry count m
    → IsRegistry count (erase_socket socket m)
unfolding erase_socket
erase_socket-IsRegistry socket count [] h = tt
erase_socket-IsRegistry socket count ((k, n) ∷ m) (lt, a, d, r) = ground (
  arith,
  erase_socket-IsRegistry socket count m r,
  erase_socket-keys k socket m a,
  erase_socket-numbers n socket m d,
)

find_client-erase_socket :
    (j socket count : ℕ) (m : List (ℕ × ℕ))
    → IsRegistry count m
    → find_client j (erase_socket socket m) ≡ (if j == socket then none else find_client j m)
unfolding erase_socket
find_client-erase_socket j socket count [] h = ground arith
find_client-erase_socket j socket count ((k, o) ∷ m) (lt, a, d, r) =
    ground (arith, find_client-erase_socket j socket count m r, find_above k m a)

module _ (tls : Tls) where
  -- The map of clients stays a registry as sockets come and clients leave: its sockets ascend, no
  -- number is given twice, and all numbers are below the count of clients.
  clients-IsRegistry :
      (socket : ℕ) (h : Hub tls)
      → IsRegistry h.client_count h.clients
      → IsRegistry (new_client tls socket h).client_count (new_client tls socket h).clients
        × IsRegistry (client_gone tls socket h).client_count (client_gone tls socket h).clients
  unfolding new_client client_gone
  clients-IsRegistry socket h r = (
    insert_new-IsRegistry socket h.client_count h.clients r,
    erase_socket-IsRegistry socket h.client_count h.clients r,
  )

  -- A socket that is new gets the count of clients so far as its number, a client that leaves is
  -- not found any more, and neither changes the number of any other socket. The map is a registry.
  clients_found :
      (j socket gone : ℕ) (h : Hub tls)
      → IsRegistry h.client_count h.clients
      → find_client socket h.clients ≡ none
      → (find_client j (new_client tls socket h).clients
          ≡ (if j == socket then some h.client_count else find_client j h.clients))
        × (find_client j (client_gone tls gone h).clients
            ≡ (if j == gone then none else find_client j h.clients))
  unfolding new_client client_gone
  clients_found j socket gone h r e =
      let inserted = find_client-insert_new j socket h.client_count h.client_count h.clients r in
      (rw e at inserted, find_client-erase_socket j gone h.client_count h.clients r)
