-- ===== src/Server/Sockets/Closing.antt =====
-- Which descriptors of clients AAServer closes: the set `clients` and the destructor of
-- AAServer/src/SocketCommunicator.cpp, and `ready` and the destructor of AAServer/src/SocketClient.cpp.
use aacs.Prelude.{
  ℕ, zero, suc, ◌+◌, ◌≡◌, ◌≢◌, refl, ap, ◌∙◌, List, [], ◌∷◌, ◌++◌, ◌==◌, if◌then◌else◌, arith, All,
}
use aacs.CheckError.{IoReturn, count, failed}

-- How the listening thread begins, by what `socket` and `bind` return. An exception leaves the
-- function of a thread, and so ends the program.
pub data ListenStart : Type 0 where
  listening : ℕ → ListenStart
  program_ends : ListenStart

unfoldable pub start_listening : IoReturn → IoReturn → ListenStart
start_listening (failed errno) bound = program_ends
start_listening (count sock) (count zero) = listening sock
start_listening (count sock) other = program_ends

-- The clients of the set, by socket, and the calls of `close` on sockets of clients, the last first.
pub record Sockets : Type 0 where
  pub members : List ℕ
  pub closes : List ℕ

-- A client that is accepted; one that `disconnected` reports, which the set lets go; one whose thread
-- ends by an exception.
pub data Fate : Type 0 where
  accepted lost ended : ℕ → Fate

unfoldable pub without : ℕ → List ℕ → List ℕ
without s [] = []
without s (k ∷ ks) = let rest = without s ks in if s == k then rest else k ∷ rest

unfoldable pub happen : Fate → Sockets → Sockets
unfolding without
happen (accepted s) c = record c { members = s ∷ c.members }
happen (lost s) c = record c { members = without s c.members }
happen (ended s) c = record c { closes = s ∷ c.closes }

unfoldable pub all_happen : List Fate → Sockets → Sockets
unfolding happen
all_happen [] c = c
all_happen (f ∷ fs) c = all_happen fs (happen f c)

-- `~SocketCommunicator`: each client of the set is deleted, and `~SocketClient` closes its descriptor.
unfoldable pub delete_clients : Sockets → Sockets
delete_clients c = record { members = []; closes = c.members ++ c.closes }

unfoldable pub occurrences : ℕ → List ℕ → ℕ
occurrences s [] = 0
occurrences s (k ∷ ks) = let rest = occurrences s ks in if s == k then suc rest else rest

-- Of another client.
abbrev pub IsOther : ℕ → Fate → Type 0
IsOther s (accepted k) = s ≢ k
IsOther s (lost k) = s ≢ k
IsOther s (ended k) = s ≢ k

occurrences-append :
    (s : ℕ) (xs ys : List ℕ) → occurrences s (xs ++ ys) ≡ occurrences s xs + occurrences s ys
unfolding occurrences
occurrences-append s [] ys = omega arith
occurrences-append s (x ∷ xs) ys = ground (arith, occurrences-append s xs ys)

without_other : (s k : ℕ) (xs : List ℕ) → s ≢ k → occurrences s (without k xs) ≡ occurrences s xs
unfolding occurrences without
without_other s k [] n = refl
without_other s k (x ∷ xs) n = ground (arith, without_other s k xs n, n)

without_self : (s : ℕ) (xs : List ℕ) → occurrences s (without s xs) ≡ 0
unfolding occurrences without
without_self s [] = refl
without_self s (x ∷ xs) = ground (arith, without_self s xs)

-- What stands of a client: how often it is in the set and how often it was closed.
abbrev standing : ℕ → Sockets → ℕ × ℕ
standing s c = (occurrences s c.members, occurrences s c.closes)

happen_other :
    (s : ℕ) (f : Fate) (c : Sockets) → IsOther s f → standing s (happen f c) ≡ standing s c
unfolding happen occurrences
happen_other s (accepted k) c n = ground (arith, n)
happen_other s (lost k) c n = rw (without_other s k c.members n) refl
happen_other s (ended k) c n = ground (arith, n)

others :
    (s : ℕ) (fs : List Fate) (c : Sockets)
    → All (IsOther s) fs
    → standing s (all_happen fs c) ≡ standing s c
unfolding all_happen
others s [] c h = refl
others s (f ∷ fs) c (h, hs) = others s fs (happen f c) hs ∙ happen_other s f c h

closed_by_delete :
    (s : ℕ) (c : Sockets)
    → occurrences s (delete_clients c).closes ≡ (standing s c).0 + (standing s c).1
unfolding delete_clients
closed_by_delete s c = occurrences-append s c.members c.closes

all_happen-append :
    (fs gs : List Fate) (c : Sockets) → all_happen (fs ++ gs) c ≡ all_happen gs (all_happen fs c)
unfolding all_happen
all_happen-append [] gs c = refl
all_happen-append (f ∷ fs) gs c = all_happen-append fs gs (happen f c)

-- How often the listening side has closed the client's descriptor when it is gone.
abbrev pub closed_at_end : ℕ → List Fate → ℕ
closed_at_end s fates =
    occurrences s (delete_clients (all_happen fates (record { members = []; closes = [] }))).closes

-- The standing behind a fate of the client's own, given the one before it.
own_fate :
    (s : ℕ) (f : Fate) (rest : List Fate) (c : Sockets) (m k : ℕ)
    → All (IsOther s) rest
    → standing s (happen f c) ≡ (m, k)
    → standing s (all_happen (f ∷ rest) c) ≡ (m, k)
unfolding all_happen
own_fate s f rest c m k h e = others s rest (happen f c) h ∙ e

accepted_once :
    (s : ℕ) (c : Sockets) → standing s c ≡ (0, 0) → standing s (happen (accepted s) c) ≡ (1, 0)
unfolding happen occurrences
accepted_once s c e = ground (arith, ap (λ x. x.0) e, ap (λ x. x.1) e)

lost_then : (s : ℕ) (c : Sockets) → standing s c ≡ (1, 0) → standing s (happen (lost s) c) ≡ (0, 0)
unfolding happen occurrences
lost_then s c e = ground (arith, without_self s c.members, ap (λ x. x.1) e)

ended_then :
    (s : ℕ) (c : Sockets) → standing s c ≡ (1, 0) → standing s (happen (ended s) c) ≡ (1, 1)
unfolding happen occurrences
ended_then s c e = ground (arith, ap (λ x. x.0) e, ap (λ x. x.1) e)

connected :
    (s : ℕ) (before between : List Fate)
    → All (IsOther s) before
    → All (IsOther s) between
    → standing s
        (all_happen (before ++ accepted s ∷ between) (record { members = []; closes = [] }))
      ≡ (1, 0)
unfolding occurrences
connected s before between h1 h2 =
    ap (standing s) (all_happen-append before (accepted s ∷ between) _)
    ∙ own_fate s (accepted s) between _ 1 0 h2
        (accepted_once s _ (others s before (record { members = []; closes = [] }) h1))

closed_by_fate :
    (s : ℕ) (front : List Fate) (f : Fate) (behind : List Fate) (m k : ℕ)
    → All (IsOther s) behind
    → standing s (happen f (all_happen front (record { members = []; closes = [] }))) ≡ (m, k)
    → closed_at_end s (front ++ f ∷ behind) ≡ m + k
closed_by_fate s front f behind m k h e =
    closed_by_delete s _
    ∙ ap (λ x. x.0 + x.1)
        (ap (standing s) (all_happen-append front (f ∷ behind) _) ∙ own_fate s f behind _ m k h e)

-- A client is accepted, and then something happens to it or not; other clients come and go before,
-- in between and behind. When the listening side has been destroyed, the client's descriptor has
-- been closed once if the client was still connected, never if it had disconnected, and twice if its
-- thread had ended by an exception.
pub closes_by_fate :
    (s : ℕ) (before between behind : List Fate)
    → All (IsOther s) before
    → All (IsOther s) between
    → All (IsOther s) behind
    → (closed_at_end s (before ++ accepted s ∷ between) ≡ 1)
      × (closed_at_end s (before ++ accepted s ∷ between ++ lost s ∷ behind) ≡ 0)
      × (closed_at_end s (before ++ accepted s ∷ between ++ ended s ∷ behind) ≡ 2)
closes_by_fate s before between behind h1 h2 h3 =
    let present = connected s before between h1 h2 in
    (
      closed_by_delete s _ ∙ ap (λ x. x.0 + x.1) present,
      closed_by_fate s (before ++ accepted s ∷ between) (lost s) behind 0 0 h3
          (lost_then s _ present),
      closed_by_fate s (before ++ accepted s ∷ between) (ended s) behind 1 1 h3
          (ended_then s _ present),
    )
