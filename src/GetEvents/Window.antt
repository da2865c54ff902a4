-- ===== src/GetEvents/Window.antt =====
-- How GetEvents/main.cpp starts: its arguments, `getSocketFd`, `openChannel`, and the search for the
-- window by its name.
use aacs.Prelude.{
  ℕ, ◌≡◌, ◌≢◌, refl, Bool, true, false, List, [], ◌∷◌, ◌++◌, map, Option, none, some, All, ◌==◌,
  ◌&&◌, arith, Bool-cases, inl, inr,
}
use aacs.CheckError.{IoReturn, count, failed}
use aacs.GetEvents.{OpenEnd, opened, write_failed, read_failed}

-- A name, by its bytes.
abbrev pub Name : Type 0
Name = List ℕ

unfoldable pub same_name : Name → Name → Bool
same_name [] [] = true
same_name [] (y ∷ ys) = false
same_name (x ∷ xs) [] = false
same_name (x ∷ xs) (y ∷ ys) = x == y && same_name xs ys

-- How the search ends. `undefined`: `get_name` or `list_windows` fails, and a null pointer or a
-- length that was never set is used.
pub data Search : Type 0 where
  found : ℕ → Search
  no_window undefined : Search

after_name : Bool → ℕ → Search → Search
after_name true window later = found window
after_name false window later = later

-- The loop of `get_window_by_name` over the windows with what `get_name` gives for each.
unfoldable pub search_windows : Name → List (ℕ × Option Name) → Search
unfolding after_name same_name
search_windows name [] = no_window
search_windows name ((window, none) ∷ windows) = undefined
search_windows name ((window, some other) ∷ windows) =
    after_name (same_name name other) window (search_windows name windows)

-- `none`: XGetWindowProperty fails in `list_windows`.
unfoldable pub get_window_by_name : Name → Option (List (ℕ × Option Name)) → Search
unfolding search_windows
get_window_by_name name none = undefined
get_window_by_name name (some windows) = search_windows name windows

pub data Started : Type 0 where
  usage socket_failed connect_failed open_failed no_argument : Started
  running : ℕ → Search → Started

-- `getSocketFd`, by what `socket` and `connect` return, and what comes behind it.
unfoldable pub with_socket : IoReturn → IoReturn → (ℕ → Started) → Started
with_socket (failed errno) connected next = socket_failed
with_socket (count fd) (failed errno) next = connect_failed
with_socket (count fd) (count n) next = next fd

unfoldable pub after_open : OpenEnd → Started → Started
after_open write_failed next = open_failed
after_open read_failed next = open_failed
after_open (opened n) next = next

-- main up to its loop. The first of `args` is the program's name. `no_argument`: the window's name is
-- taken from `argv[2]`, which is a null pointer.
unfoldable pub start :
    List Name → IoReturn → IoReturn → OpenEnd → Option (List (ℕ × Option Name)) → Started
unfolding with_socket after_open get_window_by_name
start [] socket connected channel windows = usage
start (program ∷ []) socket connected channel windows = usage
start (program ∷ path ∷ []) socket connected channel windows =
    with_socket socket connected (λ fd. after_open channel no_argument)
start (program ∷ path ∷ name ∷ more) socket connected channel windows =
    with_socket socket connected
      (λ fd. after_open channel (running fd (get_window_by_name name windows)))

same_name_self : (name : Name) → same_name name name ≡ true
unfolding same_name
same_name_self [] = refl
same_name_self (b ∷ bs) = ground (arith, same_name_self bs)

same_name→≡ : (a b : Name) → same_name a b ≡ true → a ≡ b
unfolding same_name
same_name→≡ [] [] e = refl
same_name→≡ [] (y ∷ ys) e = ground (arith, e)
same_name→≡ (x ∷ xs) [] e = ground (arith, e)
same_name→≡ (x ∷ xs) (y ∷ ys) e = ground (arith, same_name→≡ xs ys, e)

other_name : (a b : Name) → a ≢ b → same_name a b ≡ false
other_name a b n = elim (Bool-cases (same_name a b)) [
  | inl e ↦ absurd (n (same_name→≡ a b e))
  | inr e ↦ e
]

-- GetEvents plays the touches in the first window of the list that has the given name, and in none
-- when no window has it. The windows in front of it have other names.
first_window_found :
    (name : Name) (front : List (ℕ × Name)) (window : ℕ) (back : List (ℕ × Option Name))
    → All (λ w. name ≢ w.1) front
    → (get_window_by_name name
          (some (map (λ w. (w.0, some w.1)) front ++ (window, some name) ∷ back))
        ≡ found window)
      × (get_window_by_name name (some (map (λ w. (w.0, some w.1)) front)) ≡ no_window)
unfolding get_window_by_name after_name
first_window_found name [] window back h = (rw (same_name_self name) refl, refl)
first_window_found name ((w, other) ∷ front) window back (h, hs) =
    rw (other_name name other h) (first_window_found name front window back hs)
