-- ===== src/Net/Server/Visits.antt =====
-- Connections that come to a server of src/net/server/server.cpp and end, and who hears of them.
use sheep_cpp.Base.{
  ℕ, ◌+◌, ◌≡◌, ◌≢◌, refl, Bool, true, false, not, Option, none, some, List, [], ◌∷◌, ◌++◌,
  if◌then◌else◌, ◌==◌, ErrMsg, without, arith,
}
use sheep_cpp.Net.Asyncer.{Called, called_if_set}
use sheep_cpp.Net.Socket.{Kernel}
use sheep_cpp.Net.Server.{Server, Acted, on_readable, on_finish}

-- A server, and of the connections that came: those that are not finished, those that came with an
-- error, and those that were finished in their own connected handler.
pub record World : Type 0 where
  pub server : Server
  pub live : List ℕ
  pub failed : List ℕ
  pub stale : List ℕ

-- The acceptor's event, where the connected handler may finish the connection that it hears of, and
-- the end of a connection.
pub data Event : Type 0 where
  readable : Kernel → Event
  readable_ends : Kernel → ErrMsg → Event
  finished : ℕ → ErrMsg → Event

abbrev pub contains : ℕ → List ℕ → Bool
contains x [] = false
contains x (y ∷ ys) = let rest = contains x ys in if y == x then true else rest

abbrev add_if : Bool → ℕ → List ℕ → List ℕ
add_if b x xs = if b then x ∷ xs else xs

abbrev pub Stepped : Type 0
Stepped = World × List Called

-- A connection `id` came, or none did.
abbrev pub came : ℕ → World → Acted → Stepped
came id w (t, calls) = if t.next_id == id then (record w { server = t }, calls) else (
  record {
    server = t;
    live = id ∷ w.live;
    failed = add_if (not (contains id t.connections)) id w.failed;
    stale = w.stale;
  },
  calls,
)

abbrev pub came_ended : ℕ → List Called → World → Acted → Stepped
came_ended id more w (t, calls) = if t.next_id == id then (record w { server = t }, calls) else (
  record w { server = t; stale = add_if (contains id t.connections) id w.stale },
  calls ++ more,
)

-- A connection finishes once. In its connected handler it is not in the set yet.
unfoldable pub step : ℕ → Event → World → Option Stepped
unfolding on_readable on_finish
step finish (readable k) w = elim (on_readable k finish w.server) [
  | none ↦ none
  | some r ↦ some (came w.server.next_id w r)
]
step finish (readable_ends k e) w =
    let (s1, more) = on_finish w.server.next_id e w.server in
    elim (on_readable k finish s1) [
      | none ↦ none
      | some r ↦ some (came_ended w.server.next_id more w r)
    ]
step finish (finished id e) w =
    let (t, calls) = on_finish id e w.server in
    some (
      if contains id w.live
      then (record w { server = t; live = without id w.live }, calls)
      else (w, []))

unfoldable pub run : ℕ → List Event → World → Option Stepped
unfolding step
run finish [] w = some (w, [])
run finish (ev ∷ evs) w = elim (step finish ev w) [
  | none ↦ none
  | some (t, calls) ↦ elim (run finish evs t) [
    | none ↦ none
    | some (u, more) ↦ some (u, calls ++ more)
  ]
]

-- How often a handler was called.
abbrev pub heard : ℕ → List Called → ℕ
heard h [] = 0
heard h (c ∷ cs) = (if c.handler == h then 1 else 0) + heard h cs

pub heard-append : (h : ℕ) (xs ys : List Called) → heard h (xs ++ ys) ≡ heard h xs + heard h ys
heard-append h [] ys = omega arith
heard-append h (x ∷ xs) ys = let ih = heard-append h xs ys in omega arith

pub heard_self : (h : ℕ) (o : Option ℕ) (e : ErrMsg) → o ≡ some h → heard h (called_if_set o e) ≡ 1
heard_self h o e q = let m : h == h ≡ true = ground arith in rw (q, m) refl

pub heard_other :
    (h d : ℕ) (o : Option ℕ) (e : ErrMsg) → d ≢ h → o ≡ some d → heard h (called_if_set o e) ≡ 0
heard_other h d o e n q = let m : d == h ≡ false = ground (arith, n) in rw (q, m) refl
