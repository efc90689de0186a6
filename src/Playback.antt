-- ===== src/Playback.antt =====
-- src/playback/PlaybackController.hpp: per-interface run flags and message filters. Each method holds
-- the mutex from its first line to its last, so it is one function of the state.
pub mod Laws
mod Tests
use caneo.Common.{
  ℕ, zero, suc, Bool, true, false, not, ◌||◌, Option, none, some, List, [], ◌∷◌, ltb, if◌then◌else◌,
  length, any,
}
use caneo.Common.Text.{Text, text_eq}
use caneo.Common.Int.{ℤ, pos, negsuc}
use caneo.Common.OrderedMap.{nat_key, text_key, pair_key, lookup, insert}

pub record Playback : Type 0 where
  pub states : List (Text × Bool)
  pub stopped : Bool
  pub messages : List (Text × List (Text × Bool))

paused_states : List Text → List (Text × Bool)
paused_states [] = []
paused_states (i ∷ is) = (i, false) ∷ paused_states is

-- The constructor.
unfoldable pub new_playback : List Text → Playback
unfolding paused_states
new_playback interfaces = record {
  states = paused_states interfaces;
  stopped = false;
  messages = [];
}

-- The flag of the first entry with a name.
unfoldable pub flag_of : Text → List (Text × Bool) → Option Bool
flag_of name [] = none
flag_of name ((n, b) ∷ rest) = if text_eq n name then some b else flag_of name rest

abbrev flag_or : Bool → Option Bool → Bool
flag_or d none = d
flag_or d (some b) = b

unfoldable pub is_running : Playback → Text → Bool
unfolding flag_of
is_running c iface = flag_or false (flag_of iface c.states)

unfoldable pub any_running : Playback → Bool
any_running c = any (λ p. p.1) c.states

flip_first : Text → List (Text × Bool) → List (Text × Bool)
flip_first name [] = []
flip_first name ((n, b) ∷ rest) =
    if text_eq n name then (n, not b) ∷ rest else (n, b) ∷ flip_first name rest

unfoldable pub toggle : Playback → Text → Playback
unfolding flip_first
toggle c iface = record c { states = flip_first iface c.states }

unfoldable pub stop : Playback → Playback
stop c = record c { stopped = true }

-- The predicate that `wait_for_any_running` waits for.
unfoldable pub may_go_on : Playback → Bool
unfolding any_running
may_go_on c = c.stopped || any_running c

enable_all : List Text → List (Text × Bool)
enable_all [] = []
enable_all (n ∷ ns) = (n, true) ∷ enable_all ns

unfoldable pub set_messages : Playback → Text → List Text → Playback
unfolding enable_all insert
set_messages c iface names = record c { messages = insert iface (enable_all names) c.messages }

set_all : Bool → List (Text × Bool) → List (Text × Bool)
set_all b [] = []
set_all b ((n, _) ∷ rest) = (n, b) ∷ set_all b rest

flip_at : List (Text × Bool) → ℕ → List (Text × Bool)
flip_at [] i = []
flip_at ((n, b) ∷ rest) zero = (n, not b) ∷ rest
flip_at ((n, b) ∷ rest) (suc i) = (n, b) ∷ flip_at rest i

-- One filter under `idx`: 0 is the switch for all, `k + 1` is the message `k`. A negative index
-- reads before the vector: nothing stands for that fault.
toggle_filter : List (Text × Bool) → ℤ → Option (List (Text × Bool))
unfolding set_all flip_at
toggle_filter vec (pos zero) = some (set_all (not (any (λ p. p.1) vec)) vec)
toggle_filter vec (pos (suc i)) = some (if ltb i (length vec) then flip_at vec i else vec)
toggle_filter vec (negsuc n) = none

unfoldable pub toggle_message : Playback → Text → ℤ → Option Playback
unfolding toggle_filter lookup insert
toggle_message c iface idx = elim (lookup iface c.messages) [
  | none ↦ some c
  | some vec ↦ elim (toggle_filter vec idx) [
    | none ↦ none
    | some vec' ↦ some (record c { messages = insert iface vec' c.messages })
  ]
]

unfoldable pub is_message_enabled : Playback → Text → Text → Bool
unfolding flag_of lookup
is_message_enabled c iface name = elim (lookup iface c.messages) [
  | none ↦ true
  | some vec ↦ flag_or true (flag_of name vec)
]

unfoldable pub message_snapshot : Playback → Text → List (Text × Bool)
unfolding lookup
message_snapshot c iface = elim (lookup iface c.messages) [ none ↦ [] | some vec ↦ vec ]
