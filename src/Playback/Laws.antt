-- ===== src/Playback/Laws.antt =====
-- How the switches of src/playback/PlaybackController.hpp act on what playback asks.
use caneo.Common.{
  ℕ, zero, suc, ◌≤◌, ◌≡◌, refl, ap, ◌∙◌, Bool, true, false, not, Option, none, some, List, [], ◌∷◌,
  arith, ◌==◌, if◌then◌else◌, length, any,
}
use caneo.Common.Text.{Text, text_eq, text_eq_iff}
use caneo.Common.Int.{pos}
use caneo.Common.OrderedMap.{
  nat_key, text_key, pair_key, key_eq, lookup, insert, lookup-insert, lookup-insert_self,
}
use caneo.Playback.{
  Playback, flag_of, flag_or, is_running, flip_first, toggle, set_messages, enable_all, set_all,
  flip_at, toggle_filter, toggle_message, is_message_enabled, message_snapshot,
}

abbrev flipped : Option Bool → Option Bool
flipped none = none
flipped (some b) = some (not b)

flag_of-flip_first :
    (i j : Text) (l : List (Text × Bool))
    → flag_of j (flip_first i l) ≡ (if text_eq i j then flipped (flag_of j l) else flag_of j l)
unfolding flag_of flip_first
flag_of-flip_first i j [] = ground arith
flag_of-flip_first i j ((n, b) ∷ rest) =
    ground (arith, text_eq_iff n i, text_eq_iff n j, text_eq_iff i j, flag_of-flip_first i j rest)

-- PlaybackController::toggle flips the interface that it names, if playback has it, and leaves every
-- other interface as it was.
pub is_running-toggle :
    (c : Playback) (i j : Text)
    → is_running (toggle c i) j
      ≡ flag_or false (if text_eq i j then flipped (flag_of j c.states) else flag_of j c.states)
unfolding is_running toggle
is_running-toggle c i j = ap (flag_or false) (flag_of-flip_first i j c.states)

-- The state of one message in a filter, by its place.
abbrev pub enabled_at : List (Text × Bool) → ℕ → Option Bool
enabled_at [] i = none
enabled_at ((n, b) ∷ rest) zero = some b
enabled_at ((n, b) ∷ rest) (suc i) = enabled_at rest i

abbrev put : Bool → Option Bool → Option Bool
put b none = none
put b (some _) = some b

enabled_at-set_all :
    (b : Bool) (l : List (Text × Bool)) (j : ℕ)
    → enabled_at (set_all b l) j ≡ put b (enabled_at l j)
unfolding set_all
enabled_at-set_all b [] j = refl
enabled_at-set_all b ((n, c) ∷ rest) zero = refl
enabled_at-set_all b ((n, c) ∷ rest) (suc j) = enabled_at-set_all b rest j

enabled_at-flip_at :
    (l : List (Text × Bool)) (i j : ℕ)
    → enabled_at (flip_at l i) j ≡ (if i == j then flipped (enabled_at l j) else enabled_at l j)
unfolding flip_at
enabled_at-flip_at [] i j = ground arith
enabled_at-flip_at ((n, b) ∷ rest) zero zero = refl
enabled_at-flip_at ((n, b) ∷ rest) zero (suc j) = ground arith
enabled_at-flip_at ((n, b) ∷ rest) (suc i) zero = ground arith
enabled_at-flip_at ((n, b) ∷ rest) (suc i) (suc j) = enabled_at-flip_at rest i j ∙ ground arith

enabled_at_above : (l : List (Text × Bool)) (j : ℕ) → length l ≤ j → enabled_at l j ≡ none
enabled_at_above [] j h = refl
enabled_at_above ((n, b) ∷ rest) zero h = absurd (omega arith)
enabled_at_above ((n, b) ∷ rest) (suc j) h = enabled_at_above rest j (omega arith)

-- What an index of `toggle_message` asks for, at each place of the filter.
abbrev pub asked : List (Text × Bool) → ℕ → ℕ → Option Bool
asked vec zero j = put (not (any (λ p. p.1) vec)) (enabled_at vec j)
asked vec (suc i) j = if i == j then flipped (enabled_at vec j) else enabled_at vec j

toggle_filter_lem :
    (vec : List (Text × Bool)) (idx j : ℕ) (vec' : List (Text × Bool))
    → toggle_filter vec (pos idx) ≡ some vec'
    → enabled_at vec' j ≡ asked vec idx j
unfolding toggle_filter
toggle_filter_lem vec zero j vec' e =
    ground (arith, enabled_at-set_all (not (any (λ p. p.1) vec)) vec j)
toggle_filter_lem vec (suc i) j vec' e =
    ground (arith, enabled_at-flip_at vec i j, enabled_at_above vec i, enabled_at_above vec j)

toggle_filter_total :
    (vec : List (Text × Bool)) (idx : ℕ)
    → (vec' : List (Text × Bool)) × (toggle_filter vec (pos idx) ≡ some vec')
unfolding toggle_filter
toggle_filter_total vec zero = (_, refl)
toggle_filter_total vec (suc i) = (_, refl)

-- On an interface with a filter, PlaybackController::toggle_message does not fault at an index that is
-- not negative: index 0 gives every message the opposite of "some message is on", index `i + 1` flips
-- message `i` alone, an index past the end changes nothing, and the filters of other interfaces stay.
pub toggle_message_lem :
    (c : Playback) (iface : Text) (idx : ℕ) (vec : List (Text × Bool))
    → lookup iface c.messages ≡ some vec
    → (c' : Playback) × (toggle_message c iface (pos idx) ≡ some c')
      × ((j : ℕ) → enabled_at (message_snapshot c' iface) j ≡ asked vec idx j)
      × ((other : Text)
          → message_snapshot c' other
            ≡ (if key_eq other iface then message_snapshot c' iface else message_snapshot c other))
unfolding toggle_message message_snapshot
toggle_message_lem c iface idx vec e =
    let (vec', t) = toggle_filter_total vec idx in
    let c' : Playback = record c { messages = insert iface vec' c.messages } in
    (
      c',
      rw (e, toggle_message) (rw (t, toggle_message)),
      (λ j.
          rw (lookup-insert_self iface vec' c.messages, message_snapshot)
            (toggle_filter_lem vec idx j vec' t)),
      (λ other. ground (
        arith,
        message_snapshot,
        lookup-insert iface other vec' c.messages,
        lookup-insert_self iface vec' c.messages,
      )),
    )

flag_of-enable_all :
    (n : Text) (names : List Text) → flag_or true (flag_of n (enable_all names)) ≡ true
unfolding flag_of enable_all
flag_of-enable_all n [] = refl
flag_of-enable_all n (m ∷ names) = ground (arith, flag_of-enable_all n names)

-- PlaybackController::set_messages turns every message of its interface on, whatever its filter was,
-- and leaves the filters of all other interfaces.
pub is_message_enabled-set_messages :
    (c : Playback) (iface other name : Text) (names : List Text)
    → is_message_enabled (set_messages c iface names) other name
      ≡ (if key_eq other iface then true else is_message_enabled c other name)
unfolding is_message_enabled set_messages
is_message_enabled-set_messages c iface other name names =
    ground (
      arith,
      lookup-insert iface other (enable_all names) c.messages,
      flag_of-enable_all name names,
    )
