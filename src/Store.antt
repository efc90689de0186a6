-- ===== src/Store.antt =====
-- src/model/SignalStore: the last value of every signal that was decoded.
pub mod Laws
use caneo.Common.{◌+◌, ◌/◌, Option, List, [], ◌∷◌, ◌++◌}
use caneo.Common.Text.{Text}
use caneo.Common.OrderedMap.{nat_key, text_key, pair_key, lookup, insert}
use caneo.Common.Ieee.{Double}
use caneo.Frame.{CanFrame, DecodedSignal}

-- `values_`
abbrev pub SignalStore : Type 0
SignalStore = List (Text × Double)

abbrev pub prefix_of : Text → Text → Text
prefix_of iface msg = iface ++ (b'/' ∷ (msg ++ (b'/' ∷ [])))

pub store_all : Text → SignalStore → List DecodedSignal → SignalStore
unfolding insert
store_all prefix values [] = values
store_all prefix values (s ∷ ss) = store_all prefix (insert (prefix ++ s.name) s.value values) ss

unfoldable pub update : SignalStore → CanFrame → SignalStore
unfolding store_all
update values frame =
    store_all (prefix_of frame.header.interface frame.msg_name) values frame.decoded

unfoldable pub get : SignalStore → Text → Text → Text → Option Double
unfolding lookup
get values iface msg signal = lookup (iface ++ (b'/' ∷ (msg ++ (b'/' ∷ signal)))) values
