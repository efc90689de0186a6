-- ===== src/Send/Encoding.antt =====
-- What `SendModel` guarantees: sorted lists, writes to one value, and the bytes of a message.
use caneo.Common.{
  ℕ, zero, suc, ◌≡◌, refl, ap, ◌∙◌, ◌≢◌, ◌⊎◌, inl, Bool, ◌&&◌, Option, none, some, List, [], ◌∷◌,
  map, arith, ◌==◌, if◌then◌else◌, length, get_elem?, replicate, All, length-replicate,
}
use caneo.Common.OrderedMap.{nat_key, text_key, pair_key}
use mathlib.Core.List.{Perm}
use caneo.Common.Ieee.{Double, Ieee}
use caneo.Dbc.{Message, Network, network}
use caneo.Send.Sorting.{IsSortedBy, sort_by-IsSortedBy, sort_by-perm}
use caneo.Send.{
  SendSignal, SendMessage, SendModel, new_signal, new_message, new_model, set_signal, set_value,
  raw_of, encode_signals, encode_message, encode, Error,
}

-- A model built from a network holds its messages, each once, in the order of their IDs.
pub new_model-sorted :
    (msgs : Network) (model : SendModel)
    → new_model (network msgs) ≡ inl model
    → IsSortedBy (λ (m : SendMessage). m.id) model × Perm model (map new_message msgs)
unfolding new_model
new_model-sorted msgs model e = (
  rw (← inl_inj e) (sort_by-IsSortedBy (λ (m : SendMessage). m.id) (map new_message msgs)),
  rw (← inl_inj e) (sort_by-perm (λ (m : SendMessage). m.id) (map new_message msgs)),
)
  where
    inl_inj : {a b : SendModel} → ◌≡◌ {A = SendModel ⊎ Error} (inl a) (inl b) → a ≡ b
    inl_inj h = cc

-- The signals of a message stand in the order of their start bits, each once.
pub new_message-sorted :
    (m : Message)
    → IsSortedBy (λ (s : SendSignal). s.sig.start_bit) (new_message m).signals
      × Perm (new_message m).signals (map new_signal m.signals)
unfolding new_message
new_message-sorted m = (
  sort_by-IsSortedBy (λ (s : SendSignal). s.sig.start_bit) (map new_signal m.signals),
  sort_by-perm (λ (s : SendSignal). s.sig.start_bit) (map new_signal m.signals),
)

abbrev pub signal_value : Option SendSignal → Option Double
signal_value none = none
signal_value (some s) = some s.value

-- The value of a signal of a message of a model.
abbrev pub value_at : SendModel → ℕ → ℕ → Option Double
value_at [] mi si = none
value_at (m ∷ ms) zero si = signal_value (get_elem? m.signals si)
value_at (m ∷ ms) (suc mi) si = value_at ms mi si

abbrev pub overwrite : Bool → Double → Option Double → Option Double
overwrite b v none = none
overwrite b v (some w) = some (if b then v else w)

set_signal_lem :
    (ss : List SendSignal) (i j : ℕ) (v : Double)
    → signal_value (get_elem? (set_signal ss i v) j)
      ≡ overwrite (i == j) v (signal_value (get_elem? ss j))
unfolding set_signal
set_signal_lem [] i j v = refl
set_signal_lem (s ∷ ss) zero zero v = refl
set_signal_lem (s ∷ ss) zero (suc j) v = ground arith
set_signal_lem (s ∷ ss) (suc i) zero v = ground arith
set_signal_lem (s ∷ ss) (suc i) (suc j) v = set_signal_lem ss i j v ∙ ground arith

-- SendModel::set_value writes the value of the one signal that its indices name, if there is one.
pub value_at-set_value :
    (model : SendModel) (mi si mj sj : ℕ) (v : Double)
    → value_at (set_value model mi si v) mj sj
      ≡ overwrite (mi == mj && si == sj) v (value_at model mj sj)
unfolding set_value
value_at-set_value [] mi si mj sj v = refl
value_at-set_value (m ∷ ms) zero si zero sj v = set_signal_lem m.signals si sj v ∙ ground arith
value_at-set_value (m ∷ ms) zero si (suc mj) sj v = ground arith
value_at-set_value (m ∷ ms) (suc mi) si zero sj v = ground arith
value_at-set_value (m ∷ ms) (suc mi) si (suc mj) sj v =
    value_at-set_value ms mi si mj sj v ∙ ground arith

-- Writing to one message leaves the bytes of every other message as they were.
pub encode-set_value_ne :
    (fp : Ieee) (model : SendModel) (mi si mj : ℕ) (v : Double)
    → mi ≢ mj
    → encode fp (set_value model mi si v) mj ≡ encode fp model mj
unfolding encode set_value
encode-set_value_ne fp [] mi si mj v h = refl
encode-set_value_ne fp (m ∷ ms) zero si zero v h = absurd (h refl)
encode-set_value_ne fp (m ∷ ms) zero si (suc mj) v h = refl
encode-set_value_ne fp (m ∷ ms) (suc mi) si zero v h = refl
encode-set_value_ne fp (m ∷ ms) (suc mi) si (suc mj) v h =
    encode-set_value_ne fp ms mi si mj v (λ e. h (ap suc e))

-- Encoding a signal writes within the bytes that it is given.
abbrev pub KeepsLength : SendSignal → Type 0
KeepsLength s = (raw : ℕ) (bytes : List ℕ) → length (s.sig.encode raw bytes) ≡ length bytes

length-encode_signals :
    (fp : Ieee) (ss : List SendSignal) (bytes : List ℕ)
    → All KeepsLength ss
    → length (encode_signals fp ss bytes) ≡ length bytes
unfolding encode_signals
length-encode_signals fp [] bytes h = refl
length-encode_signals fp (s ∷ ss) bytes h =
    length-encode_signals fp ss _ h.1 ∙ h.0 (raw_of fp s) bytes

-- A message is encoded into as many bytes as its length says, if each of its signals stays within
-- the bytes that it is given.
pub length-encode_message :
    (fp : Ieee) (m : SendMessage) → All KeepsLength m.signals → length (encode_message fp m) ≡ m.dlc
unfolding encode_message
length-encode_message fp m h =
    length-encode_signals fp m.signals (replicate m.dlc 0) h ∙ length-replicate m.dlc 0

-- Encoding `t` does not touch the bits of `s`.
abbrev pub IsApart : SendSignal → SendSignal → Type 0
IsApart s t =
    (raw : ℕ) (bytes : List ℕ) → s.sig.decode (t.sig.encode raw bytes) ≡ s.sig.decode bytes

-- A signal reads back the raw value that it encodes, in a message of `n` bytes.
abbrev pub ReadsBack : Ieee → ℕ → SendSignal → Type 0
ReadsBack fp n s =
    (bytes : List ℕ)
    → length bytes ≡ n
    → s.sig.decode (s.sig.encode (raw_of fp s) bytes) ≡ raw_of fp s

-- Every signal reads back its own value, keeps to the bytes, and no later one touches its bits.
abbrev pub IsLaidOut : Ieee → ℕ → List SendSignal → Type 0
IsLaidOut fp n [] = Unit
IsLaidOut fp n (s ∷ ss) = ReadsBack fp n s × KeepsLength s × All (IsApart s) ss × IsLaidOut fp n ss

decode_later :
    (fp : Ieee) (s : SendSignal) (ss : List SendSignal) (bytes : List ℕ)
    → All (IsApart s) ss
    → s.sig.decode (encode_signals fp ss bytes) ≡ s.sig.decode bytes
unfolding encode_signals
decode_later fp s [] bytes h = refl
decode_later fp s (t ∷ ss) bytes h = decode_later fp s ss _ h.1 ∙ h.0 (raw_of fp t) bytes

decode_signals :
    (fp : Ieee) (ss : List SendSignal) (bytes : List ℕ)
    → IsLaidOut fp (length bytes) ss
    → All (λ s. s.sig.decode (encode_signals fp ss bytes) ≡ raw_of fp s) ss
unfolding encode_signals
decode_signals fp [] bytes h = tt
decode_signals fp (s ∷ ss) bytes h = (
  decode_later fp s ss _ h.2 ∙ h.0 bytes refl,
  decode_signals fp ss (s.sig.encode (raw_of fp s) bytes) (rw (h.1 (raw_of fp s) bytes) h.3),
)

-- Where the signals of a message do not overlap and each reads back what it writes, decoding the
-- encoded message gives back the raw value of every signal.
pub decode-encode_message :
    (fp : Ieee) (m : SendMessage)
    → IsLaidOut fp m.dlc m.signals
    → All (λ s. s.sig.decode (encode_message fp m) ≡ raw_of fp s) m.signals
unfolding encode_message
decode-encode_message fp m h =
    decode_signals fp m.signals (replicate m.dlc 0) (rw (length-replicate {A = ℕ} m.dlc 0) h)
