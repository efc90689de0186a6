-- ===== src/Player/Loop.antt =====
-- The loop of McapReader::play over the messages of a file, src/logger/McapReader.cpp, and what comes before it.
use caneo.Common.{ℕ, ◌⊎◌, inl, inr, Bool, true, false, none, some, List, [], ◌∷◌, if◌then◌else◌}
use caneo.Common.Text.{Text}
use caneo.Common.OrderedMap.{nat_key, text_key, pair_key, lookup, insert}
use caneo.Proto.{Descriptor, ProtobufReader}
use caneo.Topic.{ChannelKind, other_kind, ChannelInfo, classify_topic}
use caneo.Player.{Schema, View, Moment, Pace, no_pace, Played, load_schemas, turn}

is_other : ChannelKind → Bool
is_other other_kind = true
is_other _ = false

-- `channel_map`, from the topics of the channels.
pub load_channels : List (ℕ × Text) → List (ℕ × ChannelInfo)
unfolding insert is_other classify_topic
load_channels [] = []
load_channels ((id, topic) ∷ rest) =
    let more = load_channels rest in
    let info = classify_topic topic in if is_other info.kind then more else insert id info more

-- The file and the MCAP reader could be opened, or not; a file's messages come in the order of their times.
pub data LogFile : Type 0 where
  cannot_open cannot_read : LogFile
  log_file : List (ℕ × Schema) → List (ℕ × Text) → List (View × Moment) → LogFile

pub data Error : Type 0 where
  open_failed read_failed : Error

module _ (rd : ProtobufReader) (hash : Text → ℕ) (on_frame on_send : Bool) where
  unfoldable pub play_from :
      List (ℕ × ChannelInfo) → List (ℕ × Descriptor) → Pace → List (View × Moment) → List Played
  unfolding lookup turn
  play_from channels schemas pace [] = []
  play_from channels schemas pace ((view, m) ∷ rest) = elim (lookup view.channel_id channels) [
    | none ↦ play_from channels schemas pace rest
    | some info ↦ elim (turn rd hash on_frame on_send schemas info view m pace) [
      | none ↦ []
      | some (pace', p) ↦ p ∷ play_from channels schemas pace' rest
    ]
  ]

  -- The messages that are waited for, or the exception.
  unfoldable pub play : LogFile → List Played ⊎ Error
  unfolding load_schemas load_channels play_from
  play cannot_open = inr open_failed
  play cannot_read = inr read_failed
  play (log_file schemas topics messages) =
      inl (play_from (load_channels topics) (load_schemas rd schemas) no_pace messages)
