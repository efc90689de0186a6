-- ===== src/Mcap.antt =====
-- src/logger/McapLogger: the schemas and channels of a log file and the messages written to them.
-- The writer of the MCAP library is the list of its calls, the last one first; `new_id` is the ID that
-- the library gives to a schema or channel after these calls.
pub mod Registered
pub mod Declared
mod Tests
use caneo.Common.Ieee.{Double}
use caneo.Common.{ℕ, ◌+◌, ◌-◌, ◌%◌, ◌^◌, Option, none, some, List, [], ◌∷◌, ◌++◌}
use caneo.Common.Text.{Text, codes}
use caneo.Common.Int.{ℤ, pos, negsuc}
use caneo.Common.OrderedMap.{nat_key, text_key, pair_key, lookup, insert}
use caneo.Frame.{CanFrame}
use caneo.Proto.{Descriptor, uint32, uint32s, double, Protobuf}
use caneo.Topic.{base_topic, data_suffix, raw_suffix, ratio_suffix}

pub data Call : Type 0 where
  add_schema : Text → Text → ℕ → Call
  add_channel : Text → ℕ → ℕ → Call
  write : ℕ → ℕ → Text → Call

pub record McapLogger : Type 0 where
  pub calls : List Call
  pub channels : List (Text × ℕ)
  pub schemas : List (Text × ℕ)
  pub fallback_descriptor : Option Descriptor
  pub scalar_descriptor : Option Descriptor
  pub raw_descriptor : Option Descriptor

-- The constructor, where the file could be opened.
unfoldable pub new_logger : McapLogger
new_logger = record {
  calls = [];
  channels = [];
  schemas = [];
  fallback_descriptor = none;
  scalar_descriptor = none;
  raw_descriptor = none;
}

-- frame_ns: the time in nanoseconds, cast to `uint64_t`.
frame_ns : ℤ → ℕ
frame_ns (pos n) = n % 2 ^ 64
frame_ns (negsuc n) = 2 ^ 64 - 1 - n % 2 ^ 64

module _ (new_id : List Call → ℕ) where
  pub get_or_register_schema : McapLogger → Descriptor → McapLogger × ℕ
  unfolding lookup insert
  get_or_register_schema lg d = elim (lookup d.full_name lg.schemas) [
    | some id ↦ (lg, id)
    | none ↦
        let id = new_id lg.calls in
        (
          record lg {
            calls = add_schema d.full_name d.file id ∷ lg.calls;
            schemas = insert d.full_name id lg.schemas;
          },
          id,
        )
  ]

  pub get_or_register_channel : McapLogger → Text → ℕ → McapLogger × ℕ
  unfolding lookup insert
  get_or_register_channel lg topic schema_id = elim (lookup topic lg.channels) [
    | some id ↦ (lg, id)
    | none ↦
        let id = new_id lg.calls in
        (
          record lg {
            calls = add_channel topic schema_id id ∷ lg.calls;
            channels = insert topic id lg.channels;
          },
          id,
        )
  ]

  -- Registering a topic and writing to it. A failed write is only printed.
  pub write_to : McapLogger → Text → Descriptor → ℕ → Text → McapLogger
  unfolding get_or_register_schema get_or_register_channel
  write_to lg topic d ts bytes =
      let s = get_or_register_schema lg d in
      let c = get_or_register_channel s.0 topic s.1 in
      record c.0 { calls = write c.1 ts bytes ∷ c.0.calls }

-- A descriptor that is kept once it could be built.
cached : Option Descriptor → Option Descriptor → Option Descriptor
cached (some d) built = some d
cached none built = built

module _ (pb : Protobuf) (new_id : List Call → ℕ) where
  get_fallback_descriptor : McapLogger → McapLogger
  unfolding cached
  get_fallback_descriptor lg = record lg {
    fallback_descriptor = cached lg.fallback_descriptor (pb.build (codes "raw_can_frame.proto"));
  }

  get_scalar_descriptor : McapLogger → McapLogger
  unfolding cached
  get_scalar_descriptor lg = record lg {
    scalar_descriptor = cached lg.scalar_descriptor (pb.build (codes "scalar_value.proto"));
  }

  get_raw_descriptor : McapLogger → McapLogger
  unfolding cached
  get_raw_descriptor lg = record lg {
    raw_descriptor = cached lg.raw_descriptor (pb.build (codes "raw_frame.proto"));
  }

  serialize_fallback : Descriptor → CanFrame → Text
  serialize_fallback d frame = pb.serialize d ((codes "data", uint32s frame.payload) ∷ [])

  serialize_scalar : Descriptor → Double → Text
  serialize_scalar d value = pb.serialize d ((codes "value", double value) ∷ [])

  unfoldable pub serialize_raw : Descriptor → CanFrame → Text
  serialize_raw d frame =
      pb.serialize d
        ((codes "can_id", uint32 frame.header.id) ∷ (codes "payload", uint32s frame.payload) ∷ [])

  unfoldable pub log_scalar_at : McapLogger → Text → Double → ℕ → McapLogger
  unfolding get_scalar_descriptor serialize_scalar write_to
  log_scalar_at lg topic value ts =
      let lg' = get_scalar_descriptor lg in
      elim lg'.scalar_descriptor [
        | none ↦ lg'
        | some d ↦ write_to new_id lg' topic d ts (serialize_scalar d value)
      ]

  write_raw : McapLogger → Text → CanFrame → ℕ → McapLogger
  unfolding get_raw_descriptor serialize_raw write_to
  write_raw lg base frame ts =
      let lg' = get_raw_descriptor lg in
      elim lg'.raw_descriptor [
        | none ↦ lg'
        | some d ↦ write_to new_id lg' (base ++ raw_suffix) d ts (serialize_raw d frame)
      ]

  write_ratio : McapLogger → Text → Option Double → ℕ → McapLogger
  unfolding log_scalar_at
  write_ratio lg base none ts = lg
  write_ratio lg base (some ratio) ts = log_scalar_at lg (base ++ ratio_suffix) ratio ts

  -- What log() does behind the choice of the descriptor.
  write_frame : McapLogger → Text → Descriptor → CanFrame → Text → Option Double → McapLogger
  unfolding write_to write_raw write_ratio frame_ns
  write_frame lg base d frame bytes ratio =
      let ts = frame_ns frame.timestamp in
      let lg1 = write_to new_id lg (base ++ data_suffix) d ts bytes in
      write_ratio (write_raw lg1 base frame ts) base ratio ts

  unfoldable pub log : McapLogger → CanFrame → Option Descriptor → Text → Option Double → McapLogger
  unfolding base_topic write_frame get_fallback_descriptor serialize_fallback
  log lg frame (some d) serialized ratio =
      write_frame lg (base_topic frame.header.interface (some d.name) frame.header.id) d frame
        serialized ratio
  log lg frame none serialized ratio =
      let lg' = get_fallback_descriptor lg in
      let base = base_topic frame.header.interface none frame.header.id in
      elim lg'.fallback_descriptor [
        | none ↦ lg'
        | some d ↦ write_frame lg' base d frame (serialize_fallback d frame) ratio
      ]
