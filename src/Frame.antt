-- ===== src/Frame.antt =====
-- src/frame: DecodedSignal, DataFrame, CanHeader, CanFrame, and DataFrameSet with its `update`.
-- A `double` is its IEEE-754 bit pattern, a time point its signed count of nanoseconds.
pub mod SetLaws
mod Tests
use caneo.Common.{
  ℕ, Bool, true, false, not, ◌&&◌, List, [], ◌∷◌, ◌++◌, Option, none, some, if◌then◌else◌, is_empty,
  length,
}
use caneo.Common.Text.{Text}
use caneo.Common.Int.{ℤ, ◌-ℤ◌}
use caneo.Common.Ieee.{Double}
use caneo.Common.OrderedMap.{lookup, insert, nat_key}

pub record DecodedSignal : Type 0 where
  pub name : Text
  pub value : Double
  pub unit : Text
  pub min_val : Double
  pub max_val : Double

pub record CanHeader : Type 0 where
  pub id : ℕ
  pub interface : Text
  pub dlc : ℕ

-- The members of DataFrame and of CanFrame, which extends it.
pub record CanFrame : Type 0 where
  pub header : CanHeader
  pub payload : List ℕ
  pub decoded : List DecodedSignal
  pub msg_name : Text
  pub timestamp : ℤ

-- The constructor: `now` is the wall clock that DataFrame's constructor reads.
unfoldable pub new_frame : CanHeader → List ℕ → ℤ → CanFrame
new_frame header payload now = record {
  header = header;
  payload = payload;
  decoded = [];
  msg_name = [];
  timestamp = now;
}

-- CanFrame::addDecoded
unfoldable pub add_decoded : CanFrame → DecodedSignal → CanFrame
add_decoded frame sig = record frame { decoded = frame.decoded ++ (sig ∷ []) }

-- CanFrame::set_msg_name
unfoldable pub set_msg_name : CanFrame → Text → CanFrame
set_msg_name frame name = record frame { msg_name = name }

-- CanFrame::set_timestamp
unfoldable pub set_timestamp : CanFrame → ℤ → CanFrame
set_timestamp frame ts = record frame { timestamp = ts }

pub record DataFrameSet : Type 0 where
  pub interface : Text
  pub frames : List (ℕ × CanFrame)
  pub deltas : List (ℕ × ℤ)

unfoldable pub new_set : Text → DataFrameSet
new_set interface = record { interface = interface; frames = []; deltas = [] }

-- The loop `for (const auto& sig : it->second.decoded()) merged.addDecoded(sig);`.
add_all : CanFrame → List DecodedSignal → CanFrame
unfolding add_decoded
add_all frame [] = frame
add_all frame (sig ∷ sigs) = add_all (add_decoded frame sig) sigs

-- A frame that could not be decoded takes over the signals and the name of the one before.
merge : CanFrame → CanFrame → CanFrame
unfolding add_all set_msg_name
merge old frame =
    let merged = add_all frame old.decoded in
    if is_empty merged.msg_name then set_msg_name merged old.msg_name else merged

-- What DataFrameSet::update stores for a frame whose ID was seen before.
merge_or_replace : CanFrame → CanFrame → CanFrame
unfolding merge
merge_or_replace old frame =
    if is_empty frame.decoded && not (is_empty old.decoded) then merge old frame else frame

unfoldable pub update : DataFrameSet → CanFrame → DataFrameSet
unfolding merge_or_replace lookup insert
update set frame =
    let id = frame.header.id in
    elim (lookup id set.frames) [
      | none ↦ record set { frames = insert id frame set.frames }
      | some old ↦ record set {
        frames = insert id (merge_or_replace old frame) set.frames;
        deltas = insert id (frame.timestamp -ℤ old.timestamp) set.deltas;
      }
    ]

-- DataFrameSet::size, frames, delta
pub size : DataFrameSet → ℕ
size set = length set.frames

unfoldable pub delta : DataFrameSet → ℕ → Option ℤ
unfolding lookup
delta set id = lookup id set.deltas
