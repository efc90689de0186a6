-- ===== src/Dbc.antt =====
-- What the program uses of the DBC library (dbcppp/Network.h): ISignal, IMessage and INetwork as
-- records of what their accessors return. Nothing here is code of the repository.
use Prim.Native.Nat.{ℕ}
use mathlib.Core.Option.{Option}
use mathlib.Core.List.{List}
use caneo.Common.Text.{Text}
use caneo.Common.Ieee.{Double}

pub data ExtendedValueType : Type 0 where
  integer float double : ExtendedValueType

pub data Multiplexer : Type 0 where
  no_mux mux_switch mux_value : Multiplexer

pub record Signal : Type 0 where
  pub name : Text
  pub unit : Text
  pub minimum : Double
  pub maximum : Double
  pub factor : Double
  pub offset : Double
  pub start_bit : ℕ
  pub bit_size : ℕ
  pub value_type : ExtendedValueType
  pub multiplexer : Multiplexer
  pub switch_value : ℕ
  -- A raw value is 64 bits wide, sign-extended where the signal is signed.
  pub decode : List ℕ → ℕ
  pub encode : ℕ → List ℕ → List ℕ
  pub raw_to_phys : ℕ → Double
  pub phys_to_raw : Double → ℕ

pub record Message : Type 0 where
  pub id : ℕ
  pub name : Text
  pub message_size : ℕ
  pub signals : List Signal
  pub mux_signal : Option Signal

abbrev pub Network : Type 0
Network = List Message

-- A DBC path, opened and parsed.
pub data Loaded : Type 0 where
  cannot_open cannot_parse : Loaded
  network : Network → Loaded
