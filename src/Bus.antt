-- ===== src/Bus.antt =====
-- The frames on their way: src/socket/SocketCAN.cpp with the kernel's structures, src/socket/SocketGrpc.cpp, and
-- the Send call of src/grpc/CanStreamService.cpp. The system calls and gRPC are what they return.
pub mod Travel
pub mod Open
pub mod Reader
mod Tests
use caneo.Common.{
  ℕ, ◌+◌, ◌-◌, ◌*◌, ◌%◌, ◌^◌, Bool, true, false, not, ◌||◌, Option, none, some, List, [], ◌∷◌, ◌++◌,
  ltb, ◌==◌, if◌then◌else◌, length, take, replicate,
}
use caneo.Common.Text.{Text}
use caneo.Common.Int.{ℤ, pos, negsuc, pos_part, ◌+ℤ◌}
use caneo.Frame.{CanFrame, new_frame, set_timestamp}
use caneo.Stream.{RawCanFrame}

-- `struct can_frame` of <linux/can.h>: eight bytes of data, of which `can_dlc` count.
pub record RawCan : Type 0 where
  pub can_id : ℕ
  pub can_dlc : ℕ
  pub bytes : List ℕ

-- `timespec`, and the software and hardware stamps of SCM_TIMESTAMPING.
pub record TimeSpec : Type 0 where
  pub tv_sec : ℤ
  pub tv_nsec : ℤ

pub record Stamps : Type 0 where
  pub software : TimeSpec
  pub hardware : TimeSpec

-- What recvmsg gives: an error (or nothing more to read), fewer bytes than a frame, or a frame.
pub data Received : Type 0 where
  nothing runt : Received
  complete : RawCan → Option Stamps → Received

-- `id & CAN_EFF_MASK`
abbrev pub eff_mask : ℕ → ℕ
eff_mask id = id % 2 ^ 29

abbrev pub smaller : ℕ → ℕ → ℕ
smaller a b = if ltb a b then a else b

-- SocketCAN::send, up to the write.
unfoldable pub to_raw : ℕ → List ℕ → RawCan
to_raw id bytes =
    let dlc = smaller (length bytes) 8 in
    record { can_id = eff_mask id; can_dlc = dlc; bytes = take dlc bytes ++ replicate (8 - dlc) 0 }

is_zero : ℤ → Bool
is_zero (pos n) = n == 0
is_zero (negsuc n) = false

is_set : TimeSpec → Bool
unfolding is_zero
is_set t = not (is_zero t.tv_sec) || not (is_zero t.tv_nsec)

-- In nanoseconds.
time_of : TimeSpec → ℤ
time_of t = pos (pos_part t.tv_sec * 1000000000) +ℤ t.tv_nsec

-- The hardware stamp if there is one, else the software stamp.
pub chosen : Option Stamps → Option ℤ
unfolding is_set time_of
chosen none = none
chosen (some st) =
    if is_set st.hardware
    then some (time_of st.hardware)
    else if is_set st.software
    then some (time_of st.software)
    else none

pub stamp : CanFrame → Option ℤ → CanFrame
unfolding set_timestamp
stamp f none = f
stamp f (some t) = set_timestamp f t

-- The frame that readFrame makes of a complete read. The kernel sees to `can_dlc` being 8 at most.
unfoldable pub frame_of : Text → ℤ → RawCan → Option Stamps → CanFrame
unfolding new_frame stamp chosen
frame_of interface now raw stamps =
    stamp
      (new_frame (record { id = eff_mask raw.can_id; interface = interface; dlc = raw.can_dlc })
        (take raw.can_dlc raw.bytes) now)
      (chosen stamps)

-- SocketCAN::readFrame: the frame that goes to the callback, and whether there may be more to read.
pub read_frame : Text → ℤ → Received → Option CanFrame × Bool
unfolding frame_of
read_frame interface now nothing = (none, false)
read_frame interface now runt = (none, true)
read_frame interface now (complete raw stamps) = (some (frame_of interface now raw stamps), true)

abbrev pub cons_some : Option CanFrame → List CanFrame → List CanFrame
cons_some none fs = fs
cons_some (some f) fs = f ∷ fs

-- `while (readFrame()) {}`, on what recvmsg gives from now on. The clock is read once for each frame.
pub read_all : Text → List (ℤ × Received) → List CanFrame
unfolding read_frame
read_all interface [] = []
read_all interface ((now, r) ∷ rest) =
    let more = read_all interface rest in
    let got = read_frame interface now r in
    if got.1 then cons_some got.0 more else cons_some got.0 []

-- SocketGrpc::send, up to the call.
unfoldable pub to_request : Text → ℕ → List ℕ → RawCanFrame
to_request interface id bytes = record {
  interface = interface;
  can_id = id % 2 ^ 32;
  dlc = length bytes % 2 ^ 32;
  bytes = bytes;
  timestamp_us = pos 0;
}

-- The frame that the reader thread of SocketGrpc posts; `now` is the clock of CanFrame's constructor.
unfoldable pub from_proto : Text → RawCanFrame → ℤ → CanFrame
unfolding new_frame
from_proto interface p now =
    new_frame (record { id = p.can_id; interface = interface; dlc = p.dlc % 2 ^ 8 }) p.bytes now

-- CanStreamService::Send: the call of `send_fn_`, if one is set, and what the client is told.
unfoldable pub handle_send : Bool → RawCanFrame → Option (Text × ℕ × List ℕ) × Bool
handle_send has_send_fn req =
    if has_send_fn then (some (req.interface, req.can_id, req.bytes), true) else (none, false)
