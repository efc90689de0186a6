-- ===== src/Live.antt =====
-- src/modes/run_live.cpp: the parts put together, without an interface for the user. One thread runs all of it, a
-- callback for each frame that a socket reads.
pub mod Shown
mod Tests
use caneo.Common.{
  ℕ, ◌+◌, ◌⊎◌, inl, inr, Option, none, some, List, [], ◌∷◌, ◌++◌, if◌then◌else◌, get_elem?, set,
  any,
}
use caneo.Common.Text.{Text, text_eq}
use caneo.Common.Int.{ℤ}
use caneo.Common.Ieee.{Ieee}
use caneo.Frame.{CanFrame, DataFrameSet, new_set, update}
use caneo.Dbc.{Loaded}
use caneo.Decode.{decode_frame}
use caneo.Decode
use caneo.Proto.{Descriptor, Protobuf}
use caneo.ProtoLog.{MessageType, Library}
use caneo.ProtoLog.Build
use caneo.Stream.{Subscriber, broadcast}
use caneo.Mcap.{Call}
use caneo.Logs.{LogController, log_can_frame, log_scalar, is_logging}
use caneo.Model.{Effect, output_cb, Script, ModelEngine, on_frame}

-- An interface of the configuration, with what its DBC path leads to, nothing where it is empty.
pub record InterfaceConfig : Type 0 where
  pub name : Text
  pub dbc : Option Loaded

-- The objects that a frame goes through; the gRPC server and the model may be missing.
pub record Live (S : Type 0) : Type 0 where
  pub decoders : Decode.Registry
  pub proto_registry : Build.Registry
  pub sets : List DataFrameSet
  pub log_controller : LogController
  pub grpc_server : Option (List Subscriber)
  pub model_engine : Option (ModelEngine S)

-- The loop over the interfaces; an exception of the decoder ends the program.
pub record Parts : Type 0 where
  pub decoders : Decode.Registry
  pub proto_registry : Build.Registry
  pub sets : List DataFrameSet

no_parts : Parts
no_parts = record { decoders = []; proto_registry = []; sets = [] }

module _ (lib : Library) where
  add_part : Parts → InterfaceConfig → Parts ⊎ Decode.Error
  add_part p cfg =
      let sets = p.sets ++ (new_set cfg.name ∷ []) in
      elim cfg.dbc [
        | none ↦ inl (record p { sets = sets })
        | some dbc ↦ elim (Decode.add_interface p.decoders cfg.name dbc) [
          | inr e ↦ inr e
          | inl decoders ↦ inl (record {
            decoders = decoders;
            proto_registry = Build.add_interface lib p.proto_registry cfg.name (some dbc);
            sets = sets;
          })
        ]
      ]

  add_parts : Parts → List InterfaceConfig → Parts ⊎ Decode.Error
  unfolding add_part
  add_parts p [] = inl p
  add_parts p (cfg ∷ cfgs) = elim (add_part p cfg) [ inl q ↦ add_parts q cfgs | inr e ↦ inr e ]

  pub new_parts : List InterfaceConfig → Parts ⊎ Decode.Error
  unfolding no_parts add_parts
  new_parts cfgs = add_parts no_parts cfgs

-- `send_fn`: which kind of socket sends for an interface, if there is one. The maps' keys are the interfaces.
pub data Route : Type 0 where
  over_grpc over_can nowhere : Route

pub send_fn : List Text → List Text → Text → Route
send_fn grpc_socket_map socket_map iface =
    if any (text_eq iface) grpc_socket_map
    then over_grpc
    else if any (text_eq iface) socket_map
    then over_can
    else nowhere

-- The frame behind `try { decoders.decode(*f); } catch (...) {}`.
decoded_or_same : CanFrame → CanFrame ⊎ Decode.Error → CanFrame
decoded_or_same f (inl g) = g
decoded_or_same f (inr e) = f

broadcast_to : Option (List Subscriber) → CanFrame → ℤ → Option (List Subscriber)
unfolding broadcast
broadcast_to none f now = none
broadcast_to (some subs) f now = some (broadcast subs f now)

pub show_at : List DataFrameSet → ℕ → CanFrame → List DataFrameSet
unfolding update
show_at sets i f = elim (get_elem? sets i) [ none ↦ sets | some s ↦ set sets i (update s f) ]

-- `type_view` is what the protobuf library shows of a message type.
module _ {S : Type 0} (fp : Ieee) (lib : Library) (pb : Protobuf)
    (type_view : MessageType → Descriptor) (new_id : List Call → ℕ) (run : Script S) where
  -- The engine's logger is the log controller, and it has no output callback.
  apply_effects : LogController → List Effect → ℕ → LogController
  unfolding log_scalar
  apply_effects c [] now = c
  apply_effects c (Effect.log_scalar topic v ∷ es) now =
      apply_effects (log_scalar pb new_id c topic v now) es now
  apply_effects c (output_cb name v ∷ es) now = apply_effects c es now

  run_model : Live S → CanFrame → ℕ → Live S
  unfolding on_frame apply_effects
  run_model live f now = elim live.model_engine [
    | none ↦ live
    | some e ↦
        let r = on_frame fp run e f in
        record live {
          model_engine = some r.0;
          log_controller = apply_effects live.log_controller r.1 now;
        }
  ]

  describe_frame : Build.Registry → CanFrame → Option Descriptor
  describe_frame reg f = elim (Build.get reg f.header.interface) [
    | none ↦ none
    | some log ↦ elim (Build.descriptor log f.header.id) [
      | none ↦ none
      | some t ↦ some (type_view t)
    ]
  ]

  log_received : Live S → CanFrame → Live S
  unfolding is_logging log_can_frame describe_frame
  log_received live f =
      if is_logging live.log_controller
      then record live {
        log_controller =
            log_can_frame fp pb new_id (Build.serialize lib live.proto_registry)
              (describe_frame live.proto_registry) live.log_controller f;
      }
      else live

  -- The callback of the socket `i`; the clocks are those of broadcast and of log_scalar.
  unfoldable pub receive : ℕ → ℤ → ℕ → Live S → CanFrame → Live S
  unfolding broadcast_to decode_frame decoded_or_same show_at run_model log_received
  receive i now_us now_ns live f =
      let g = decoded_or_same f (decode_frame fp live.decoders f) in
      let shown : Live S = record live {
        grpc_server = broadcast_to live.grpc_server f now_us;
        sets = show_at live.sets i g;
      } in
      log_received (run_model shown g now_ns) g
