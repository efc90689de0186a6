-- ===== src/Mcap/Declared.antt =====
-- Everything that the logger writes is declared: src/logger/McapLogger.cpp.
use caneo.Common.Ieee.{Double}
use caneo.Common.{
  ℕ, ◌≡◌, refl, inl, inr, true, Option, none, some, List, [], ◌∷◌, ◌++◌, Option-cases,
}
use caneo.Common.Text.{Text}
use caneo.Common.OrderedMap.{nat_key, text_key, pair_key, lookup}
use caneo.Frame.{CanFrame}
use caneo.Proto.{Descriptor, Protobuf}
use caneo.Topic.{raw_suffix}
use caneo.Mcap.{
  Call, McapLogger, new_logger, get_fallback_descriptor, get_scalar_descriptor, get_raw_descriptor,
  log_scalar_at, write_raw, write_ratio, write_frame, log,
}
use caneo.Mcap.Registered.{is_declared, IsRegistered, write_to-IsRegistered}

-- What is known of the logger does not change with the descriptors that it keeps.
IsRegistered-same :
    (lg lg' : McapLogger)
    → lg'.calls ≡ lg.calls
    → lg'.channels ≡ lg.channels
    → lg'.schemas ≡ lg.schemas
    → IsRegistered lg
    → IsRegistered lg'
IsRegistered-same lg lg' e k m v = record {
  declared = rw e v.declared;
  channels_known = rw (e, k) v.channels_known;
  schemas_known = rw (e, m) v.schemas_known;
  topics_kept = rw (e, k) v.topics_kept;
  names_kept = rw (e, m) v.names_kept;
}

module _ (pb : Protobuf) (new_id : List Call → ℕ) where
  log_scalar_at-IsRegistered :
      (lg : McapLogger) (t : Text) (x : Double) (ts : ℕ)
      → IsRegistered lg
      → IsRegistered (log_scalar_at pb new_id lg t x ts)
  unfolding log_scalar_at get_scalar_descriptor
  log_scalar_at-IsRegistered lg t x ts v =
      let lg' = get_scalar_descriptor pb new_id lg in
      let v' : IsRegistered lg' = IsRegistered-same lg lg' refl refl refl v in
      elim (Option-cases lg'.scalar_descriptor) [
        | inl e ↦ rw (e, log_scalar_at) v'
        | inr (d, e) ↦ rw (e, log_scalar_at) (write_to-IsRegistered new_id lg' t d ts _ v')
      ]

  write_raw-IsRegistered :
      (lg : McapLogger) (base : Text) (frame : CanFrame) (ts : ℕ)
      → IsRegistered lg
      → IsRegistered (write_raw pb new_id lg base frame ts)
  unfolding write_raw get_raw_descriptor
  write_raw-IsRegistered lg base frame ts v =
      let lg' = get_raw_descriptor pb new_id lg in
      let v' : IsRegistered lg' = IsRegistered-same lg lg' refl refl refl v in
      elim (Option-cases lg'.raw_descriptor) [
        | inl e ↦ rw (e, write_raw) v'
        | inr (d, e) ↦
            rw (e, write_raw) (write_to-IsRegistered new_id lg' (base ++ raw_suffix) d ts _ v')
      ]

  write_ratio-IsRegistered :
      (lg : McapLogger) (base : Text) (ratio : Option Double) (ts : ℕ)
      → IsRegistered lg
      → IsRegistered (write_ratio pb new_id lg base ratio ts)
  unfolding write_ratio
  write_ratio-IsRegistered lg base none ts v = v
  write_ratio-IsRegistered lg base (some x) ts v = log_scalar_at-IsRegistered lg _ x ts v

  write_frame-IsRegistered :
      (lg : McapLogger) (base : Text) (d : Descriptor) (frame : CanFrame) (bytes : Text)
      (ratio : Option Double)
      → IsRegistered lg
      → IsRegistered (write_frame pb new_id lg base d frame bytes ratio)
  unfolding write_frame
  write_frame-IsRegistered lg base d frame bytes ratio v =
      write_ratio-IsRegistered _ base ratio _
        (write_raw-IsRegistered _ base frame _ (write_to-IsRegistered new_id lg _ d _ bytes v))

  log-IsRegistered :
      (lg : McapLogger) (frame : CanFrame) (desc : Option Descriptor) (serialized : Text)
      (ratio : Option Double)
      → IsRegistered lg
      → IsRegistered (log pb new_id lg frame desc serialized ratio)
  unfolding log get_fallback_descriptor
  log-IsRegistered lg frame (some d) serialized ratio v =
      write_frame-IsRegistered lg _ d frame serialized ratio v
  log-IsRegistered lg frame none serialized ratio v =
      let lg' = get_fallback_descriptor pb new_id lg in
      let v' : IsRegistered lg' = IsRegistered-same lg lg' refl refl refl v in
      elim (Option-cases lg'.fallback_descriptor) [
        | inl e ↦ rw (e, log) v'
        | inr (d, e) ↦ rw (e, log) (write_frame-IsRegistered lg' _ d frame _ ratio v')
      ]

-- A call of the logger.
pub data Entry : Type 0 where
  frame_entry : CanFrame → Option Descriptor → Text → Option Double → Entry
  scalar_entry : Text → Double → ℕ → Entry

abbrev pub log_all : Protobuf → (List Call → ℕ) → McapLogger → List Entry → McapLogger
log_all pb new_id lg [] = lg
log_all pb new_id lg (frame_entry f d s r ∷ rest) =
    log_all pb new_id (log pb new_id lg f d s r) rest
log_all pb new_id lg (scalar_entry t x ts ∷ rest) =
    log_all pb new_id (log_scalar_at pb new_id lg t x ts) rest

log_all-IsRegistered :
    (pb : Protobuf) (new_id : List Call → ℕ) (lg : McapLogger) (l : List Entry)
    → IsRegistered lg
    → IsRegistered (log_all pb new_id lg l)
log_all-IsRegistered pb new_id lg [] v = v
log_all-IsRegistered pb new_id lg (frame_entry f d s r ∷ rest) v =
    log_all-IsRegistered pb new_id (log pb new_id lg f d s r) rest
      (log-IsRegistered pb new_id lg f d s r v)
log_all-IsRegistered pb new_id lg (scalar_entry t x ts ∷ rest) v =
    log_all-IsRegistered pb new_id (log_scalar_at pb new_id lg t x ts) rest
      (log_scalar_at-IsRegistered pb new_id lg t x ts v)

-- Whatever is logged to a new file: every message is in a channel that was declared before it, every
-- channel has a schema that was declared before it, no topic has two channels and no name two schemas.
pub log_all-declared :
    (pb : Protobuf) (new_id : List Call → ℕ) (l : List Entry)
    → is_declared (log_all pb new_id new_logger l).calls ≡ true
unfolding new_logger lookup
log_all-declared pb new_id l =
    (log_all-IsRegistered pb new_id new_logger l (record {
      declared = refl;
      channels_known = λ t i h. cc;
      schemas_known = λ t i h. cc;
      topics_kept = λ t h. refl;
      names_kept = λ t h. refl;
    })).declared
