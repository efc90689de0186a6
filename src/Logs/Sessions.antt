-- ===== src/Logs/Sessions.antt =====
-- What a log knows of earlier frames: src/logger/LogController.cpp and src/modes/log_frame.hpp.
use caneo.Common.Ieee.{Double, Ieee}
use caneo.Common.{
  ℕ, ◌≡◌, refl, ap, ◌∙◌, inl, inr, Bool, true, Option, none, some, List, [], ◌∷◌, arith,
  if◌then◌else◌, Option-cases,
}
use caneo.Common.Text.{Text}
use caneo.Common.Int.{ℤ, ◌-ℤ◌}
use caneo.Common.OrderedMap.{nat_key, text_key, pair_key, key_eq, lookup, lookup-insert}
use mathlib.Core.Path.{subst}
use caneo.Frame.{CanFrame}
use caneo.Proto.{Descriptor, Protobuf}
use caneo.Mcap.{Call, McapLogger}
use caneo.Logs.{
  Times, LogController, new_controller, start, stop, is_logging, key_of, ratio_ms, keep_time,
  log_frame, log_can_frame, forward, log_scalar,
}

-- A call of a method that changes the controller.
pub data Op : Type 0 where
  start_op : Text → Bool → ℤ → Op
  stop_op : Op
  frame_op : CanFrame → Op
  log_op : CanFrame → Option Descriptor → Text → Option Double → Op
  scalar_op : Text → Double → ℕ → Op

module _ (fp : Ieee) (pb : Protobuf) (new_id : List Call → ℕ) (serialize : CanFrame → Text)
    (describe : CanFrame → Option Descriptor) where
  abbrev pub step : LogController → Op → LogController
  step c (start_op path opened now) = (start c path opened now).0
  step c stop_op = stop c
  step c (frame_op frame) = log_can_frame fp pb new_id serialize describe c frame
  step c (log_op frame desc s r) = forward pb new_id c frame desc s r
  step c (scalar_op topic x now) = log_scalar pb new_id c topic x now

  abbrev pub run : LogController → List Op → LogController
  run c [] = c
  run c (op ∷ ops) = run (step c op) ops

  -- No frame's time is known without a log.
  abbrev IsFresh : LogController → Type 0
  IsFresh c = c.logger ≡ none → c.last_ts ≡ []

  step-IsFresh : (c : LogController) (op : Op) → IsFresh c → IsFresh (step c op)
  unfolding start stop log_can_frame forward log_scalar
  step-IsFresh c (start_op path opened now) v = ground (arith, v)
  step-IsFresh c stop_op v = λ h. refl
  step-IsFresh c (frame_op frame) v = ground (arith, v)
  step-IsFresh c (log_op frame desc s r) v = ground (arith, v)
  step-IsFresh c (scalar_op topic x now) v = ground (arith, v)

  run-IsFresh : (c : LogController) (ops : List Op) → IsFresh c → IsFresh (run c ops)
  run-IsFresh c [] v = v
  run-IsFresh c (op ∷ ops) v = run-IsFresh (step c op) ops (step-IsFresh c op v)

  -- Whatever was called on a new controller, a failed start included: without a log, no time of an earlier
  -- frame is kept, so the next log starts without one.
  pub run-last_ts :
      (ops : List Op)
      → (run new_controller ops).logger ≡ none
      → (run new_controller ops).last_ts ≡ []
  unfolding new_controller
  run-last_ts ops h = run-IsFresh new_controller ops (λ e. refl) h

  abbrev pub log_can_frames : LogController → List CanFrame → LogController
  log_can_frames c [] = c
  log_can_frames c (f ∷ fs) = log_can_frames (log_can_frame fp pb new_id serialize describe c f) fs

  abbrev pub log_frames : Option McapLogger → Times → List CanFrame → Option McapLogger × Times
  log_frames lg times [] = (lg, times)
  log_frames lg times (f ∷ fs) =
      let r = log_frame fp pb new_id serialize describe f lg times in log_frames r.0 r.1 fs

  log_can_frame-log_frame :
      (c : LogController) (f : CanFrame)
      → let c' = log_can_frame fp pb new_id serialize describe c f in
        (c'.logger, c'.last_ts) ≡ log_frame fp pb new_id serialize describe f c.logger c.last_ts
  unfolding log_can_frame log_frame
  log_can_frame-log_frame c f = elim (Option-cases c.logger) [
    | inl e ↦ rw (e, log_can_frame, log_frame) (ap (λ l. (l, c.last_ts)) e)
    | inr (lg, e) ↦ rw (e, log_can_frame, log_frame) refl
  ]

  -- For every sequence of frames, the controller writes the same file and keeps the same times as log_frame
  -- does with the controller's logger and times.
  pub log_can_frames-log_frames :
      (c : LogController) (fs : List CanFrame)
      → ((log_can_frames c fs).logger ≡ (log_frames c.logger c.last_ts fs).0)
        × ((log_can_frames c fs).last_ts ≡ (log_frames c.logger c.last_ts fs).1)
  log_can_frames-log_frames c [] = (refl, refl)
  log_can_frames-log_frames c (f ∷ fs) =
      let c' = log_can_frame fp pb new_id serialize describe c f in
      subst
        (λ (p : Option McapLogger × Times).
          ((log_can_frames c' fs).logger ≡ (log_frames p.0 p.1 fs).0)
          × ((log_can_frames c' fs).last_ts ≡ (log_frames p.0 p.1 fs).1))
        (log_can_frame-log_frame c f) (log_can_frames-log_frames c' fs)

  -- The time of the last of the frames with a key, `t` where there is none.
  abbrev pub last_time : Text × ℕ → Option ℤ → List CanFrame → Option ℤ
  last_time key t [] = t
  last_time key t (f ∷ fs) =
      last_time key (if key_eq key (f.header.interface, f.header.id) then some f.timestamp else t)
        fs

  abbrev pub since : CanFrame → Option ℤ → Option Double
  since f none = none
  since f (some before) = some (fp.millis (f.timestamp -ℤ before))

  is_logging-log_can_frame :
      (c : LogController) (f : CanFrame)
      → is_logging c ≡ true
      → is_logging (log_can_frame fp pb new_id serialize describe c f) ≡ true
  unfolding is_logging log_can_frame
  is_logging-log_can_frame c f h = ground (arith, h)

  last_ts-log_can_frame :
      (key : Text × ℕ) (c : LogController) (f : CanFrame)
      → is_logging c ≡ true
      → lookup key (log_can_frame fp pb new_id serialize describe c f).last_ts ≡ (
          if key_eq key (f.header.interface, f.header.id)
          then some f.timestamp
          else lookup key c.last_ts)
  unfolding is_logging log_can_frame keep_time key_of
  last_ts-log_can_frame key c f h =
      ground (arith, h, lookup-insert (f.header.interface, f.header.id) key f.timestamp c.last_ts)

  last_time_lem :
      (key : Text × ℕ) (c : LogController) (fs : List CanFrame)
      → is_logging c ≡ true
      → lookup key (log_can_frames c fs).last_ts ≡ last_time key (lookup key c.last_ts) fs
  last_time_lem key c [] h = refl
  last_time_lem key c (f ∷ fs) h =
      last_time_lem key (log_can_frame fp pb new_id serialize describe c f) fs
        (is_logging-log_can_frame c f h)
      ∙ ap (λ t. last_time key t fs) (last_ts-log_can_frame key c f h)

  since_lem :
      (f : CanFrame) (times : Times) → ratio_ms fp times f ≡ since f (lookup (key_of f) times)
  unfolding ratio_ms
  since_lem f times = elim (Option-cases (lookup (key_of f) times)) [
    | inl e ↦ rw (e, ratio_ms) refl
    | inr (b, e) ↦ rw (e, ratio_ms) refl
  ]

  -- While a log is open: the update ratio that a frame is logged with is the time since the last of the
  -- frames with its interface and ID that came since the log was opened, absent for the first of them.
  pub ratio_ms-log_can_frames :
      (c : LogController) (fs : List CanFrame) (f : CanFrame)
      → is_logging c ≡ true
      → c.last_ts ≡ []
      → ratio_ms fp (log_can_frames c fs).last_ts f
        ≡ since f (last_time (f.header.interface, f.header.id) none fs)
  unfolding ratio_ms key_of
  ratio_ms-log_can_frames c fs f h e =
      let key : Text × ℕ = (f.header.interface, f.header.id) in
      let q : lookup key (log_can_frames c fs).last_ts ≡ last_time key none fs =
        last_time_lem key c fs h ∙ ap (λ times. last_time key (lookup key times) fs) e in
      since_lem f (log_can_frames c fs).last_ts ∙ ap (since f) q
