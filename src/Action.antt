-- ===== src/Action.antt =====
-- src/action/Action.hpp, Action.cpp: actions and their timers; src/action/ActionHandler: the list of
-- actions and the snapshot of it. A pointer to an action is a number. Every function here runs on the
-- asio thread; what Boost.Asio decides (which posted call runs next, when a wait completes, and with
-- which error code) is the caller's choice.
pub mod Handler
use caneo.Common.{
  ℕ, ◌+◌, ◌-◌, Bool, true, false, Option, none, some, List, [], ◌∷◌, ◌==◌, if◌then◌else◌,
}
use caneo.Common.Text.{Text, codes}
use caneo.Common.Int.{ℤ, pos, ◌-ℤ◌}
use caneo.Common.Ieee.{Double, Ieee}

-- The subclass, with the members that it adds; `E` is what its encode function is given as.
pub data Kind (E : Type 0) : Type 0 where
  single : Kind E
  periodic : ℤ → Kind E
  -- interval, encode_fn, amplitude, sin_period, offset, resume_time, accumulated
  sin : ℤ → E → Double → ℤ → Double → ℤ → Double → Kind E

pub record Action (E : Type 0) : Type 0 where
  pub ptr : ℕ
  pub kind : Kind E
  pub interface : Text
  pub msg_id : ℕ
  pub msg_name : Text
  pub payload : List ℕ
  pub last_sent : ℤ
  pub ever_sent : Bool
  pub paused : Bool
  -- An `async_wait` on the timer that is neither complete nor cancelled, with the time it waits.
  pub armed : Option ℤ

-- `ActionInfo`.
pub record ActionInfo : Type 0 where
  pub idx : ℕ
  pub msg_id : ℕ
  pub msg_name : Text
  pub type_name : Text
  pub interface : Text
  pub is_periodic : Bool
  pub paused : Bool
  pub sin_amplitude : Double
  pub sin_period_ms : ℤ
  pub sin_offset : Double
  pub period : ℤ
  pub last_sent : ℤ
  pub ever_sent : Bool

-- The value that SinPeriodicAction sends at a time.
wave : Ieee → ℤ → Double → ℤ → Double → ℤ → Double → Double
wave fp now a sp o r acc =
    let omega = fp.div fp.two_pi (fp.div (fp.of_long sp) fp.thousand) in
    let elapsed = fp.add acc (fp.seconds (now -ℤ r)) in
    fp.add (fp.mul a (fp.sine (fp.mul omega elapsed))) o

module _ {E : Type 0} where
  -- The virtual getters.
  is_periodic : Kind E → Bool
  is_periodic single = false
  is_periodic (periodic p) = true
  is_periodic (sin i e a sp o r acc) = true

  type_name : Kind E → Text
  type_name single = codes "Single"
  type_name (periodic p) = codes "Periodic"
  type_name (sin i e a sp o r acc) = codes "Sin"

  period : Kind E → ℤ
  period single = pos 0
  period (periodic p) = p
  period (sin i e a sp o r acc) = i

  -- SingleAction::schedule, PeriodicAction::schedule, SinPeriodicAction::schedule: `expires_after`
  -- cancels what was pending, `async_wait` waits for the new expiry.
  schedule : Action E → Action E
  unfolding period
  schedule a = record a { armed = some (period a.kind) }

  -- Action::start (its callbacks are the handler's, always set), cancel, pause, resume.
  start : Action E → Action E
  unfolding schedule
  start a = schedule a

  cancel : Action E → Action E
  cancel a = record a { armed = none }

  base_pause : Action E → Action E
  unfolding cancel
  base_pause a = cancel (record a { paused = true })

  base_resume : Action E → Action E
  unfolding schedule
  base_resume a = schedule (record a { paused = false })

  -- SinPeriodicAction::pause adds the time since the last resume to the accumulated time.
  accumulate : Ieee → ℤ → Kind E → Kind E
  accumulate fp now single = single
  accumulate fp now (periodic p) = periodic p
  accumulate fp now (sin i e a sp o r acc) = sin i e a sp o r (fp.add acc (fp.seconds (now -ℤ r)))

  restart_clock : ℤ → Kind E → Kind E
  restart_clock now single = single
  restart_clock now (periodic p) = periodic p
  restart_clock now (sin i e a sp o r acc) = sin i e a sp o now acc

  pause : Ieee → ℤ → Action E → Action E
  unfolding base_pause accumulate
  pause fp now a = base_pause (record a { kind = accumulate fp now a.kind })

  resume : ℤ → Action E → Action E
  unfolding base_resume restart_clock
  resume now a = base_resume (record a { kind = restart_clock now a.kind })

  sin_amplitude : Kind E → Double
  sin_amplitude single = 0
  sin_amplitude (periodic p) = 0
  sin_amplitude (sin i e a sp o r acc) = a

  sin_period_ms : Kind E → ℤ
  sin_period_ms single = pos 0
  sin_period_ms (periodic p) = pos 0
  sin_period_ms (sin i e a sp o r acc) = sp

  sin_offset : Kind E → Double
  sin_offset single = 0
  sin_offset (periodic p) = 0
  sin_offset (sin i e a sp o r acc) = o

  -- One entry of ActionHandler::rebuild_snapshot.
  info : ℕ → Action E → ActionInfo
  unfolding is_periodic type_name period sin_amplitude sin_period_ms sin_offset
  info i a = record {
    idx = i;
    msg_id = a.msg_id;
    msg_name = a.msg_name;
    type_name = type_name a.kind;
    interface = a.interface;
    is_periodic = is_periodic a.kind;
    paused = a.paused;
    sin_amplitude = sin_amplitude a.kind;
    sin_period_ms = sin_period_ms a.kind;
    sin_offset = sin_offset a.kind;
    period = period a.kind;
    last_sent = a.last_sent;
    ever_sent = a.ever_sent;
  }

  unfoldable pub infos : ℕ → List (Action E) → List ActionInfo
  unfolding info
  infos i [] = []
  infos i (a ∷ rest) = info i a ∷ infos (i + 1) rest

  switch_pause : Ieee → ℤ → Action E → Action E
  unfolding pause resume
  switch_pause fp now a = if a.paused then resume now a else pause fp now a

  is_sin : Kind E → Bool
  is_sin single = false
  is_sin (periodic p) = false
  is_sin (sin i e a sp o r acc) = true

  -- The switch of ActionHandler::update_sin_param: 0 amplitude, 1 period, 2 offset, others nothing.
  set_sin : Ieee → ℕ → Double → Kind E → Kind E
  set_sin fp param v single = single
  set_sin fp param v (periodic p) = periodic p
  set_sin fp param v (sin i e a sp o r acc) =
      if param == 0
      then sin i e v sp o r acc
      else if param == 1
      then sin i e a (fp.to_long v) o r acc
      else if param == 2
      then sin i e a sp v r acc
      else sin i e a sp o r acc

  set_sin_param : Ieee → ℕ → Double → Action E → Action E
  unfolding set_sin
  set_sin_param fp param v a = record a { kind = set_sin fp param v a.kind }

  pub set_payload : List ℕ → Action E → Action E
  set_payload p a = record a { payload = p }

  mark_sent : ℤ → Action E → Action E
  mark_sent now a = record a { last_sent = now; ever_sent = true }
