-- ===== src/Player/Laws.antt =====
-- What is played, and when: McapReader::play of src/logger/McapReader.cpp.
use caneo.Player.{
  shown, frame_from, raw_event, deliver, any_running, Seen, View, Moment, Pace, Event, skipped,
  check_pause, calibrate, target_of, stopped_at, is_let_through, event_of, turn,
}
use caneo.Common.{
  not, false, arith, true, any, Option, ℕ, ◌≡◌, refl, ap, ◌⊎◌, inl, inr, Bool, none, some, List, [],
  ◌∷◌, ◌++◌, ◌||◌, ◌&&◌, map, if◌then◌else◌, Bool-cases, Option-cases,
}
use caneo.Common.Text.{Text}
use caneo.Common.Int.{ℤ}
use caneo.Common.OrderedMap.{nat_key, text_key, pair_key, lookup}
use caneo.Proto.{Descriptor, Fields, ProtobufReader}
use caneo.Topic.{ChannelKind, data_kind, raw_kind, other_kind, ChannelInfo}
use caneo.Playback.{is_running, is_message_enabled}
use caneo.Player.Loop.{play_from}

-- The messages of the channels that are known.
abbrev pub known :
    List (ℕ × ChannelInfo) → List (View × Moment) → List (ChannelInfo × View × Moment)
known channels [] = []
known channels ((v, m) ∷ rest) =
    let more = known channels rest in
    elim (lookup v.channel_id channels) [ none ↦ more | some info ↦ (info, v, m) ∷ more ]

pub known-some :
    (channels : List (ℕ × ChannelInfo)) (v : View) (m : Moment) (rest : List (View × Moment))
    (info : ChannelInfo)
    → lookup v.channel_id channels ≡ some info
    → known channels ((v, m) ∷ rest) ≡ (info, v, m) ∷ known channels rest
known-some channels v m rest info e = rw (e, known) refl

pub known-none :
    (channels : List (ℕ × ChannelInfo)) (v : View) (m : Moment) (rest : List (View × Moment))
    → lookup v.channel_id channels ≡ none
    → known channels ((v, m) ∷ rest) ≡ known channels rest
known-none channels v m rest e = rw (e, known) refl

-- Whether the loop ends at a message.
abbrev pub stops : Option Seen → Bool
stops none = false
stops (some s) = s.at_wake.stopped || (not (any_running s.at_check) && s.at_resume.stopped)

stops-check_pause :
    (seen : Option Seen) (pace : Pace) → check_pause seen pace ≡ none → stops seen ≡ true
unfolding check_pause
stops-check_pause none pace h = ground (arith, h)
stops-check_pause (some s) pace h = ground (arith, h)

stops-stopped_at : (seen : Option Seen) → stopped_at seen ≡ true → stops seen ≡ true
unfolding stopped_at
stops-stopped_at none h = ground (arith, h)
stops-stopped_at (some s) h = ground (arith, h)

module _ (rd : ProtobufReader) (hash : Text → ℕ) (on_frame on_send : Bool)
    (schemas : List (ℕ × Descriptor)) where
  -- The call for a channel of a kind, with the fields of the message: a data message for on_frame, a raw one for
  -- on_send, as far as the function is set.
  abbrev pub call_of : ChannelInfo → ChannelKind → Fields → ℤ → Event
  call_of info data_kind fields wall =
      if on_frame then shown (frame_from hash info fields wall) else skipped
  call_of info raw_kind fields wall = if on_send then raw_event info.iface fields else skipped
  call_of info other_kind fields wall = skipped

  -- The call for a message that has a known schema and can be parsed.
  abbrev pub parsed_call : ChannelInfo → ℤ → Text → Option Descriptor → Event
  parsed_call info wall content none = skipped
  parsed_call info wall content (some d) = elim (rd.parse d content) [
    | none ↦ skipped
    | some fields ↦ call_of info info.kind fields wall
  ]

  -- What a message comes to that is reached and waited for: nothing where the controller, if there is one, says that
  -- its interface does not run, or that it is disabled.
  abbrev pub outcome_seen : Option Seen → ChannelInfo × View × ℤ → Event
  outcome_seen none (info, v, wall) = parsed_call info wall v.content (lookup v.schema_id schemas)
  outcome_seen (some s) (info, v, wall) = elim (is_running s.at_interface info.iface) [
    | false ↦ skipped
    | true ↦ elim (is_message_enabled s.at_message info.iface info.msg_name) [
      | false ↦ skipped
      | true ↦ parsed_call info wall v.content (lookup v.schema_id schemas)
    ]
  ]

  abbrev pub outcome : ChannelInfo × View × Moment → Event
  outcome (info, v, m) = outcome_seen m.seen (info, v, m.wall)

  event_of_lem :
      (info : ChannelInfo) (v : View) (wall : ℤ)
      → event_of rd hash on_frame on_send schemas info v wall
        ≡ parsed_call info wall v.content (lookup v.schema_id schemas)
  unfolding event_of deliver
  event_of_lem info v wall = ground arith

  pub outcome_lem :
      (info : ChannelInfo) (v : View) (wall : ℤ) (seen : Option Seen)
      → (if is_let_through seen info
          then event_of rd hash on_frame on_send schemas info v wall
          else skipped)
        ≡ outcome_seen seen (info, v, wall)
  unfolding is_let_through
  outcome_lem info v wall none = event_of_lem info v wall
  outcome_lem info v wall (some s) = rw (event_of_lem info v wall) (ground arith)

  turn-outcome :
      (info : ChannelInfo) (v : View) (m : Moment) (pace : Pace)
      → ((turn rd hash on_frame on_send schemas info v m pace ≡ none) × (stops m.seen ≡ true))
        ⊎ ((q : Pace) × (t : ℤ) × (turn rd hash on_frame on_send schemas info v m pace
              ≡ some (q, record { target = t; event = outcome (info, v, m) })))
  unfolding turn
  turn-outcome info v m pace = elim (Option-cases (check_pause m.seen pace)) [
    | inl e ↦ inl (rw (e, turn) refl, stops-check_pause m.seen pace e)
    | inr (p, e) ↦ elim (Bool-cases (stopped_at m.seen)) [
      | inl f ↦ inl (rw (e, turn, f) refl, stops-stopped_at m.seen f)
      | inr f ↦ inr (
        calibrate p v.log_time m.steady,
        target_of (calibrate p v.log_time m.steady) v.log_time,
        rw (e, turn, f)
            (ap
              (λ o. some (
                calibrate p v.log_time m.steady,
                record {
                  target = target_of (calibrate p v.log_time m.steady) v.log_time;
                  event = o;
                },
              ))
              (outcome_lem info v m.wall m.seen)),
      )
    ]
  ]

  -- Whatever other threads do to the controller, the calls that are made are those of a first part of the
  -- messages, in their order and each once, and of all messages if no stop was seen; a message whose
  -- interface is paused when it is looked at, or that is disabled then, comes to nothing, as does one without a
  -- known schema, one that cannot be parsed, and one whose function is not set.
  pub events_in_order :
      (channels : List (ℕ × ChannelInfo)) (pace : Pace) (ms : List (View × Moment))
      → (rest : List Event) × (map outcome (known channels ms)
          ≡ map (λ p. p.event) (play_from rd hash on_frame on_send channels schemas pace ms)
            ++ rest)
        × ((rest ≡ []) ⊎ (any (λ x. stops x.2.seen) (known channels ms) ≡ true))
  unfolding play_from
  events_in_order channels pace [] = ([], refl, inl refl)
  events_in_order channels pace ((v, m) ∷ ms) = elim (Option-cases (lookup v.channel_id channels)) [
    | inl e ↦
        let r = events_in_order channels pace ms in
        (r.0, rw (e, play_from, known) r.1, rw (e, known) r.2)
    | inr (info, e) ↦ elim (turn-outcome info v m pace) [
      | inl (f, g) ↦ (
        outcome (info, v, m) ∷ map outcome (known channels ms),
        rw (e, play_from, known, f) refl,
        rw (e, known) (inr (rw g refl)),
      )
      | inr (q, t, f) ↦
          let r = events_in_order channels q ms in
          (
            r.0,
            rw (e, play_from, known, f) (ap (λ l. outcome (info, v, m) ∷ l) r.1),
            rw (e, known) (elim r.2 [ inl a ↦ inl a | inr b ↦ inr (ground (arith, b)) ]),
          )
    ]
  ]
