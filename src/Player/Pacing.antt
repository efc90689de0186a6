-- ===== src/Player/Pacing.antt =====
-- When the messages of a file are played: the timing of McapReader::play, src/logger/McapReader.cpp.
use caneo.Player.Laws.{known-some, known-none, known, outcome, outcome_lem}
use caneo.Common.{
  ℕ, ◌+◌, ◌-◌, ◌%◌, ◌^◌, ◌≤◌, ◌<◌, ◌≡◌, refl, sym, ap, ◌∙◌, inl, inr, Bool, true, false, not, ◌&&◌,
  Option, none, some, List, [], ◌∷◌, map, arith, ltb, leb, if◌then◌else◌, lt→ltb, Option-cases, all,
}
use caneo.Common.Text.{Text}
use caneo.Common.Int.{ℤ, pos, negsuc, ◌+ℤ◌}
use caneo.Common.OrderedMap.{nat_key, text_key, pair_key, lookup}
use caneo.Proto.{Descriptor, ProtobufReader}
use caneo.Topic.{ChannelInfo}
use caneo.Playback.{any_running}
use caneo.Player.{
  View, Seen, Moment, Pace, Played, as_int64, wrap_int64, check_pause, calibrate, target_of,
  stopped_at, turn,
}
use caneo.Player.Loop.{play_from}

-- No pause, and no stop, while a message is worked on.
abbrev pub goes_on : Option Seen → Bool
goes_on none = true
goes_on (some s) = any_running s.at_check && not s.at_wake.stopped

-- A message that starts the clock: the first one, or one that was waited for while all interfaces were paused.
abbrev pub begins : Pace → Option Seen → Bool
begins pace none = not pace.started
begins pace (some s) =
    not s.at_wake.stopped
    && (if any_running s.at_check then not pace.started else not s.at_resume.stopped)

check-goes_on :
    (seen : Option Seen) (pace : Pace)
    → goes_on seen ≡ true
    → (check_pause seen pace ≡ some pace) × (stopped_at seen ≡ false)
unfolding check_pause stopped_at
check-goes_on none pace h = (refl, refl)
check-goes_on (some s) pace h = ground (arith, h)

fresh_pace : Pace → Option Seen → Pace
fresh_pace pace none = pace
fresh_pace pace (some s) = if any_running s.at_check then pace else record pace { started = false }

check-begins :
    (seen : Option Seen) (pace : Pace)
    → begins pace seen ≡ true
    → (check_pause seen pace ≡ some (fresh_pace pace seen))
      × ((fresh_pace pace seen).started ≡ false)
      × (stopped_at seen ≡ false)
unfolding check_pause stopped_at fresh_pace
check-begins none pace h = (refl, ground (arith, h), refl)
check-begins (some s) pace h = (ground (arith, h), ground (arith, h), ground (arith, h))

abbrev running : ℕ → ℤ → Pace
running t0 start = record { started = true; t0_ns = t0; start_time = start }

as_int64_small : (n : ℕ) → n < 2 ^ 63 → as_int64 n ≡ pos n
as_int64_small n h = rw (lt→ltb n (2 ^ 63) h) refl

as_int64_negative : (n : ℕ) → n < 2 ^ 63 → as_int64 (2 ^ 64 - 1 - n) ≡ negsuc n
as_int64_negative n h =
    let e : 2 ^ 64 - 1 - (2 ^ 64 - 1 - n) ≡ n = omega (arith, h) in
    let big : ltb (2 ^ 64 - 1 - n) (2 ^ 63) ≡ false = ground (arith, h) in rw (big, e) refl

-- A time that the clock can represent.
abbrev pub is_int64 : ℤ → Bool
is_int64 (pos n) = ltb n (2 ^ 63)
is_int64 (negsuc n) = ltb n (2 ^ 63)

wrap_int64_lem : (z : ℤ) → is_int64 z ≡ true → wrap_int64 z ≡ z
wrap_int64_lem (pos n) h =
    let l : n < 2 ^ 63 = ground (arith, h) in
    let e : n % 2 ^ 64 ≡ n = omega (arith, l) in rw e (as_int64_small n l)
wrap_int64_lem (negsuc n) h =
    let l : n < 2 ^ 63 = ground (arith, h) in
    let e : n % 2 ^ 64 ≡ n = omega (arith, l) in rw e (as_int64_negative n l)

target_of-running :
    (t0 log : ℕ) (start : ℤ)
    → is_int64 (start +ℤ pos (log - t0)) ≡ true
    → t0 ≤ log
    → log < t0 + 2 ^ 63
    → log < 2 ^ 64
    → target_of (running t0 start) log ≡ start +ℤ pos (log - t0)
unfolding target_of
target_of-running t0 log start i h k l =
    let e : (log + (2 ^ 64 - t0)) % 2 ^ 64 ≡ log - t0 = omega (arith, h, k, l) in
    ap (λ n. wrap_int64 (start +ℤ as_int64 n)) e
    ∙ ap (λ z. wrap_int64 (start +ℤ z)) (as_int64_small (log - t0) (omega (arith, h, k)))
    ∙ wrap_int64_lem (start +ℤ pos (log - t0)) i

target_of-start :
    (t0 : ℕ) (start : ℤ)
    → t0 < 2 ^ 64
    → is_int64 start ≡ true
    → target_of (running t0 start) t0 ≡ start
unfolding target_of
target_of-start t0 start h i =
    let e : (t0 + (2 ^ 64 - t0)) % 2 ^ 64 ≡ 0 = omega (arith, h) in
    let z : start +ℤ as_int64 0 ≡ start = ground arith in
    ap (λ n. wrap_int64 (start +ℤ as_int64 n)) e ∙ ap wrap_int64 z ∙ wrap_int64_lem start i

module _ (rd : ProtobufReader) (hash : Text → ℕ) (on_frame on_send : Bool)
    (schemas : List (ℕ × Descriptor)) where
  turn-pace :
      (info : ChannelInfo) (v : View) (m : Moment) (pace p : Pace)
      → check_pause m.seen pace ≡ some p
      → stopped_at m.seen ≡ false
      → turn rd hash on_frame on_send schemas info v m pace
        ≡ some (
          calibrate p v.log_time m.steady,
          record {
            target = target_of (calibrate p v.log_time m.steady) v.log_time;
            event = outcome rd hash on_frame on_send schemas (info, v, m);
          },
        )
  unfolding turn
  turn-pace info v m pace p e f =
      rw (e, turn, f)
        (ap
          (λ o. some (
            calibrate p v.log_time m.steady,
            record { target = target_of (calibrate p v.log_time m.steady) v.log_time; event = o },
          ))
          (outcome_lem rd hash on_frame on_send schemas info v m.wall m.seen))

  calibrate-fresh :
      (p : Pace) (t0 : ℕ) (now : ℤ) → p.started ≡ false → calibrate p t0 now ≡ running t0 now
  unfolding calibrate
  calibrate-fresh p t0 now h = rw h refl

  -- Messages that keep the clock that runs since `t0`, and whose times it can represent.
  abbrev pub keeps_pace : ℕ → ℤ → ChannelInfo × View × Moment → Bool
  keeps_pace t0 start (info, v, m) =
      (goes_on m.seen && is_int64 (start +ℤ pos (v.log_time - t0)))
      && (leb t0 v.log_time && (ltb v.log_time (t0 + 2 ^ 63) && ltb v.log_time (2 ^ 64)))

  abbrev pub targets : List (ℕ × ChannelInfo) → Pace → List (View × Moment) → List ℤ
  targets channels pace ms =
      map (λ (p : Played). p.target) (play_from rd hash on_frame on_send channels schemas pace ms)

  abbrev pub due : ℕ → ℤ → List (ChannelInfo × View × Moment) → List ℤ
  due t0 start ms = map (λ (x : ChannelInfo × View × Moment). start +ℤ pos (x.1.log_time - t0)) ms

  keeps-turn :
      (info : ChannelInfo) (v : View) (m : Moment) (t0 : ℕ) (start : ℤ)
      → keeps_pace t0 start (info, v, m) ≡ true
      → turn rd hash on_frame on_send schemas info v m (running t0 start)
        ≡ some (
          running t0 start,
          record {
            target = start +ℤ pos (v.log_time - t0);
            event = outcome rd hash on_frame on_send schemas (info, v, m);
          },
        )
  unfolding calibrate
  keeps-turn info v m t0 start h =
      let c = check-goes_on m.seen (running t0 start) (ground (arith, h)) in
      turn-pace info v m (running t0 start) (running t0 start) c.0 c.1
      ∙ ap
          (λ t. some (
            running t0 start,
            record { target = t; event = outcome rd hash on_frame on_send schemas (info, v, m) },
          ))
          (target_of-running t0 v.log_time start (ground (arith, h)) (ground (arith, h))
            (ground (arith, h)) (ground (arith, h)))

  targets-running :
      (channels : List (ℕ × ChannelInfo)) (t0 : ℕ) (start : ℤ) (ms : List (View × Moment))
      → all (keeps_pace t0 start) (known channels ms) ≡ true
      → targets channels (running t0 start) ms ≡ due t0 start (known channels ms)
  unfolding play_from
  targets-running channels t0 start [] h = refl
  targets-running channels t0 start ((v, m) ∷ ms) h =
      elim (Option-cases (lookup v.channel_id channels)) [
        | inl e ↦
            rw (e, known, play_from)
              (targets-running channels t0 start ms
                (ap (all (keeps_pace t0 start)) (sym (known-none channels v m ms e)) ∙ h))
        | inr (info, e) ↦
            let k : keeps_pace t0 start (info, v, m)
                  && all (keeps_pace t0 start) (known channels ms)
                ≡ true =
              ap (all (keeps_pace t0 start)) (sym (known-some channels v m ms info e)) ∙ h in
            rw (e, known, play_from, keeps-turn info v m t0 start (ground (arith, k)))
              (ap (λ l. (start +ℤ pos (v.log_time - t0)) ∷ l)
                (targets-running channels t0 start ms (ground (arith, k))))
      ]

  begins-turn :
      (info : ChannelInfo) (v : View) (m : Moment) (pace : Pace)
      → begins pace m.seen ≡ true
      → v.log_time < 2 ^ 64
      → is_int64 m.steady ≡ true
      → turn rd hash on_frame on_send schemas info v m pace
        ≡ some (
          running v.log_time m.steady,
          record {
            target = m.steady;
            event = outcome rd hash on_frame on_send schemas (info, v, m);
          },
        )
  begins-turn info v m pace h l i =
      let c = check-begins m.seen pace h in
      let p = fresh_pace pace m.seen in
      turn-pace info v m pace p c.0 c.2
      ∙ ap
          (λ q. some (
            q,
            record {
              target = target_of q v.log_time;
              event = outcome rd hash on_frame on_send schemas (info, v, m);
            },
          ))
          (calibrate-fresh p v.log_time m.steady c.1)
      ∙ ap
          (λ t. some (
            running v.log_time m.steady,
            record { target = t; event = outcome rd hash on_frame on_send schemas (info, v, m) },
          ))
          (target_of-start v.log_time m.steady l i)

  -- The first message, and one that was held while all interfaces were paused, is due at once; the messages that
  -- follow without another pause or stop are all played, each as long after it as their times in the file say,
  -- if these do not fall behind its time, stay within 2 ^ 63 nanoseconds of it, and the steady clock can represent
  -- each time that results. So no burst follows a pause.
  pub paced :
      (channels : List (ℕ × ChannelInfo)) (pace : Pace) (info : ChannelInfo) (v : View) (m : Moment)
      (ms : List (View × Moment))
      → lookup v.channel_id channels ≡ some info
      → begins pace m.seen ≡ true
      → v.log_time < 2 ^ 64
      → is_int64 m.steady ≡ true
      → all (keeps_pace v.log_time m.steady) (known channels ms) ≡ true
      → targets channels pace ((v, m) ∷ ms) ≡ m.steady ∷ due v.log_time m.steady (known channels ms)
  unfolding play_from
  paced channels pace info v m ms e h l i k =
      rw (e, play_from, begins-turn info v m pace h l i)
        (ap (λ ts. m.steady ∷ ts) (targets-running channels v.log_time m.steady ms k))
