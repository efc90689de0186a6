-- ===== src/Bus/Reader.antt =====
-- src/socket/SocketGrpc.cpp, lines 20-78: the thread that reads from a server and connects again, and `stop`, which cancels
-- its call and waits for it. The threads meet at every access to what they share.
use caneo.Common.{ℕ, zero, suc, ◌≡◌, refl, Bool, true, false, not, ◌&&◌, ◌||◌, arith, if◌then◌else◌}
use caneo.Common.OrderedMap.{nat_key, text_key, pair_key}

-- Where the reading thread is: before the test of the outer loop, before it publishes its context, before the test of the
-- inner loop, in Read, behind the inner loop, asleep, at its end.
pub data ReaderPlace : Type 0 where
  at_loop publishing at_test reading leaving sleeping finished : ReaderPlace

-- Where `stop` is: not called, behind `running_ = false`, behind the lock.
pub data Stop : Type 0 where
  not_called stored joining : Stop

pub record Shared : Type 0 where
  pub place : ReaderPlace
  pub stop : Stop
  pub running : Bool
  pub connected : Bool
  -- `current_ctx_` points to the context, and the context was cancelled.
  pub published : Bool
  pub cancelled : Bool

-- `start`
unfoldable pub started_reader : Shared
started_reader = record {
  place = at_loop;
  stop = not_called;
  running = true;
  connected = false;
  published = false;
  cancelled = false;
}

-- The next move of the thread. A Read whose context was cancelled returns false, any other waits.
unfoldable pub move : ReaderPlace → Shared → Shared
move at_loop s = record s { place = if s.running then publishing else finished }
move publishing s = record s {
  place = at_test;
  published = true;
  cancelled = false;
  connected = true;
}
move at_test s = record s { place = if s.running then reading else leaving }
move reading s = record s { place = if s.cancelled then leaving else reading }
move leaving s = record s {
  place = if s.running then sleeping else at_loop;
  connected = false;
  published = false;
}
move sleeping s = record s { place = at_loop }
move finished s = s

unfoldable pub next : Shared → Shared
unfolding move
next s = move s.place s

-- The two parts of `stop`.
unfoldable pub store_stop : Shared → Shared
store_stop s = record s { stop = stored; running = false }

unfoldable pub cancel_call : Shared → Shared
cancel_call s = record s { stop = joining; cancelled = if s.published then true else s.cancelled }

-- A step of one of the threads, or of the server, which sends a frame or ends the stream.
pub data Turn : Shared → Shared → Type 0 where
  moves : (s : Shared) → Turn s (next s)
  frame_read : (s : Shared) → s.place ≡ reading → Turn s (record s { place = at_test })
  stream_ends : (s : Shared) → s.place ≡ reading → Turn s (record s { place = leaving })
  stop_stores : (s : Shared) → s.stop ≡ not_called → Turn s (store_stop s)
  stop_cancels : (s : Shared) → s.stop ≡ stored → Turn s (cancel_call s)

pub data Reached : Shared → Type 0 where
  at_start : Reached started_reader
  after : (s t : Shared) → Reached s → Turn s t → Reached t

abbrev in_call : ReaderPlace → Bool
in_call at_test = true
in_call reading = true
in_call leaving = true
in_call _ = false

abbrev is_reading : ReaderPlace → Bool
is_reading reading = true
is_reading _ = false

abbrev is_joining : Stop → Bool
is_joining joining = true
is_joining _ = false

abbrev is_called : Stop → Bool
is_called not_called = false
is_called _ = true

-- A stop that was called has ended `running`, a context is published during its call, and behind the
-- lock a Read is cancelled.
abbrev is_sound : Shared → Bool
is_sound s =
    (not (is_called s.stop) || not s.running)
    && ((not (in_call s.place) || s.published)
        && (not (is_joining s.stop && is_reading s.place) || s.cancelled))

move_sound :
    (p : ReaderPlace) (s : Shared) → s.place ≡ p → is_sound s ≡ true → is_sound (move p s) ≡ true
unfolding move
move_sound at_loop s e h = ground (arith, h, e)
move_sound publishing s e h = ground (arith, h, e)
move_sound at_test s e h = ground (arith, h, e)
move_sound reading s e h = ground (arith, h, e)
move_sound leaving s e h = ground (arith, h, e)
move_sound sleeping s e h = ground (arith, h, e)
move_sound finished s e h = h

Turn-sound : {s t : Shared} → Turn s t → is_sound s ≡ true → is_sound t ≡ true
unfolding next store_stop cancel_call
Turn-sound (moves s) h = move_sound s.place s refl h
Turn-sound (frame_read s e) h = ground (arith, h, e)
Turn-sound (stream_ends s e) h = ground (arith, h, e)
Turn-sound (stop_stores s e) h = ground (arith, h, e)
Turn-sound (stop_cancels s e) h = ground (arith, h, e)

Reached-sound : {s : Shared} → Reached s → is_sound s ≡ true
unfolding started_reader
Reached-sound at_start = refl
Reached-sound (after s t r x) = Turn-sound x (Reached-sound r)

-- The moves that are left, from each place.
unfoldable pub run_on : ℕ → Shared → Shared
unfolding next
run_on zero s = s
run_on (suc n) s = run_on n (next s)

ends : (s : Shared) → is_sound s ≡ true → s.stop ≡ joining → (run_on 4 s).place ≡ finished
unfolding run_on next move
ends s h k = ground (arith, h, k)

-- In every order of the two threads and the server: once `stop` waits for the reading thread, four moves
-- of this thread end it, wherever it was, so the wait does not last.
pub stop_ends : (s : Shared) → Reached s → s.stop ≡ joining → (run_on 4 s).place ≡ finished
stop_ends s r k = ends s (Reached-sound r) k
