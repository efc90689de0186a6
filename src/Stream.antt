-- ===== src/Stream.antt =====
-- src/grpc/CanStreamService: the frames that go to remote clients. A subscriber is shared by its Subscribe
-- call, which runs on a thread of the gRPC server, and by the threads that call broadcast and shutdown;
-- Stream.Steps has the steps of these threads.
pub mod Steps
pub mod Delivery
pub mod Ending
pub mod Heard
mod Tests
use caneo.Common.{
  ℕ, ◌+◌, Bool, true, false, not, ◌||◌, List, [], ◌∷◌, ◌++◌, map, if◌then◌else◌, is_empty,
}
use caneo.Common.Text.{Text, text_eq}
use caneo.Common.Int.{ℤ}
use caneo.Frame.{CanFrame}

-- caneo::RawCanFrame of src/proto/can_stream.proto.
pub record RawCanFrame : Type 0 where
  pub interface : Text
  pub can_id : ℕ
  pub dlc : ℕ
  pub bytes : List ℕ
  pub timestamp_us : ℤ

-- What broadcast makes of a frame; `now_us` is the system clock.
unfoldable pub to_proto : CanFrame → ℤ → RawCanFrame
to_proto frame now_us = record {
  interface = frame.header.interface;
  can_id = frame.header.id;
  dlc = frame.header.dlc;
  bytes = frame.payload;
  timestamp_us = now_us;
}

-- Where a Subscribe call stands: at the test of the outer loop; before the test of the wait, with the lock;
-- behind a failed test, still with the lock; asleep; woken and without the lock; in the inner loop, with the
-- lock; in `Write`, without it; behind the outer loop; returned.
pub data Place : Type 0 where
  at_loop testing before_sleep asleep woken draining : Place
  writing : RawCanFrame → Place
  leaving returned : Place

-- `received` is what the client got, `pushed` what broadcast has pushed, and `dropped` the frame of a
-- `Write` that failed; the program keeps none of the three.
pub record Subscriber : Type 0 where
  pub interface_filter : Text
  pub queue : List RawCanFrame
  pub done : Bool
  pub place : Place
  pub registered : Bool
  pub received : List RawCanFrame
  pub pushed : List RawCanFrame
  pub dropped : List RawCanFrame

-- Subscribe up to its loop.
unfoldable pub subscribe : Text → Subscriber
subscribe filter = record {
  interface_filter = filter;
  queue = [];
  done = false;
  place = at_loop;
  registered = true;
  received = [];
  pushed = [];
  dropped = [];
}

-- The test of broadcast: an empty filter stands for every interface.
pub wants : Text → Text → Bool
wants filter iface = is_empty filter || text_eq filter iface

-- notify_one: a thread that sleeps is woken.
pub notify : Place → Place
notify asleep = woken
notify p = p

-- Whether the thread of the call holds the subscriber's mutex.
pub holds_lock : Place → Bool
holds_lock testing = true
holds_lock before_sleep = true
holds_lock draining = true
holds_lock _ = false

pub push : Subscriber → RawCanFrame → Subscriber
unfolding notify
push s f = record s {
  queue = s.queue ++ (f ∷ []);
  place = notify s.place;
  pushed = s.pushed ++ (f ∷ []);
}

-- One turn of the loop of broadcast. The frame's interface is the one that the filter is compared with.
pub offer : RawCanFrame → Subscriber → Subscriber
unfolding wants push
offer f s = if wants s.interface_filter f.interface then push s f else s

-- What broadcast does to the subscribers, each at the moment at which its mutex is free.
unfoldable pub broadcast : List Subscriber → CanFrame → ℤ → List Subscriber
unfolding offer to_proto
broadcast subs frame now_us = map (offer (to_proto frame now_us)) subs

-- One turn of the loop of shutdown, which does not take the subscriber's mutex.
pub end : Subscriber → Subscriber
unfolding notify
end s = record s { done = true; place = notify s.place }

unfoldable pub shutdown : List Subscriber → List Subscriber
unfolding end
shutdown subs = map end subs

-- The inner loop, at its test.
drain : Subscriber → List RawCanFrame → Subscriber
drain s [] = record s { place = at_loop }
drain s (f ∷ rest) =
    if s.done then record s { place = at_loop } else record s { queue = rest; place = writing f }

pub advance_at : Place → Bool → Subscriber → Subscriber
unfolding drain
advance_at at_loop ok s =
    if s.done then record s { place = leaving } else record s { place = testing }
advance_at testing ok s =
    if not (is_empty s.queue) || s.done
    then record s { place = draining }
    else record s { place = before_sleep }
advance_at before_sleep ok s = record s { place = asleep }
advance_at asleep ok s = s
advance_at woken ok s = record s { place = testing }
advance_at draining ok s = drain s s.queue
advance_at (writing f) ok s =
    if ok
    then record s { place = draining; received = s.received ++ (f ∷ []) }
    else record s { place = draining; done = true; dropped = s.dropped ++ (f ∷ []) }
advance_at leaving ok s = record s { place = returned; registered = false }
advance_at returned ok s = s

-- The thread of Subscribe from where it stands to its next access; `ok` is what Write returns.
pub advance : Bool → Subscriber → Subscriber
unfolding advance_at
advance ok s = advance_at s.place ok s
