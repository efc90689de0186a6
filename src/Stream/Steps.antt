-- ===== src/Stream/Steps.antt =====
-- The steps of src/grpc/CanStreamService.cpp on one subscriber, in any order of the threads.
use caneo.Common.{◌≡◌, Bool, true, false}
use caneo.Common.OrderedMap.{nat_key, text_key, pair_key}
use caneo.Stream.{RawCanFrame, asleep, woken, Subscriber, wants, holds_lock, push, end, advance}

-- broadcast needs the mutex, and shutdown does not; both see only the subscribers in the list. A sleeping
-- thread may also wake of its own accord.
pub data Step (s : Subscriber) : Subscriber → Type 0 where
  broadcasts :
      (f : RawCanFrame)
      → s.registered ≡ true
      → wants s.interface_filter f.interface ≡ true
      → holds_lock s.place ≡ false
      → Step s (push s f)
  shuts_down : s.registered ≡ true → Step s (end s)
  wakes : s.place ≡ asleep → Step s (record s { place = woken })
  runs : (ok : Bool) → Step s (advance ok s)

pub data Reach (s : Subscriber) : Subscriber → Type 0 where
  here : Reach s s
  later : {t u : Subscriber} → Reach s t → Step t u → Reach s u
