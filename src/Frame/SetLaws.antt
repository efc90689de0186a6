-- ===== src/Frame/SetLaws.antt =====
-- What DataFrameSet::update (src/frame/DataFrameSet.cpp) keeps and shows.
use caneo.Common.OrderedMap.{
  insert, lookup-insert_self, nat_key, text_key, pair_key, lookup-insert, IsOrdered,
  insert-IsOrdered, lookup,
}
use caneo.Common.{
  ap, false, ℕ, ◌≡◌, refl, ◌∙◌, inl, inr, not, ◌&&◌, Option, none, some, List, [], ◌∷◌, ◌++◌, arith,
  ◌==◌, if◌then◌else◌, ==_iff, Option-cases, set, is_empty,
}
use mathlib.Core.List.{append_assoc, append-nil}
use caneo.Common.Text.{Text}
use caneo.Common.Int.{ℤ, ◌-ℤ◌}
use caneo.Frame.{
  CanFrame, DecodedSignal, DataFrameSet, new_set, update, add_decoded, add_all, set_msg_name, merge,
  merge_or_replace, delta,
}

add_all_lem :
    (f : CanFrame) (sigs : List DecodedSignal)
    → add_all f sigs ≡ record f { decoded = f.decoded ++ sigs }
unfolding add_all add_decoded
add_all_lem f [] = simp append-nil
add_all_lem f (s ∷ sigs) = add_all_lem _ sigs ∙ simp append_assoc

-- A stored frame keeps everything of the new frame but an empty signal list and an empty name.
decoded-merge_or_replace :
    (old f : CanFrame)
    → (merge_or_replace old f).decoded ≡ (if is_empty f.decoded then old.decoded else f.decoded)
unfolding merge_or_replace merge set_msg_name
decoded-merge_or_replace old f = ground (arith, add_all_lem f old.decoded)

timestamp-merge_or_replace : (old f : CanFrame) → (merge_or_replace old f).timestamp ≡ f.timestamp
unfolding merge_or_replace merge set_msg_name
timestamp-merge_or_replace old f = ground (arith, add_all_lem f old.decoded)

header-merge_or_replace : (old f : CanFrame) → (merge_or_replace old f).header ≡ f.header
unfolding merge_or_replace merge set_msg_name
header-merge_or_replace old f = ground (arith, add_all_lem f old.decoded)

payload-merge_or_replace : (old f : CanFrame) → (merge_or_replace old f).payload ≡ f.payload
unfolding merge_or_replace merge set_msg_name
payload-merge_or_replace old f = ground (arith, add_all_lem f old.decoded)

-- The frames that a set received, newest first, and the state that they leave.
abbrev pub replay : Text → List CanFrame → DataFrameSet
replay interface [] = new_set interface
replay interface (f ∷ hist) = update (replay interface hist) f

-- The time of the last frame with an ID.
abbrev pub last_stamp : ℕ → List CanFrame → Option ℤ
last_stamp id [] = none
last_stamp id (f ∷ hist) = if f.header.id == id then some f.timestamp else last_stamp id hist

-- The signals of the last frame with an ID that had any.
abbrev pub last_signals : ℕ → List CanFrame → List DecodedSignal
last_signals id [] = []
last_signals id (f ∷ hist) =
    if f.header.id == id && not (is_empty f.decoded) then f.decoded else last_signals id hist

abbrev pub gap : CanFrame → Option ℤ → Option ℤ
gap f none = none
gap f (some t) = some (f.timestamp -ℤ t)

-- The time between the last two frames with an ID.
abbrev pub last_gap : ℕ → List CanFrame → Option ℤ
last_gap id [] = none
last_gap id (f ∷ hist) = if f.header.id == id then gap f (last_stamp id hist) else last_gap id hist

abbrev stamp_of : Option CanFrame → Option ℤ
stamp_of none = none
stamp_of (some f) = some f.timestamp

abbrev signals_of : Option CanFrame → List DecodedSignal
signals_of none = []
signals_of (some f) = f.decoded

record Shows (id : ℕ) (hist : List CanFrame) (set : DataFrameSet) : Type 0 where
  stamp : stamp_of (lookup id set.frames) ≡ last_stamp id hist
  signals : signals_of (lookup id set.frames) ≡ last_signals id hist
  interval : lookup id set.deltas ≡ last_gap id hist

last_gap_first :
    (id : ℕ) (hist : List CanFrame) → last_stamp id hist ≡ none → last_gap id hist ≡ none
last_gap_first id [] h = refl
last_gap_first id (f ∷ hist) h = ground (arith, last_gap_first id hist)

update-Shows :
    (id : ℕ) (hist : List CanFrame) (set : DataFrameSet) (f : CanFrame)
    → Shows id hist set
    → Shows id (f ∷ hist) (update set f)
unfolding update
update-Shows id hist set f h = elim (Option-cases (lookup f.header.id set.frames)) [
  | inl e ↦
      rw (e, update)
        (ground (
          arith,
          lookup-insert f.header.id id f set.frames,
          last_gap_first id hist,
          ==_iff id f.header.id,
        ))
  | inr (old, e) ↦
      rw (e, update)
        (ground (
          arith,
          lookup-insert f.header.id id (merge_or_replace old f) set.frames,
          lookup-insert f.header.id id (f.timestamp -ℤ old.timestamp) set.deltas,
          decoded-merge_or_replace old f,
          timestamp-merge_or_replace old f,
          ==_iff id f.header.id,
        ))
]

-- Whatever frames a set received: the frame that it shows for an ID carries the time of the last
-- frame with that ID and the signals of the last one that was decoded, there is no frame for an ID
-- that never came, and `delta` is the time between the last two frames with that ID, absent before
-- the second.
pub replay_shows :
    (interface : Text) (id : ℕ) (hist : List CanFrame)
    → let set = replay interface hist in
      (stamp_of (lookup id set.frames) ≡ last_stamp id hist)
      × (signals_of (lookup id set.frames) ≡ last_signals id hist)
      × (delta set id ≡ last_gap id hist)
unfolding delta new_set
replay_shows interface id hist = let h = go hist in (h.stamp, h.signals, h.interval)
  where
    go : (hist : List CanFrame) → Shows id hist (replay interface hist)
    go [] = record { stamp = refl; signals = refl; interval = refl }
    go (f ∷ hist) = update-Shows id hist (replay interface hist) f (go hist)

-- Both maps are in key order, and a frame stands under its own ID.
pub record IsValid (set : DataFrameSet) : Type 0 where
  pub frames_ordered : IsOrdered set.frames
  pub deltas_ordered : IsOrdered set.deltas
  pub own_key : (id : ℕ) (f : CanFrame) → lookup id set.frames ≡ some f → f.header.id ≡ id

-- DataFrameSet::update keeps both maps in key order and every frame under its own ID.
pub update-IsValid : (set : DataFrameSet) (f : CanFrame) → IsValid set → IsValid (update set f)
unfolding update
update-IsValid set f v = elim (Option-cases (lookup f.header.id set.frames)) [
  | inl e ↦
      rw (e, update)
        (record {
          frames_ordered = insert-IsOrdered f.header.id f set.frames v.frames_ordered;
          deltas_ordered = v.deltas_ordered;
          own_key = λ id g q. ground (
            arith,
            lookup-insert f.header.id id f set.frames,
            ==_iff id f.header.id,
            v.own_key id g,
          );
        })
  | inr (old, e) ↦
      rw (e, update)
        (record {
          frames_ordered = insert-IsOrdered f.header.id _ set.frames v.frames_ordered;
          deltas_ordered = insert-IsOrdered f.header.id _ set.deltas v.deltas_ordered;
          own_key = λ id g q. ground (
            arith,
            lookup-insert f.header.id id (merge_or_replace old f) set.frames,
            header-merge_or_replace old f,
            ==_iff id f.header.id,
            v.own_key id g,
          );
        })
]

-- A frame that was decoded is what the set has for its ID.
pub lookup-update :
    (set : DataFrameSet) (f : CanFrame)
    → is_empty f.decoded ≡ false
    → lookup f.header.id (update set f).frames ≡ some f
unfolding update merge_or_replace
lookup-update set f h = elim (Option-cases (lookup f.header.id set.frames)) [
  | inl e ↦ rw (e, update) (lookup-insert_self f.header.id f set.frames)
  | inr (old, e) ↦
      let k : merge_or_replace old f ≡ f = rw (h, merge_or_replace) refl in
      rw (e, update)
        (ap (λ g. lookup f.header.id (insert f.header.id g set.frames)) k
          ∙ lookup-insert_self f.header.id f set.frames)
]
