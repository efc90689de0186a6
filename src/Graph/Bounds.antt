-- ===== src/Graph/Bounds.antt =====
-- How many points the graphs keep: src/gui/GraphWindow.
use caneo.Common.{
  if_all, ℕ, zero, suc, ◌-◌, ◌≡◌, refl, sym, ap, ◌∙◌, inl, inr, Bool, true, ◌&&◌, Option, none,
  some, List, [], ◌∷◌, ◌++◌, map, arith, leb, ◌==◌, Option-cases, length, get_elem?, drop, any, all,
  length-append, set,
}
use caneo.Common.Text.{Text, text_eq}
use caneo.Common.Int.{ℤ, ◌-ℤ◌}
use caneo.Common.OrderedMap.{nat_key, text_key, pair_key}
use caneo.Common.Ieee.{Double, Ieee}
use caneo.Frame.{CanFrame}
use caneo.Graph.{
  SignalSeries, GraphTab, GraphWindow, new_window, max_points, push, first_value, push_found,
  update_series, push_first, on_series, update, push_value, add_graph, is_series, add_signal,
}

-- A series has a value for every time, and at most `MAX` of them.
abbrev pub is_bounded : SignalSeries → Bool
is_bounded s = length s.xs == length s.ys && leb (length s.xs) max_points

abbrev pub all_bounded : GraphWindow → Bool
all_bounded w = all (λ (tab : GraphTab). all is_bounded tab.series) w.graphs

length-drop_one : {A : Type 0} (xs : List A) → length (drop 1 xs) ≡ length xs - 1
length-drop_one [] = refl
length-drop_one (x ∷ xs) = omega arith

push-bounded :
    (s : SignalSeries) (t v : Double) → is_bounded s ≡ true → is_bounded (push s t v) ≡ true
unfolding push
push-bounded s t v h = ground (
  arith,
  h,
  length-append s.xs (t ∷ []),
  length-append s.ys (v ∷ []),
  length-drop_one (s.xs ++ (t ∷ [])),
  length-drop_one (s.ys ++ (v ∷ [])),
)

push_found-bounded :
    (s : SignalSeries) (t : Double) (o : Option Double)
    → is_bounded s ≡ true
    → is_bounded (push_found s t o) ≡ true
unfolding push_found
push_found-bounded s t none h = h
push_found-bounded s t (some v) h = push-bounded s t v h

both : (a b : Bool) → a ≡ true → b ≡ true → a && b ≡ true
both a b h k = rw (h, k) refl

update_series-bounded :
    (t : Double) (f : CanFrame) (s : SignalSeries)
    → is_bounded s ≡ true
    → is_bounded (update_series t f s) ≡ true
unfolding update_series
update_series-bounded t f s h =
    if_all (λ x. is_bounded x ≡ true)
      (text_eq s.interface f.header.interface && s.msg_id == f.header.id)
      (λ _. push_found-bounded s t (first_value s.signal_name f.decoded) h) (λ _. h)

map-bounded :
    (t : Double) (f : CanFrame) (ss : List SignalSeries)
    → all is_bounded ss ≡ true
    → all is_bounded (map (update_series t f) ss) ≡ true
map-bounded t f [] h = refl
map-bounded t f (s ∷ ss) h =
    both (is_bounded (update_series t f s)) (all is_bounded (map (update_series t f) ss))
      (update_series-bounded t f s (ground (arith, h))) (map-bounded t f ss (ground (arith, h)))

push_first-bounded :
    (interface name : Text) (t v : Double) (ss : List SignalSeries)
    → all is_bounded ss ≡ true
    → all is_bounded (push_first interface name t v ss) ≡ true
unfolding push_first
push_first-bounded interface name t v [] h = refl
push_first-bounded interface name t v (s ∷ ss) h =
    let here : is_bounded s ≡ true = ground (arith, h) in
    let rest : all is_bounded ss ≡ true = ground (arith, h) in
    if_all (λ l. all is_bounded l ≡ true)
      (text_eq s.interface interface && (s.msg_id == 0 && text_eq s.signal_name name))
      (λ _. both (is_bounded (push s t v)) (all is_bounded ss) (push-bounded s t v here) rest)
      (λ _.
        both (is_bounded s) (all is_bounded (push_first interface name t v ss)) here
          (push_first-bounded interface name t v ss rest))

on_tabs :
    (f : List SignalSeries → List SignalSeries) (tabs : List GraphTab)
    → ((ss : List SignalSeries) → all is_bounded ss ≡ true → all is_bounded (f ss) ≡ true)
    → all (λ (tab : GraphTab). all is_bounded tab.series) tabs ≡ true
    → all
        (λ (tab : GraphTab). all is_bounded tab.series)
        (map (λ (tab : GraphTab). record tab { series = f tab.series }) tabs)
      ≡ true
on_tabs f [] k h = refl
on_tabs f (tab ∷ tabs) k h =
    both (all is_bounded (f tab.series)) _ (k tab.series (ground (arith, h)))
      (on_tabs f tabs k (ground (arith, h)))

all-append :
    {A : Type 0} (p : A → Bool) (xs ys : List A)
    → all p xs ≡ true
    → all p ys ≡ true
    → all p (xs ++ ys) ≡ true
all-append p [] ys h k = k
all-append p (x ∷ xs) ys h k =
    both (p x) (all p (xs ++ ys)) (ground (arith, h)) (all-append p xs ys (ground (arith, h)) k)

all-set :
    {A : Type 0} (p : A → Bool) (xs : List A) (i : ℕ) (v : A)
    → all p xs ≡ true
    → p v ≡ true
    → all p (set xs i v) ≡ true
all-set p [] i v h k = refl
all-set p (x ∷ xs) zero v h k = both (p v) (all p xs) k (ground (arith, h))
all-set p (x ∷ xs) (suc i) v h k =
    both (p x) (all p (set xs i v)) (ground (arith, h)) (all-set p xs i v (ground (arith, h)) k)

all-get_elem? :
    {A : Type 0} (p : A → Bool) (xs : List A) (i : ℕ) {x : A}
    → all p xs ≡ true
    → get_elem? xs i ≡ some x
    → p x ≡ true
all-get_elem? p [] i h e = cc
all-get_elem? p (y ∷ xs) zero {x} h e =
    let q : y ≡ x = cc in let k : p y ≡ true = ground (arith, h) in ap p (sym q) ∙ k
all-get_elem? p (x ∷ xs) (suc i) h e = all-get_elem? p xs i (ground (arith, h)) e

-- A call of a method that changes the window.
pub data Op : Type 0 where
  frame_op : CanFrame → Op
  value_op : Text → Text → Double → ℤ → Op
  graph_op : Text → Op
  signal_op : ℕ → SignalSeries → Op

add_signal-bounded :
    (w : GraphWindow) (i : ℕ) (s : SignalSeries)
    → all_bounded w ≡ true
    → all_bounded (add_signal w i s) ≡ true
unfolding add_signal
add_signal-bounded w i s h = elim (Option-cases (get_elem? w.graphs i)) [
  | inl e ↦ rw (e, add_signal) h
  | inr (tab, e) ↦
      rw (e, add_signal)
        (if_all (λ x. all_bounded x ≡ true)
          (any (is_series s.interface s.msg_id s.signal_name) tab.series) (λ _. h)
          (λ _.
            all-set (λ (x : GraphTab). all is_bounded x.series) w.graphs i _ h
              (all-append is_bounded tab.series _
                (all-get_elem? (λ (x : GraphTab). all is_bounded x.series) w.graphs i h e) refl)))
]

module _ (fp : Ieee) where
  abbrev pub step : GraphWindow → Op → GraphWindow
  step w (frame_op f) = update fp w f
  step w (value_op interface name v now) = push_value fp w interface name v now
  step w (graph_op name) = (add_graph w name).0
  step w (signal_op i s) = add_signal w i s

  abbrev pub run : GraphWindow → List Op → GraphWindow
  run w [] = w
  run w (op ∷ ops) = run (step w op) ops

  step-bounded : (w : GraphWindow) (op : Op) → all_bounded w ≡ true → all_bounded (step w op) ≡ true
  unfolding update push_value on_series add_graph
  step-bounded w (frame_op f) h =
      on_tabs (map (update_series (fp.seconds (f.timestamp -ℤ w.start)) f)) w.graphs
        (map-bounded (fp.seconds (f.timestamp -ℤ w.start)) f) h
  step-bounded w (value_op interface name v now) h =
      on_tabs (push_first interface name (fp.seconds (now -ℤ w.start)) v) w.graphs
        (push_first-bounded interface name (fp.seconds (now -ℤ w.start)) v) h
  step-bounded w (graph_op name) h =
      all-append (λ (x : GraphTab). all is_bounded x.series) w.graphs _ h refl
  step-bounded w (signal_op i s) h = add_signal-bounded w i s h

  run-from :
      (w : GraphWindow) (ops : List Op) → all_bounded w ≡ true → all_bounded (run w ops) ≡ true
  run-from w [] h = h
  run-from w (op ∷ ops) h = run-from (step w op) ops (step-bounded w op h)

  -- Whatever frames and values arrive and whatever graphs and signals are added, every series has as many values as
  -- times, and never more than 10000 of them.
  pub run-bounded : (now : ℤ) (ops : List Op) → all_bounded (run (new_window now) ops) ≡ true
  unfolding new_window
  run-bounded now ops = run-from (new_window now) ops refl
