-- ===== src/SendWindow/Edits.antt =====
-- What the edit window of the send window keeps, and when it reads behind a vector: src/gui/SendWindow.cpp.
use caneo.Common.{
  if_all, ℕ, zero, suc, ◌-◌, ◌≤◌, ◌<◌, ◌≡◌, refl, true, not, Option, none, some, List, [], ◌∷◌,
  arith, ltb, if◌then◌else◌, length, get_elem?,
}
use caneo.Common.Ieee.{Ieee}
use caneo.Preset.{bytes_of}
use caneo.Action.{single, periodic}
use caneo.Send.{SendSignal, encode}
use caneo.SendWindow.{
  SendWindow, at_least_one, edit_all, EditInput, Edited, apply_values, send_once, send_periodic,
  edit_sin, start_sin, sin_part,
}
use caneo.SendWindow.Frames.{edit_table, edit_content}
use caneo.SendWindow.Shape.{
  Ok, Ok-bind, length-edit_all, Fits, IsConsistent, Fits-IsConsistent, at_least_one-positive,
  apply_values-Fits, add_kind-Fits,
}
use caneo.Common.Text.{Text}
use caneo.Common.Int.{ℤ}
use caneo.Common.OrderedMap.{nat_key, text_key, pair_key}

Ok-map :
    {A : Type 0} (Q : Type 0) {P R : A → Type 0} (o : Option A)
    → ((a : A) → P a → R a)
    → Ok Q P o
    → Ok Q R o
Ok-map Q none f h = h
Ok-map Q (some a) f h = f a h

-- A read of a list: in range, or what follows from an index behind it.
Ok-get_elem? :
    {A : Type 0} (Q : Type 0) (xs : List A) (i : ℕ)
    → (length xs ≤ i → Q)
    → Ok Q (λ _. i < length xs) (get_elem? xs i)
Ok-get_elem? Q [] i h = h (omega arith)
Ok-get_elem? Q (x ∷ xs) zero h = omega arith
Ok-get_elem? Q (x ∷ xs) (suc i) h =
    Ok-map Q (get_elem? xs i) (λ _ k. omega (arith, k))
      (Ok-get_elem? Q xs i (λ k. h (omega (arith, k))))

module _ (fp : Ieee) (atoi : Text → ℤ) (now : ℤ) (inp : EditInput) (e : Edited) (idx : ℕ) where
  send_once-Fits :
      (Q : Type 0) (w : SendWindow)
      → Fits e idx w
      → Ok Q (Fits e idx) (send_once fp atoi now inp e w)
  unfolding send_once
  send_once-Fits Q w f =
      if_all (Ok Q (Fits e idx)) (not inp.send_once) (λ _. f)
        (λ _.
          Ok-bind Q (λ r. Fits e idx r.1) (Fits e idx) (apply_values fp atoi now inp e w) _
            (apply_values-Fits fp atoi now inp e idx Q w f)
            (λ r g.
              add_kind-Fits fp atoi now inp e idx single (bytes_of (encode fp r.0 e.index)) r.1 refl
                g))

  send_periodic-Fits :
      (Q : Type 0) (w : SendWindow)
      → Fits e idx w
      → Ok Q (Fits e idx) (send_periodic fp atoi now inp e w)
  unfolding send_periodic
  send_periodic-Fits Q w f =
      if_all (Ok Q (Fits e idx)) (not inp.send_periodic) (λ _. f)
        (λ _.
          Ok-bind Q (λ r. Fits e idx r.1) (Fits e idx) (apply_values fp atoi now inp e w) _
            (apply_values-Fits fp atoi now inp e idx Q w f)
            (λ r g.
              add_kind-Fits fp atoi now inp e idx (periodic (at_least_one (atoi w.period_buf)))
                (bytes_of (encode fp r.0 e.index)) r.1 (at_least_one-positive (atoi w.period_buf))
                g))

  edit_sin-Fits :
      (i : ℕ) (w : SendWindow)
      → Fits e idx w
      → Fits e i (edit_sin fp atoi now inp (record w { sin_sig_idx = i }))
  unfolding edit_sin
  edit_sin-Fits i w f = record {
    at_iface = f.at_iface;
    at_index = f.at_index;
    iface_data = f.iface_data;
    edits = f.edits;
    selected = refl;
    paced = record {
      sin_period = at_least_one-positive (inp.sin_period w.sin_period_ms);
      interval = at_least_one-positive (inp.interval w.sin_interval_ms);
      actions = f.paced.actions;
    };
  }

  start_sin-Fits :
      (Q : Type 0) (s : SendSignal) (w : SendWindow)
      → Fits e idx w
      → Ok Q (Fits e idx) (start_sin fp atoi now inp e s w)
  unfolding start_sin
  start_sin-Fits Q s w f =
      if_all (Ok Q (Fits e idx)) (not inp.start_sin) (λ _. f)
        (λ _.
          Ok-bind Q (λ r. Fits e idx r.1) (Fits e idx) (apply_values fp atoi now inp e w) _
            (apply_values-Fits fp atoi now inp e idx Q w f)
            (λ r g.
              add_kind-Fits fp atoi now inp e idx _ [] r.1
                (ground (arith, f.paced.sin_period, f.paced.interval)) g))

  edit_table-Fits :
      (Q : Type 0) (w : SendWindow)
      → Fits e idx w
      → Ok Q (Fits e idx) (edit_table fp atoi now inp e w)
  unfolding edit_table
  edit_table-Fits Q w f =
      if_all (Ok Q (Fits e idx)) (not inp.table) (λ _. f)
        (λ _.
          Ok-bind Q (λ r. length r ≡ length e.msg.signals) (Fits e idx)
            (edit_all inp.values 0 e.msg.signals w.editing_values) _
            (length-edit_all Q inp.values 0 e.msg.signals w.editing_values f.edits)
            (λ vs h. record {
              at_iface = f.at_iface;
              at_index = f.at_index;
              iface_data = f.iface_data;
              edits = h;
              selected = f.selected;
              paced = record {
                sin_period = f.paced.sin_period;
                interval = f.paced.interval;
                actions = f.paced.actions;
              };
            }))

-- The selection of the sin action is behind the signals of the edited message.
abbrev pub Behind : EditInput → Edited → ℕ → Type 0
Behind inp e idx = (inp.sin_header ≡ true) × (length e.msg.signals ≤ idx)

module _ (fp : Ieee) (atoi : Text → ℤ) (now : ℤ) (inp : EditInput) (e : Edited) (idx : ℕ) where
  period_buf-Fits :
      (w : SendWindow) (t : Text) → Fits e idx w → Fits e idx (record w { period_buf = t })
  period_buf-Fits w t f = record {
    at_iface = f.at_iface;
    at_index = f.at_index;
    iface_data = f.iface_data;
    edits = f.edits;
    selected = f.selected;
    paced = record {
      sin_period = f.paced.sin_period;
      interval = f.paced.interval;
      actions = f.paced.actions;
    };
  }

  sin_part-Ok :
      (w : SendWindow)
      → Fits e idx w
      → Ok (Behind inp e idx) IsConsistent (sin_part fp atoi now inp e w)
  unfolding sin_part
  sin_part-Ok w f =
      if_all (Ok (Behind inp e idx) IsConsistent) (not inp.sin_header)
        (λ _. Fits-IsConsistent e idx w f)
        (λ h.
          let B = Behind inp e idx in
          let ss = e.msg.signals in
          let i : ℕ = elim inp.chosen_signal [ none ↦ w.sin_sig_idx | some k ↦ k ] in
          let c = if ltb i (length ss) then i else length ss - 1 in
          Ok-bind B (λ _. w.sin_sig_idx < length ss) IsConsistent (get_elem? ss w.sin_sig_idx) _
            (Ok-get_elem? B ss w.sin_sig_idx
              (λ k. (ground (arith, h), omega (arith, k, f.selected))))
            (λ _ k.
              Ok-bind B (λ _. c < length ss) IsConsistent (get_elem? ss c) _
                (Ok-get_elem? B ss c (λ l. absurd (ground (arith, k, l))))
                (λ s _. Ok-map B (start_sin fp atoi now inp e s _) (Fits-IsConsistent e i) (
                  start_sin-Fits fp atoi now inp e i B s _
                    (edit_sin-Fits fp atoi now inp e idx i w f)))))

  pub edit_content-Ok :
      (w : SendWindow)
      → Fits e idx w
      → Ok (Behind inp e idx) IsConsistent (edit_content fp atoi now inp e w)
  unfolding edit_content
  edit_content-Ok w f =
      let B = Behind inp e idx in
      let F = Fits e idx in
      Ok-bind B F IsConsistent (edit_table fp atoi now inp e w) _
        (edit_table-Fits fp atoi now inp e idx B w f)
        (λ w1 f1.
          Ok-bind B F IsConsistent (send_once fp atoi now inp e w1) _
            (send_once-Fits fp atoi now inp e idx B w1 f1)
            (λ w2 f2.
              Ok-bind B F IsConsistent (send_periodic fp atoi now inp e w2) _
                (send_periodic-Fits fp atoi now inp e idx B w2 f2)
                (λ w3 f3.
                  sin_part-Ok (record w3 { period_buf = inp.period w3.period_buf })
                    (period_buf-Fits w3 _ f3))))
