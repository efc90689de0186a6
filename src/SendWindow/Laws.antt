-- ===== src/SendWindow/Laws.antt =====
-- What a frame of the send window keeps, and when it reads behind a vector: src/gui/SendWindow.cpp.
use caneo.SendWindow.Shape.{count_of, Ok, Fits, IsConsistent, edited-at, Fits-IsConsistent}
use caneo.Common.{
  if_all, ℕ, suc, ◌+◌, ◌≡◌, refl, sym, ap, ◌∙◌, ◌⊎◌, inl, inr, Bool, not, Option, none, some, List,
  [], ◌∷◌, map, Option-cases, length, get_elem?,
}
use caneo.Common.Ieee.{Double, Ieee}
use caneo.Send.{SendMessage, SendSignal}
use caneo.SendWindow.Edits.{Behind, edit_content-Ok}
use caneo.SendWindow.{
  new_send_window, IfaceData, SendWindow, message_at, values_of, open_popup, EditInput, Edited,
}
use caneo.SendWindow.Frames.{
  edited, shown_window, render_edit_window, click_messages, click_ifaces, render_send_window,
}
use caneo.Common.Text.{Text}
use caneo.Common.Int.{ℤ}
use caneo.Common.OrderedMap.{nat_key, text_key, pair_key}

Ok-weaken : {A Q R : Type 0} (P : A → Type 0) (o : Option A) → (Q → R) → Ok Q P o → Ok R P o
Ok-weaken P none f h = f h
Ok-weaken P (some a) f h = h

length_of_map : (ss : List SendSignal) → length (map (λ (s : SendSignal). s.value) ss) ≡ length ss
length_of_map [] = refl
length_of_map (s ∷ ss) = ap suc (length_of_map ss)

-- Where the edited message is found.
abbrev pub Found : SendWindow → Edited → Type 0
Found w e =
    (edited w ≡ some e)
    × ((w.popup_iface ≡ some e.iface)
        × ((w.popup_msg ≡ some e.index)
            × ((d : IfaceData) × ((get_elem? w.ifaces e.iface ≡ some d)
                  × (get_elem? d.model e.index ≡ some e.msg)))))

edited-cases : (w : SendWindow) → (edited w ≡ none) ⊎ ((e : Edited) × Found w e)
unfolding edited
edited-cases w = elim (Option-cases w.popup_iface) [
  | inl a ↦ inl (rw (a, edited) refl)
  | inr (i, a) ↦ elim (Option-cases w.popup_msg) [
    | inl b ↦ inl (rw (a, b, edited) refl)
    | inr (j, b) ↦ elim (Option-cases (get_elem? w.ifaces i)) [
      | inl c ↦ inl (rw (a, b, c, edited) refl)
      | inr (d, c) ↦ elim (Option-cases (get_elem? d.model j)) [
        | inl g ↦ inl (rw (a, b, c, g, edited) refl)
        | inr (m, g) ↦ inr (_, (edited-at w i j d m a b c g, (a, (b, (d, (c, g))))))
      ]
    ]
  ]
]

length-values_of : (m : SendMessage) → length (values_of (some m)) ≡ length m.signals
unfolding values_of
length-values_of m = length_of_map m.signals

message_at-some :
    (ifaces : List IfaceData) (i j : ℕ) (d : IfaceData) (m : SendMessage)
    → get_elem? ifaces i ≡ some d
    → get_elem? d.model j ≡ some m
    → message_at ifaces i j ≡ some m
unfolding message_at
message_at-some ifaces i j d m c g = rw (c, g, message_at) refl

none-some : {A : Type 0} (o : Option A) (a : A) → o ≡ none → o ≡ some a → ⊥
none-some o a h k = cc

opened-edits :
    (w : SendWindow) (i j : ℕ) (e : Edited)
    → edited (open_popup w i j) ≡ some e
    → length (values_of (message_at w.ifaces i j)) ≡ length e.msg.signals
unfolding open_popup edited
opened-edits w i j e h = elim (Option-cases (get_elem? w.ifaces i)) [
  | inl c ↦ absurd (none-some (edited (open_popup w i j)) e (rw (c, edited) refl) h)
  | inr (d, c) ↦ elim (Option-cases (get_elem? d.model j)) [
    | inl g ↦ absurd (none-some (edited (open_popup w i j)) e (rw (c, g, edited) refl) h)
    | inr (m, g) ↦
        ap (λ o. length (values_of o)) (message_at-some w.ifaces i j d m c g)
        ∙ (length-values_of m
            ∙ ap count_of (sym (edited-at (open_popup w i j) i j d m refl refl c g) ∙ h))
  ]
]

open_popup-IsConsistent :
    (w : SendWindow) (i j : ℕ) → IsConsistent w → IsConsistent (open_popup w i j)
unfolding open_popup
open_popup-IsConsistent w i j v = record {
  edits = λ e h. opened-edits w i j e h;
  paced = record {
    sin_period = v.paced.sin_period;
    interval = v.paced.interval;
    actions = v.paced.actions;
  };
}

module _ (fp : Ieee) (atoi : Text → ℤ) (now : ℤ) where
  click_messages-IsConsistent :
      (clicks : ℕ → ℕ → Bool) (i j : ℕ) (ms : List SendMessage) (w : SendWindow)
      → IsConsistent w
      → IsConsistent (click_messages fp atoi now clicks i j ms w)
  unfolding click_messages
  click_messages-IsConsistent clicks i j [] w v = v
  click_messages-IsConsistent clicks i j (m ∷ ms) w v =
      click_messages-IsConsistent clicks i (j + 1) ms _
        (if_all IsConsistent (clicks i j) (λ _. open_popup-IsConsistent w i j v) (λ _. v))

  click_ifaces-IsConsistent :
      (clicks : ℕ → ℕ → Bool) (i : ℕ) (ds : List IfaceData) (w : SendWindow)
      → IsConsistent w
      → IsConsistent (click_ifaces fp atoi now clicks i ds w)
  unfolding click_ifaces
  click_ifaces-IsConsistent clicks i [] w v = v
  click_ifaces-IsConsistent clicks i (d ∷ ds) w v =
      click_ifaces-IsConsistent clicks (i + 1) ds _
        (click_messages-IsConsistent clicks i 0 d.model w v)

  -- The one read behind a vector: the edit window shows a message, the header "Send Sin" is open, and
  -- the selected signal is behind those of this message.
  abbrev pub ReadsBehind : EditInput → SendWindow → Type 0
  ReadsBehind inp w = (e : Edited) × ((edited w ≡ some e) × Behind inp e w.sin_sig_idx)

  Found-Fits :
      (w : SendWindow) (e : Edited)
      → Found w e
      → IsConsistent w
      → (b : Bool) → Fits e w.sin_sig_idx (record w { popup_open = b })
  Found-Fits w e (x, (a, (b, (d, (c, g))))) v o = record {
    at_iface = a;
    at_index = b;
    iface_data = (d, (c, (e.msg, (g, refl))));
    edits = v.edits e x;
    selected = refl;
    paced = record {
      sin_period = v.paced.sin_period;
      interval = v.paced.interval;
      actions = v.paced.actions;
    };
  }

  shown_window-Ok :
      (inp : EditInput) (w : SendWindow) (e : Edited)
      → Found w e
      → IsConsistent w
      → Ok (Behind inp e w.sin_sig_idx) IsConsistent (shown_window fp atoi now inp e w)
  unfolding shown_window
  shown_window-Ok inp w e f v =
      let g = Found-Fits w e f v inp.still_open in
      if_all (Ok (Behind inp e w.sin_sig_idx) IsConsistent) (not inp.begun)
        (λ _. Fits-IsConsistent e w.sin_sig_idx _ g)
        (λ _. edit_content-Ok fp atoi now inp e w.sin_sig_idx _ g)

  render_edit_window-Ok :
      (inp : EditInput) (w : SendWindow)
      → IsConsistent w
      → Ok (ReadsBehind inp w) IsConsistent (render_edit_window fp atoi now inp w)
  unfolding render_edit_window
  render_edit_window-Ok inp w v =
      if_all (Ok (ReadsBehind inp w) IsConsistent) (not w.popup_open) (λ _. v)
        (λ _. elim (edited-cases w) [
          | inl n ↦ rw n v
          | inr (e, f) ↦ rw (f.0) (
              Ok-weaken IsConsistent (shown_window fp atoi now inp e w) (λ q. (e, (refl, q)))
                (shown_window-Ok inp w e f v))
        ])

  -- A frame of the window, whatever is clicked and typed: the window reads behind a vector only for the
  -- name of the signal of a sin action, where the header is open and the selected index is not one of
  -- the message; else the edited values stay those of the signals of the message, and no action was
  -- added whose period or interval is not positive.
  pub render_send_window_lem :
      (clicks : ℕ → ℕ → Bool) (inp : EditInput) (w : SendWindow)
      → IsConsistent w
      → Ok
          (ReadsBehind inp (click_ifaces fp atoi now clicks 0 w.ifaces w))
          IsConsistent
          (render_send_window fp atoi now clicks inp w)
  unfolding render_send_window
  render_send_window_lem clicks inp w v =
      render_edit_window-Ok inp _ (click_ifaces-IsConsistent clicks 0 w.ifaces w v)

pub new_send_window-IsConsistent :
    (one : Double) (ifaces : List IfaceData) → IsConsistent (new_send_window one ifaces)
unfolding new_send_window edited
new_send_window-IsConsistent one ifaces = record {
  edits = λ e h. absurd (cc h);
  paced = record { sin_period = refl; interval = refl; actions = refl };
}
