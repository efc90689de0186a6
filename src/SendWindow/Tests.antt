-- ===== src/SendWindow/Tests.antt =====
-- One message with one signal, and the theorem on a frame of the send window at it.
use caneo.Common.Plain.{plain}
use caneo.Dbc.{integer, no_mux}
use caneo.Send.{SendMessage, SendSignal}
use caneo.SendWindow.{IfaceData, SendWindow, new_send_window, EditInput}
use caneo.SendWindow.Frames.{render_send_window, click_ifaces}
use caneo.SendWindow.Shape.{Ok, IsConsistent}
use caneo.SendWindow.Laws.{ReadsBehind, render_send_window_lem, new_send_window-IsConsistent}
use caneo.Common.{
  ℕ, ◌≡◌, refl, Bool, true, false, Option, none, some, List, [], ◌∷◌, map, length, drop,
}
use caneo.Common.Text.{codes}
use caneo.Common.Int.{pos}
use caneo.Common.OrderedMap.{nat_key, text_key, pair_key}

abbrev kmh : SendSignal
kmh = record {
  name = codes "Kmh";
  unit = codes "km/h";
  min_val = 0;
  max_val = 200;
  value = 7;
  sig = record {
    name = codes "Kmh";
    unit = codes "km/h";
    minimum = 0;
    maximum = 200;
    factor = 1;
    offset = 0;
    start_bit = 0;
    bit_size = 8;
    value_type = integer;
    multiplexer = no_mux;
    switch_value = 0;
    decode = λ bytes. length bytes;
    encode = λ raw bytes. raw ∷ drop 1 bytes;
    raw_to_phys = λ n. n;
    phys_to_raw = λ n. n;
  };
}

abbrev speed : SendMessage
speed = record { name = codes "Speed"; id = 291; dlc = 2; signals = kmh ∷ [] }

abbrev ifaces : List IfaceData
ifaces = record { name = codes "can0"; model = speed ∷ [] } ∷ []

-- The row of the message is clicked, its value is set to 9, and one frame is sent.
abbrev clicks : ℕ → ℕ → Bool
clicks i j = true

abbrev input : EditInput
input = record {
  begun = true;
  still_open = true;
  table = true;
  values = λ k v. 9;
  send_once = true;
  send_periodic = false;
  period = λ t. t;
  sin_header = false;
  chosen_signal = none;
  amplitude = λ v. v;
  offset = λ v. v;
  sin_period = λ v. v;
  interval = λ v. v;
  start_sin = false;
}

payloads : Option SendWindow → List (List ℕ)
payloads none = []
payloads (some w) = map (λ a. a.payload) w.added

nine_sent :
    payloads (render_send_window plain (λ t. pos 0) (pos 0) clicks input (new_send_window 1 ifaces))
    ≡ (9 ∷ 0 ∷ []) ∷ []
unfolding render_send_window new_send_window payloads
nine_sent = refl

-- The second signal of another message is still selected: its name is read behind the one signal.
abbrev stale : SendWindow
unfolding new_send_window
stale = record (new_send_window 1 ifaces) { sin_sig_idx = 1 }

reads_behind :
    render_send_window plain (λ t. pos 0) (pos 0) clicks (record input { sin_header = true }) stale
    ≡ none
unfolding render_send_window stale
reads_behind = refl

render_send_window_lem_example :
    Ok
      (ReadsBehind plain
        (λ t. pos 0)
        (pos 0)
        input
        (click_ifaces plain (λ t. pos 0) (pos 0) clicks 0 ifaces (new_send_window 1 ifaces)))
      IsConsistent
      (render_send_window plain (λ t. pos 0) (pos 0) clicks input (new_send_window 1 ifaces))
unfolding new_send_window
render_send_window_lem_example =
    render_send_window_lem plain (λ t. pos 0) (pos 0) clicks input (new_send_window 1 ifaces)
      (new_send_window-IsConsistent 1 ifaces)
