-- ===== src/RemoteLog/Tests.antt =====
-- Clients of a server's log, and the theorems at them.
use caneo.Common.{◌≡◌, refl, true, false, some, [], ◌∷◌}
use caneo.Common.Text.{Text, codes}
use caneo.Common.Int.{pos}
use caneo.Common.OrderedMap.{nat_key, text_key, pair_key}
use caneo.Logs.{new_controller, start}
use caneo.RemoteLog.{start_log, RemoteLogControl, after_start}
use caneo.RemoteLog.Agreement.{start_call, server_logs, calls, calls_agree}

abbrev client : RemoteLogControl
client = record { logging = false; path = []; log_start_time = pos 0 }

abbrev file : Text
file = codes "log.mcap"

calls_agree_example :
    let t =
      calls
        (some new_controller, client)
        (start_call file false (pos 3) (pos 4) ∷ start_call file true (pos 5) (pos 6) ∷ []) in
    t.1.logging ≡ server_logs t.0
calls_agree_example =
    calls_agree (some new_controller, client) (start_call file false (pos 3) (pos 4))
      (start_call file true (pos 5) (pos 6) ∷ [])

shown_after_start :
    (calls (some new_controller, client) (start_call file true (pos 5) (pos 6) ∷ [])).1
    ≡ record { logging = true; path = file; log_start_time = pos 6 }
unfolding start_log start new_controller after_start
shown_after_start = refl
