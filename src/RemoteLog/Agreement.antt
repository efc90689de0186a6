-- ===== src/RemoteLog/Agreement.antt =====
-- What a client knows of the server's log: src/grpc.
use caneo.Common.{◌≡◌, refl, sym, Bool, true, false, Option, none, some, List, [], ◌∷◌, arith}
use caneo.Common.Text.{Text}
use caneo.Common.Int.{ℤ}
use caneo.Common.OrderedMap.{nat_key, text_key, pair_key}
use caneo.Logs.{LogController, start, is_logging}
use caneo.RemoteLog.{
  status_of, fill_log_status, start_answer, start_log, stop_log, get_log_status, RemoteLogControl,
  received, after_start, after_stop, refresh_status,
}

-- The client's calls, with the path, the success and the clocks of LogController::start and of the client.
pub data Call : Type 0 where
  start_call : Text → Bool → ℤ → ℤ → Call
  stop_call : Call
  refresh_call : ℤ → Call

abbrev pub System : Type 0
System = Option LogController × RemoteLogControl

-- A call whose answer arrives.
abbrev pub call : System → Call → System
call (lc, r) (start_call path opened now here) =
    let a = start_log lc path opened now in (a.0, after_start r a.1 here)
call (lc, r) stop_call = let a = stop_log lc in (a.0, after_stop r a.1)
call (lc, r) (refresh_call here) = let a = get_log_status lc in (a.0, refresh_status r a.1 here)

abbrev pub calls : System → List Call → System
calls s [] = s
calls s (c ∷ cs) = calls (call s c) cs

abbrev pub server_logs : Option LogController → Bool
server_logs none = false
server_logs (some lc) = is_logging lc

abbrev Agrees : System → Type 0
Agrees (lc, r) = r.logging ≡ server_logs lc

answer-Agrees :
    (lc : LogController) (thrown : Bool) (r : RemoteLogControl) (here : ℤ)
    → (thrown ≡ true → is_logging lc ≡ false)
    → Agrees ((start_answer (lc, thrown)).0, after_start r (start_answer (lc, thrown)).1 here)
unfolding start_answer after_start received fill_log_status status_of
answer-Agrees lc true r here h = sym (h refl)
answer-Agrees lc false r here h = refl

start-thrown :
    (lc : LogController) (path : Text) (opened : Bool) (now : ℤ)
    → (start lc path opened now).1 ≡ true
    → is_logging (start lc path opened now).0 ≡ false
unfolding start is_logging
start-thrown lc path opened now h = ground (arith, h)

call-Agrees : (s : System) (c : Call) → Agrees (call s c)
unfolding start_log stop_log get_log_status after_start after_stop refresh_status received
    fill_log_status status_of
call-Agrees (none, r) (start_call path opened now here) = refl
call-Agrees (some lc, r) (start_call path opened now here) =
    answer-Agrees (start lc path opened now).0 (start lc path opened now).1 r here
      (start-thrown lc path opened now)
call-Agrees (none, r) stop_call = refl
call-Agrees (some lc, r) stop_call = refl
call-Agrees (none, r) (refresh_call here) = refl
call-Agrees (some lc, r) (refresh_call here) = refl

-- After any calls whose answers arrive, one at least, the client shows whether the server logs; also where the
-- server could not open a file, or has no log.
pub calls_agree :
    (s : System) (c : Call) (cs : List Call)
    → let t = calls s (c ∷ cs) in t.1.logging ≡ server_logs t.0
calls_agree s c [] = call-Agrees s c
calls_agree s c (d ∷ cs) = calls_agree (call s c) d cs

start-opened :
    (lc : LogController) (path : Text) (now : ℤ)
    → ((start lc path true now).1 ≡ false) × (is_logging (start lc path true now).0 ≡ true)
unfolding start is_logging
start-opened lc path now = ground (arith)

blind-seen :
    (lc : LogController) (thrown : Bool) (r : RemoteLogControl) (here later : ℤ)
    → thrown ≡ false
    → is_logging lc ≡ true
    → let server = (start_answer (lc, thrown)).0 in
      let blind = after_start r none here in
      let seen = refresh_status blind (get_log_status server).1 later in
      (server_logs server ≡ true)
      × ((blind.logging ≡ false) × (blind.path ≡ []))
      × ((seen.logging ≡ true) × (seen.log_start_time ≡ later))
unfolding start_answer get_log_status after_start refresh_status received fill_log_status status_of
blind-seen lc true r here later e h = ground (arith, e)
blind-seen lc false r here later e h = (h, (refl, refl), (h, rw (h) refl))

-- A start that opens its file but whose answer is lost: the server logs, the client shows that it does not
-- and no path, as the status of the call is not tested; the next refresh whose answer arrives shows the log
-- of the server and its path, and takes its own time as the start.
pub lost_start :
    (lc : LogController) (r : RemoteLogControl) (path : Text) (now here later : ℤ)
    → let server = (start_log (some lc) path true now).0 in
      let blind = after_start r none here in
      let seen = refresh_status blind (get_log_status server).1 later in
      (server_logs server ≡ true)
      × ((blind.logging ≡ false) × (blind.path ≡ []))
      × ((seen.logging ≡ true) × (seen.log_start_time ≡ later))
unfolding start_log
lost_start lc r path now here later =
    let s = start-opened lc path now in
    blind-seen (start lc path true now).0 (start lc path true now).1 r here later s.0 s.1
