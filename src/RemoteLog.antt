-- ===== src/RemoteLog.antt =====
-- The log of a server, controlled by its clients: StartLog, StopLog and GetLogStatus of
-- src/grpc/CanStreamService.cpp, and src/grpc/RemoteLogControl.cpp on the client's side.
pub mod Agreement
mod Tests
use caneo.Common.{Bool, true, false, not, ◌&&◌, Option, none, some, [], if◌then◌else◌}
use caneo.Common.Text.{Text}
use caneo.Common.Int.{ℤ, pos}
use caneo.Logs.{LogController, start, stop, is_logging}

-- caneo::LogStatus; a new one is inactive, with an empty path.
pub record LogStatus : Type 0 where
  pub active : Bool
  pub path : Text

abbrev pub no_status : LogStatus
no_status = record { active = false; path = [] }

pub status_of : LogController → LogStatus
unfolding is_logging
status_of lc = record { active = is_logging lc; path = lc.current_path }

-- fill_log_status
pub fill_log_status : Option LogController → LogStatus → LogStatus
unfolding status_of
fill_log_status none status = status
fill_log_status (some lc) status = status_of lc

-- What a call leaves on the server, and its answer: nothing where the handler throws, which gRPC turns into an
-- error of the call.
abbrev pub Answer : Type 0
Answer = Option LogController × Option LogStatus

start_answer : LogController × Bool → Answer
unfolding fill_log_status
start_answer (lc, true) = (some lc, none)
start_answer (lc, false) = (some lc, some (fill_log_status (some lc) no_status))

-- StartLog; the last three arguments are those of LogController::start.
unfoldable pub start_log : Option LogController → Text → Bool → ℤ → Answer
unfolding start start_answer fill_log_status
start_log none path opened now = (none, some (fill_log_status none no_status))
start_log (some lc) path opened now = start_answer (start lc path opened now)

unfoldable pub stop_log : Option LogController → Answer
unfolding stop fill_log_status
stop_log none = (none, some (fill_log_status none no_status))
stop_log (some lc) = (some (stop lc), some (fill_log_status (some (stop lc)) no_status))

unfoldable pub get_log_status : Option LogController → Answer
unfolding fill_log_status
get_log_status lc = (lc, some (fill_log_status lc no_status))

pub record RemoteLogControl : Type 0 where
  pub logging : Bool
  pub path : Text
  pub log_start_time : ℤ

-- The message that a call has filled, which is as it was where the call has failed.
pub received : Option LogStatus → LogStatus
received none = no_status
received (some status) = status

-- RemoteLogControl::start, stop and refresh_status behind the call.
unfoldable pub after_start : RemoteLogControl → Option LogStatus → ℤ → RemoteLogControl
unfolding received
after_start r answer now =
    let status = received answer in
    record r {
      logging = status.active;
      path = status.path;
      log_start_time = if status.active then now else r.log_start_time;
    }

unfoldable pub after_stop : RemoteLogControl → Option LogStatus → RemoteLogControl
unfolding received
after_stop r answer =
    let status = received answer in record r { logging = status.active; path = status.path }

unfoldable pub refresh_status : RemoteLogControl → Option LogStatus → ℤ → RemoteLogControl
refresh_status r none now = r
refresh_status r (some status) now = record r {
  logging = status.active;
  path = status.path;
  log_start_time = if status.active && not r.logging then now else r.log_start_time;
}

-- The constructor.
unfoldable pub connect : Option LogStatus → ℤ → RemoteLogControl
unfolding refresh_status
connect answer now =
    refresh_status (record { logging = false; path = []; log_start_time = pos 0 }) answer now
