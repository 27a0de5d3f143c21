-- ===== src/DeviceStatus/Runs.antt =====
-- The methods of the store as the steps of a run.
use tsn_fieldbus.Base.{ℕ, List, [], ◌∷◌, Option, none, some, ◌==◌, if◌then◌else◌}
use tsn_fieldbus.Proto.{
  StatusCode, DeviceState, SyncStatus, LogReason, status_code_change, state_change,
  sync_status_change, missed_cycle, temperature_change, heartbeat,
}
use tsn_fieldbus.DeviceStatus.{
  DeviceStatusStore, append_log, update_status_code, update_state, update_sync_status,
  increment_missed_cycles_by, update_min_cycle_time, update_max_cycle_time,
  update_receive_cycle_metrics, update_send_cycle_metrics, update_temperature,
}

-- A call with its arguments and the reading of the clock. `beat` is what the logging task does once a
-- minute.
pub data Call : Type 0 where
  status_code : StatusCode → Call
  state : DeviceState → ℕ → Call
  sync_status : SyncStatus → ℕ → Call
  missed : ℕ → ℕ → Call
  min_cycle max_cycle temperature : ℕ → ℕ → Call
  receive_metrics send_metrics : ℕ → ℕ → ℕ → ℕ → Call
  beat : Call

unfoldable pub call : DeviceStatusStore → Call → DeviceStatusStore
unfolding append_log update_status_code update_state update_sync_status increment_missed_cycles_by
    update_min_cycle_time update_max_cycle_time update_receive_cycle_metrics
    update_send_cycle_metrics update_temperature
call s (status_code c) = update_status_code s c
call s (state d now) = update_state s d now
call s (sync_status c now) = update_sync_status s c now
call s (missed count now) = increment_missed_cycles_by s count now
call s (min_cycle value now) = update_min_cycle_time s value now
call s (max_cycle value now) = update_max_cycle_time s value now
call s (temperature value now) = update_temperature s value now
call s (receive_metrics min_ns max_ns average_ns now) =
    update_receive_cycle_metrics s min_ns max_ns average_ns now
call s (send_metrics min_ns max_ns average_ns now) =
    update_send_cycle_metrics s min_ns max_ns average_ns now
call s beat = record s { log_entries = append_log s.log_entries heartbeat s.current }

unfoldable pub calls : DeviceStatusStore → List Call → DeviceStatusStore
unfolding call
calls s [] = s
calls s (c ∷ cs) = calls (call s c) cs

-- The reason under which a call is logged, if it is.
abbrev pub reason : Call → Option LogReason
reason (status_code c) = some status_code_change
reason (state d now) = some state_change
reason (sync_status c now) = some sync_status_change
reason (missed count now) = if count == 0 then none else some missed_cycle
reason (min_cycle value now) = none
reason (max_cycle value now) = none
reason (temperature value now) = some temperature_change
reason (receive_metrics min_ns max_ns average_ns now) = none
reason (send_metrics min_ns max_ns average_ns now) = none
reason beat = some heartbeat
