-- ===== src/DeviceStatus.antt =====
-- slave/src/device_status.rs: the status snapshot, the broadcast channel and the bounded log. The
-- clock is an argument `now`; `published` lists what was sent to the broadcast channel, the newest
-- first. A method holds the write lock to its end, so each is one step.
pub mod Runs
pub mod Log
pub mod Fields
use tsn_fieldbus.Base.{
  ℕ, ◌-◌, List, [], ◌∷◌, length, take, drop, some, Bool, true, false, ◌==◌, ltb, not, if◌then◌else◌,
  saturating_add, u32_max,
}
use tsn_fieldbus.Proto.{
  StatusCode, status_code_number, no_error, DeviceState, init, device_state_number, SyncStatus,
  syncing, sync_status_number, LogReason, log_reason_number, status_code_change, state_change,
  sync_status_change, missed_cycle, temperature_change, heartbeat, DeviceStatus,
  LogEntryDeviceStatus,
}

abbrev pub log_interval_sec : ℕ
log_interval_sec = 60

-- `(60 / LOG_INTERVAL_SEC) * 60`
abbrev pub log_capacity : ℕ
log_capacity = 60

pub record DeviceStatusStore : Type 0 where
  pub current : DeviceStatus
  pub published : List DeviceStatus
  pub log_entries : List LogEntryDeviceStatus

unfoldable pub new : ℕ → DeviceStatusStore
new now = record {
  current = record {
    status_code = status_code_number no_error;
    state = device_state_number init;
    sync_status = sync_status_number syncing;
    missed_cycles = 0;
    min_cycle_time = 0;
    max_cycle_time = 0;
    temperature = 0;
    timestamp = now;
    receive_cycle_min_ns = 0;
    receive_cycle_max_ns = 0;
    receive_cycle_avg_ns = 0;
    send_cycle_min_ns = 0;
    send_cycle_max_ns = 0;
    send_cycle_avg_ns = 0;
  };
  published = [];
  log_entries = [];
}

-- `VecDeque::pop_back`
abbrev pub pop_back {ℓ} : {A : Type ℓ} → List A → List A
pop_back [] = []
pop_back (x ∷ []) = []
pop_back (x ∷ y ∷ ys) = x ∷ pop_back (y ∷ ys)

unfoldable pub append_log :
    List LogEntryDeviceStatus → LogReason → DeviceStatus → List LogEntryDeviceStatus
append_log log reason status =
    record { log_reason = log_reason_number reason; device_status = some status }
    ∷ (if length log == log_capacity then pop_back log else log)

-- The end that the methods share: store, log and broadcast the status.
abbrev pub publish : DeviceStatusStore → LogReason → DeviceStatus → DeviceStatusStore
unfolding append_log
publish s reason status = record {
  current = status;
  published = status ∷ s.published;
  log_entries = append_log s.log_entries reason status;
}

unfoldable pub get_status : DeviceStatusStore → DeviceStatus
get_status s = s.current

unfoldable pub update_status_code : DeviceStatusStore → StatusCode → DeviceStatusStore
update_status_code s status_code = publish s status_code_change (
    if not (s.current.status_code == status_code_number status_code)
    then record s.current { status_code = status_code_number status_code }
    else s.current)

unfoldable pub update_state : DeviceStatusStore → DeviceState → ℕ → DeviceStatusStore
update_state s state now = publish s state_change (
    if not (s.current.state == device_state_number state)
    then record s.current { state = device_state_number state; timestamp = now }
    else s.current)

unfoldable pub update_sync_status : DeviceStatusStore → SyncStatus → ℕ → DeviceStatusStore
update_sync_status s sync_status now = publish s sync_status_change (
    if not (s.current.sync_status == sync_status_number sync_status)
    then record s.current { sync_status = sync_status_number sync_status; timestamp = now }
    else s.current)

unfoldable pub increment_missed_cycles_by : DeviceStatusStore → ℕ → ℕ → DeviceStatusStore
increment_missed_cycles_by s count now =
    if count == 0
    then s
    else publish s missed_cycle (record s.current {
      missed_cycles = saturating_add u32_max s.current.missed_cycles count;
      timestamp = now;
    })

unfoldable pub update_min_cycle_time : DeviceStatusStore → ℕ → ℕ → DeviceStatusStore
update_min_cycle_time s new_value now =
    if ltb new_value s.current.min_cycle_time
    then record s { current = record s.current { min_cycle_time = new_value; timestamp = now } }
    else s

unfoldable pub update_max_cycle_time : DeviceStatusStore → ℕ → ℕ → DeviceStatusStore
update_max_cycle_time s new_value now =
    if ltb s.current.max_cycle_time new_value
    then record s { current = record s.current { max_cycle_time = new_value; timestamp = now } }
    else s

unfoldable pub update_receive_cycle_metrics : DeviceStatusStore → ℕ → ℕ → ℕ → ℕ → DeviceStatusStore
update_receive_cycle_metrics s min_ns max_ns average_ns now = record s {
  current = record s.current {
    receive_cycle_min_ns = min_ns;
    receive_cycle_max_ns = max_ns;
    receive_cycle_avg_ns = average_ns;
    timestamp = now;
  };
}

unfoldable pub update_send_cycle_metrics : DeviceStatusStore → ℕ → ℕ → ℕ → ℕ → DeviceStatusStore
update_send_cycle_metrics s min_ns max_ns average_ns now = record s {
  current = record s.current {
    send_cycle_min_ns = min_ns;
    send_cycle_max_ns = max_ns;
    send_cycle_avg_ns = average_ns;
    timestamp = now;
  };
}

unfoldable pub update_temperature : DeviceStatusStore → ℕ → ℕ → DeviceStatusStore
update_temperature s new_value now = publish s temperature_change (
    if not (s.current.temperature == new_value)
    then record s.current { temperature = new_value; timestamp = now }
    else s.current)

-- The total as the `u32` it is cast to: the log has at most `log_capacity` entries.
unfoldable pub get_log : DeviceStatusStore → ℕ → ℕ → ℕ × List LogEntryDeviceStatus
get_log s offset limit = (length s.log_entries, take limit (drop offset s.log_entries))
