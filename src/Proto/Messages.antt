-- ===== src/Proto/Messages.antt =====
-- The messages of common/proto/slave-api.proto. `bytes` is a list of bytes, a `uint32` or `uint64` a
-- number, a `sint32` its bit pattern, an enumeration its number, a message field an `Option`.
use tsn_fieldbus.Base.{ℕ, Option, List}

pub record DeviceInfo : Type 0 where
  pub mac_address : List ℕ
  pub ip_address : List ℕ
  pub ip_source : ℕ
  pub netmask : List ℕ
  pub gateway : List ℕ
  pub vendor_id : ℕ
  pub device_id : ℕ
  pub serial_number : ℕ
  pub firmware_version : ℕ
  pub capabilities : ℕ

pub record DeviceStatus : Type 0 where
  pub status_code : ℕ
  pub state : ℕ
  pub sync_status : ℕ
  pub missed_cycles : ℕ
  pub min_cycle_time : ℕ
  pub max_cycle_time : ℕ
  pub temperature : ℕ
  pub timestamp : ℕ
  pub receive_cycle_min_ns : ℕ
  pub receive_cycle_max_ns : ℕ
  pub receive_cycle_avg_ns : ℕ
  pub send_cycle_min_ns : ℕ
  pub send_cycle_max_ns : ℕ
  pub send_cycle_avg_ns : ℕ

pub record LogEntryDeviceStatus : Type 0 where
  pub log_reason : ℕ
  pub device_status : Option DeviceStatus

pub record ProcessVariable : Type 0 where
  pub name : List ℕ
  pub data_type : ℕ
  pub direction : ℕ
  pub byte_offset : ℕ
  pub bit_offset : ℕ
  pub bit_len : ℕ

pub record Position : Type 0 where
  pub byte_offset : ℕ
  pub bit_offset : ℕ
  pub bit_len : ℕ

pub record StreamConfig : Type 0 where
  pub stream_id : ℕ
  pub destination_mac : List ℕ
  pub vlan_id_pcp : ℕ
  pub cycle_time_nano : ℕ
  pub direction : ℕ
  pub stream_content : Option Position
