-- ===== src/L2Handler/Slave/Device.antt =====
-- What the threads of the slave share: the store of the streams, the status and the process image. A
-- call of one of them is atomic, and a thread reaches them in the order of its code.
use tsn_fieldbus.Proto.{StatusCode, DeviceState}
use tsn_fieldbus.StreamStore.{StreamStore}
use tsn_fieldbus.DeviceStatus.{DeviceStatusStore, get_status, update_status_code}
use tsn_fieldbus.L2Handler.Timing.{state_of}

pub record Device (S : Type 0) : Type 0 where
  pub stream_store : StreamStore
  pub status_store : DeviceStatusStore
  pub process_image : S

module _ {S : Type 0} where
  unfoldable pub report : StatusCode → Device S → Device S
  unfolding update_status_code
  report code d = record d { status_store = update_status_code d.status_store code }

  unfoldable pub current_state : Device S → DeviceState
  unfolding get_status state_of
  current_state d = state_of (get_status d.status_store).state
