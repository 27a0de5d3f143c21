-- ===== src/L2Handler/Master/Controller.antt =====
-- What the threads of the master share: the store of the streams, the state of the device and the
-- process image. A call of one of them is atomic.
use tsn_fieldbus.Proto.{DeviceState}
use tsn_fieldbus.StreamStore.{StreamStore}
use tsn_fieldbus.StateMachine.{DeviceStateManager, get_state}

pub record Controller (S : Type 0) : Type 0 where
  pub stream_store : StreamStore
  pub device_state_manager : DeviceStateManager
  pub process_image : S

unfoldable pub current_state : {S : Type 0} → Controller S → DeviceState
unfolding get_state
current_state c = get_state c.device_state_manager
