-- ===== src/StateMachine.antt =====
-- common/src/state_machine.rs: the life cycle of a device. The mutex makes each call atomic, so threads
-- that share a manager are a sequence of calls.
pub mod Transitions
pub mod Runs
use tsn_fieldbus.Base.{ℕ, Result, ok, err, ◌==◌, if◌then◌else◌, List, [], ◌∷◌}
use tsn_fieldbus.Proto.{
  DeviceState, init, discovery_sync, pre_op, safe_op, op, error, shutdown, device_state_number,
  StatusCode, err_state_conflict,
}

pub record DeviceStateManager : Type 0 where
  pub state : DeviceState

unfoldable pub new : DeviceStateManager
new = record { state = init }

unfoldable pub get_state : DeviceStateManager → DeviceState
get_state m = m.state

abbrev Outcome : Type 0
Outcome = DeviceStateManager × Result StatusCode (Unit {0})

-- The last two arms of the `match`: any state may fail, and all else is refused.
fail_or_refuse : DeviceState → DeviceStateManager → Outcome
fail_or_refuse error m = (record m { state = error }, ok tt)
fail_or_refuse target m = (m, err err_state_conflict)

-- The arms of the `match` on the current and the target state, in their order.
transition : DeviceState → DeviceState → DeviceStateManager → Outcome
unfolding fail_or_refuse
transition init discovery_sync m = (record m { state = discovery_sync }, ok tt)
transition discovery_sync pre_op m = (record m { state = pre_op }, ok tt)
transition pre_op safe_op m = (record m { state = safe_op }, ok tt)
transition safe_op pre_op m = (record m { state = pre_op }, ok tt)
transition safe_op op m = (record m { state = op }, ok tt)
transition safe_op shutdown m = (record m { state = shutdown }, ok tt)
transition op safe_op m = (record m { state = safe_op }, ok tt)
transition op shutdown m = (record m { state = shutdown }, ok tt)
transition error init m = (record m { state = init }, ok tt)
transition current target m =
    if device_state_number current == device_state_number target
    then (m, ok tt)
    else fail_or_refuse target m

unfoldable pub set_target_state : DeviceStateManager → DeviceState → Outcome
unfolding transition
set_target_state m target = transition m.state target m

-- A sequence of requests, whatever their results.
unfoldable pub run : DeviceStateManager → List DeviceState → DeviceStateManager
run m [] = m
run m (t ∷ ts) = run (set_target_state m t).0 ts
