-- ===== src/StateMachine/Transitions.antt =====
-- Which requests the state machine accepts, and what they do.
use tsn_fieldbus.Base.{◌≡◌, ◌⊎◌, inl, inr, refl, ok, err, arith}
use tsn_fieldbus.Proto.{
  DeviceState, init, discovery_sync, pre_op, safe_op, op, error, shutdown, err_state_conflict,
}
use tsn_fieldbus.StateMachine.{DeviceStateManager, set_target_state}

-- The edges of the state diagram, the self loops and the way into `error` included.
pub data Edge : DeviceState → DeviceState → Type 0 where
  startup : Edge init discovery_sync
  discovered : Edge discovery_sync pre_op
  configured : Edge pre_op safe_op
  reconfigure : Edge safe_op pre_op
  full_operation : Edge safe_op op
  stop_safe : Edge safe_op shutdown
  downgrade : Edge op safe_op
  stop : Edge op shutdown
  restart : Edge error init
  stay : {s : DeviceState} → Edge s s
  fail : {s : DeviceState} → Edge s error

ruleset edges = (
  startup, discovered, configured, reconfigure, full_operation, stop_safe, downgrade, stop, restart,
  stay, fail,
)

Edge-accepts :
    {s t : DeviceState}
    → Edge s t
    → set_target_state (record { state = s }) t ≡ (record { state = t }, ok tt)
unfolding set_target_state
Edge-accepts startup = refl
Edge-accepts discovered = refl
Edge-accepts configured = refl
Edge-accepts reconfigure = refl
Edge-accepts full_operation = refl
Edge-accepts stop_safe = refl
Edge-accepts downgrade = refl
Edge-accepts stop = refl
Edge-accepts restart = refl
Edge-accepts (stay {s = s}) = ground arith
Edge-accepts (fail {s = s}) = ground arith

-- A request along an edge of the diagram moves the device to the requested state.
pub set_target_state_accepts :
    (m : DeviceStateManager) (t : DeviceState)
    → Edge m.state t
    → set_target_state m t ≡ (record m { state = t }, ok tt)
set_target_state_accepts m t e = Edge-accepts e

-- Every request follows an edge or is refused.
classify :
    (s t : DeviceState)
    → Edge s t
      ⊎ (set_target_state (record { state = s }) t ≡ (record { state = s }, err err_state_conflict))
unfolding set_target_state
classify init discovery_sync = inl startup
classify discovery_sync pre_op = inl discovered
classify pre_op safe_op = inl configured
classify safe_op pre_op = inl reconfigure
classify safe_op op = inl full_operation
classify safe_op shutdown = inl stop_safe
classify op safe_op = inl downgrade
classify op shutdown = inl stop
classify error init = inl restart
classify init init = inl stay
classify discovery_sync discovery_sync = inl stay
classify pre_op pre_op = inl stay
classify safe_op safe_op = inl stay
classify op op = inl stay
classify error error = inl stay
classify shutdown shutdown = inl stay
classify init error = inl fail
classify discovery_sync error = inl fail
classify pre_op error = inl fail
classify safe_op error = inl fail
classify op error = inl fail
classify shutdown error = inl fail
classify _ _ = inr refl

-- Any other request is refused with a state conflict, and the state stays.
pub set_target_state_refuses :
    (m : DeviceStateManager) (t : DeviceState)
    → ¬ Edge m.state t
    → set_target_state m t ≡ (m, err err_state_conflict)
set_target_state_refuses m t h = elim (classify m.state t) [
  | inl e ↦ absurd (h e)
  | inr refused ↦ refused
]

-- The two outcomes of a request.
pub set_target_state_cases :
    (m : DeviceStateManager) (t : DeviceState)
    → (set_target_state m t ≡ (record m { state = t }, ok tt))
      ⊎ (set_target_state m t ≡ (m, err err_state_conflict))
set_target_state_cases m t = elim (classify m.state t) [
  | inl e ↦ inl (set_target_state_accepts m t e)
  | inr refused ↦ inr refused
]

-- After an error and a restart request the device is back in `init`, from every state: none is
-- terminal.
pub restart-init :
    (m : DeviceStateManager)
    → (set_target_state m error ≡ (record m { state = error }, ok tt))
      × (set_target_state (record m { state = error }) init ≡ (record m { state = init }, ok tt))
restart-init m = (set_target_state_accepts m error fail, set_target_state_accepts _ init restart)
