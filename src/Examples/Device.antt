-- ===== src/Examples/Device.antt =====
-- Examples on the state machine, the status store and the cycle arithmetic.
use tsn_fieldbus.Base.{
  ◌↔◌, ℕ, ◌/◌, ◌≤◌, ◌≡◌, refl, arith, min, List, [], ◌∷◌, All, some, ok, err, u32_max,
}
use tsn_fieldbus.Proto.{
  DeviceState, init, discovery_sync, pre_op, safe_op, op, error, device_state_number,
  err_state_conflict, Position,
}
use tsn_fieldbus.StateMachine.{DeviceStateManager, set_target_state, run}
use tsn_fieldbus.StateMachine
use tsn_fieldbus.StateMachine.Transitions.{Edge, set_target_state_refuses}
use tsn_fieldbus.StateMachine.Runs.{run-op}
use tsn_fieldbus.DeviceStatus.{new}
use tsn_fieldbus.DeviceStatus.Runs.{Call, calls}
use tsn_fieldbus.DeviceStatus.Fields.{missed_in, longest_in, state_in, calls-new}
use tsn_fieldbus.L2.Cycle.{ProcessImageAccess}
use tsn_fieldbus.L2.Gcd.{gcd_all}
use tsn_fieldbus.L2.Gcd.Divides.{Divides, gcd_all_iff}
use tsn_fieldbus.L2.Metrics.{default, values, record_all}
use tsn_fieldbus.L2.Metrics.Laws.{values-record_all}
use mathlib.Core.List.{Sublistᴰ}

abbrev requests : List DeviceState
requests = op ∷ discovery_sync ∷ pre_op ∷ error ∷ init ∷ discovery_sync ∷ pre_op ∷ safe_op ∷ op ∷ []

reaches_op : (run StateMachine.new requests).state ≡ op
unfolding run set_target_state StateMachine.new
reaches_op = refl

run-op_example : Sublistᴰ (discovery_sync ∷ pre_op ∷ safe_op ∷ op ∷ []) requests
run-op_example = run-op requests reaches_op

no-Edge : ¬ Edge init op
no-Edge e = elim e [ ]

set_target_state_refuses_example :
    set_target_state (record { state = init }) op
    ≡ (record { state = init }, err err_state_conflict)
set_target_state_refuses_example = set_target_state_refuses (record { state = init }) op no-Edge

abbrev status_calls : List Call
status_calls =
    Call.state pre_op 5
    ∷ Call.missed 3 6
    ∷ Call.min_cycle 900 7
    ∷ Call.max_cycle 1100 8
    ∷ Call.missed 4 9
    ∷ Call.beat
    ∷ []

calls-new_example :
    let status = (calls (new 1) status_calls).current in
    (status.missed_cycles ≡ min (missed_in status_calls) u32_max)
    × (status.max_cycle_time ≡ longest_in status_calls)
    × (status.state ≡ state_in (device_state_number init) status_calls)
    × (status.min_cycle_time ≡ 0)
calls-new_example = calls-new 1 status_calls

-- A process image that keeps what was written last.
abbrev last_write : ProcessImageAccess (List ℕ)
last_write = record { read_outputs = λ hw p. ok hw; write_inputs = λ hw bytes p. (bytes, ok tt) }

abbrev content : Position
content = record { byte_offset = 0; bit_offset = 0; bit_len = 12 }

gcd_all_iff_example :
    Divides 4 (gcd_all (12 ∷ 18 ∷ [])) ↔ (Divides 4 12 × (Divides 4 18 × Unit {0}))
gcd_all_iff_example = gcd_all_iff 4 (12 ∷ 18 ∷ [])

values-record_all_example :
    (lo : ℕ) × (hi : ℕ) × (values (record_all default (4 ∷ 10 ∷ 7 ∷ [])) ≡ some (lo, hi, 21 / 3))
    × All (λ y. lo ≤ y) (4 ∷ 10 ∷ 7 ∷ [])
    × All (λ y. y ≤ hi) (4 ∷ 10 ∷ 7 ∷ [])
    × (lo ≤ 21 / 3)
    × (21 / 3 ≤ hi)
values-record_all_example =
    values-record_all 4 (10 ∷ 7 ∷ []) (omega arith, (omega arith, (omega arith, tt))) (omega arith)
