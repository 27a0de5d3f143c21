-- ===== src/DeviceStatus/Fields.antt =====
-- The counters of the status after a run of calls.
use tsn_fieldbus.Base.{
  ap, ◌∙◌, ℕ, ◌+◌, ◌≤◌, ◌≡◌, refl, arith, min, max, List, [], ◌∷◌, u32_max, saturating_add,
}
use tsn_fieldbus.Proto.{DeviceState, init, device_state_number, StatusCode, status_code_number}
use tsn_fieldbus.DeviceStatus.{
  DeviceStatusStore, append_log, update_state, new, update_status_code, increment_missed_cycles_by,
}
use tsn_fieldbus.DeviceStatus.Runs.{Call, call, calls}

-- The cycles that a call reports as missed.
abbrev missed_by : Call → ℕ
missed_by (Call.missed count now) = count
missed_by _ = 0

-- The cycle time that a call reports as the longest.
abbrev longest_by : Call → ℕ
longest_by (Call.max_cycle value now) = value
longest_by _ = 0

-- The state after a call, by the state before it.
abbrev state_by : ℕ → Call → ℕ
state_by d (Call.state d' now) = device_state_number d'
state_by d _ = d

pub missed_in : List Call → ℕ
missed_in [] = 0
missed_in (c ∷ cs) = missed_by c + missed_in cs

pub longest_in : List Call → ℕ
longest_in [] = 0
longest_in (c ∷ cs) = max (longest_by c) (longest_in cs)

pub state_in : ℕ → List Call → ℕ
state_in d [] = d
state_in d (c ∷ cs) = state_in (state_by d c) cs

-- One call's effect on the counters.
call-counters :
    (s : DeviceStatusStore) (c : Call)
    → (s.current.missed_cycles ≤ u32_max
        → (call s c).current.missed_cycles
          ≡ saturating_add u32_max s.current.missed_cycles (missed_by c))
      × ((call s c).current.max_cycle_time ≡ max s.current.max_cycle_time (longest_by c))
      × ((call s c).current.min_cycle_time ≤ s.current.min_cycle_time)
      × ((call s c).current.state ≡ state_by s.current.state c)
unfolding call
call-counters s (Call.status_code c) = (λ h. ground arith, ground arith, ground arith, ground arith)
call-counters s (Call.state d now) = (λ h. ground arith, ground arith, ground arith, ground arith)
call-counters s (Call.sync_status c now) =
    (λ h. ground arith, ground arith, ground arith, ground arith)
call-counters s (Call.missed count now) =
    (λ h. ground arith, ground arith, ground arith, ground arith)
call-counters s (Call.min_cycle value now) =
    (λ h. ground arith, ground arith, ground arith, ground arith)
call-counters s (Call.max_cycle value now) =
    (λ h. ground arith, ground arith, ground arith, ground arith)
call-counters s (Call.temperature value now) =
    (λ h. ground arith, ground arith, ground arith, ground arith)
call-counters s (Call.receive_metrics a b c now) =
    (λ h. ground arith, ground arith, ground arith, ground arith)
call-counters s (Call.send_metrics a b c now) =
    (λ h. ground arith, ground arith, ground arith, ground arith)
call-counters s Call.beat = (λ h. ground arith, ground arith, ground arith, ground arith)

-- The status has the state that was set last.
pub state-update_state :
    (s : DeviceStatusStore) (d : DeviceState) (now : ℕ)
    → (update_state s d now).current.state ≡ device_state_number d
unfolding call
state-update_state s d now = (call-counters s (Call.state d now)).3

calls-counters :
    (s : DeviceStatusStore) (cs : List Call)
    → s.current.missed_cycles ≤ u32_max
    → ((calls s cs).current.missed_cycles
        ≡ saturating_add u32_max s.current.missed_cycles (missed_in cs))
      × ((calls s cs).current.max_cycle_time ≡ max s.current.max_cycle_time (longest_in cs))
      × ((calls s cs).current.min_cycle_time ≤ s.current.min_cycle_time)
      × ((calls s cs).current.state ≡ state_in s.current.state cs)
unfolding calls missed_in longest_in state_in
calls-counters s [] h = (omega arith, omega arith, omega arith, refl)
calls-counters s (c ∷ cs) h =
    let (missed, longest, shortest, state) = call-counters s c in
    let missed' = missed h in
    let (missed_all, longest_all, shortest_all, state_all) =
      calls-counters (call s c) cs (omega (arith, missed')) in
    (
      omega (arith, missed_all, missed'),
      omega (arith, longest_all, longest),
      omega (arith, shortest_all, shortest),
      state_all ∙ ap (λ d. state_in d cs) state,
    )

-- After any calls on a new store: the missed cycles are the sum of those reported, up to the largest
-- `u32`; the longest cycle time is the largest one reported; the state is the last one set, and
-- `Init` before; and the shortest cycle time is 0, whatever values were reported.
pub calls-new :
    (now : ℕ) (cs : List Call)
    → let status = (calls (new now) cs).current in
      (status.missed_cycles ≡ min (missed_in cs) u32_max)
      × (status.max_cycle_time ≡ longest_in cs)
      × (status.state ≡ state_in (device_state_number init) cs)
      × (status.min_cycle_time ≡ 0)
unfolding new
calls-new now cs =
    let (missed, longest, shortest, state) = calls-counters (new now) cs (omega arith) in
    (omega (arith, missed), omega (arith, longest), state, omega (arith, shortest))

-- Setting the status code sets it, and no counter.
pub update_status_code-fields :
    (s : DeviceStatusStore) (c : StatusCode)
    → ((update_status_code s c).current.status_code ≡ status_code_number c)
      × ((update_status_code s c).current.missed_cycles ≡ s.current.missed_cycles)
unfolding update_status_code append_log
update_status_code-fields s c = (ground arith, ground arith)

-- Counting missed cycles adds them up to the largest `u32`, and keeps the code.
pub increment_missed_cycles_by-fields :
    (s : DeviceStatusStore) (count now : ℕ)
    → s.current.missed_cycles ≤ u32_max
    → ((increment_missed_cycles_by s count now).current.missed_cycles
        ≡ saturating_add u32_max s.current.missed_cycles count)
      × ((increment_missed_cycles_by s count now).current.status_code ≡ s.current.status_code)
unfolding increment_missed_cycles_by append_log
increment_missed_cycles_by-fields s count now h = (ground arith, ground arith)
