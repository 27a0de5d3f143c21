-- ===== src/DeviceStatus/Log.antt =====
-- The log is the newest entries of all that were ever made.
use tsn_fieldbus.Base.{
  u32_max, saturating_add, ℕ, zero, suc, ◌≤◌, ◌≡◌, refl, ap, arith, List, [], ◌∷◌, length, take,
  drop, length-take, some, Bool, true, false, ◌==◌, ==_iff, Bool-cases, inl, inr, none,
  if◌then◌else◌,
}
use tsn_fieldbus.Proto.{
  LogReason, DeviceStatus, LogEntryDeviceStatus, log_reason_number, status_code_change,
  state_change, sync_status_change, missed_cycle, temperature_change, heartbeat,
}
use tsn_fieldbus.DeviceStatus.Runs.{Call, call, calls, reason}
use tsn_fieldbus.DeviceStatus.{
  publish, DeviceStatusStore, new, log_capacity, pop_back, append_log, get_log,
}

pop_back-take {ℓ} :
    {A : Type ℓ} (n : ℕ) (xs : List A)
    → length (take (suc n) xs) ≡ suc n
    → pop_back (take (suc n) xs) ≡ take n xs
pop_back-take zero [] h = refl
pop_back-take zero (x ∷ xs) h = refl
pop_back-take (suc n) [] h = refl
pop_back-take (suc n) (x ∷ []) h = absurd (omega arith)
pop_back-take (suc n) (x ∷ y ∷ ys) h = ap (λ r. x ∷ r) (pop_back-take n (y ∷ ys) (omega arith))

take-short {ℓ} :
    {A : Type ℓ} (n : ℕ) (xs : List A) → length (take (suc n) xs) ≤ n → take (suc n) xs ≡ take n xs
take-short zero [] h = refl
take-short zero (x ∷ xs) h = absurd (omega arith)
take-short (suc n) [] h = refl
take-short (suc n) (x ∷ xs) h = ap (λ r. x ∷ r) (take-short n xs (omega arith))

-- Dropping the oldest entry of a full log and adding one keeps the newest entries.
push-take {ℓ} :
    {A : Type ℓ} (n : ℕ) (xs : List A)
    → (if length (take (suc n) xs) == suc n then pop_back (take (suc n) xs) else take (suc n) xs)
      ≡ take n xs
push-take n xs = elim (Bool-cases (length (take (suc n) xs) == suc n)) [
  | inl full ↦ rw full (pop_back-take n xs ((==_iff (length (take (suc n) xs)) (suc n)).0 full))
  | inr free ↦ rw free (take-short n xs (ground (arith, length-take (suc n) xs)))
]

abbrev entry : LogReason → DeviceStatus → LogEntryDeviceStatus
entry reason status = record { log_reason = log_reason_number reason; device_status = some status }

append_log-take :
    (log all : List LogEntryDeviceStatus) (r : LogReason) (status : DeviceStatus)
    → log ≡ take log_capacity all
    → append_log log r status ≡ take log_capacity (entry r status ∷ all)
unfolding append_log
append_log-take log all r status h = rw h (ap (λ rest. entry r status ∷ rest) (push-take 59 all))

-- All entries that the calls make, the newest first, in front of those made before.
unfoldable pub history :
    List LogEntryDeviceStatus → DeviceStatusStore → List Call → List LogEntryDeviceStatus
unfolding call
history all s [] = all
history all s (c ∷ cs) =
    let s' = call s c in
    history (elim (reason c) [ none ↦ all | some r ↦ entry r s'.current ∷ all ]) s' cs

-- A call that does something on a test only.
log-if :
    (b : Bool) (s t : DeviceStatusStore) (all : List LogEntryDeviceStatus) (r : LogReason)
    → s.log_entries ≡ take log_capacity all
    → t.log_entries ≡ take log_capacity (entry r t.current ∷ all)
    → let u = if b then s else t in
      u.log_entries
      ≡ take log_capacity
          (elim (if b then none else some r) [ none ↦ all | some r' ↦ entry r' u.current ∷ all ])
log-if true s t all r h k = h
log-if false s t all r h k = k

call-log :
    (s : DeviceStatusStore) (c : Call) (all : List LogEntryDeviceStatus)
    → s.log_entries ≡ take log_capacity all
    → (call s c).log_entries
      ≡ take log_capacity
          (elim (reason c) [ none ↦ all | some r ↦ entry r (call s c).current ∷ all ])
unfolding call
call-log s (Call.status_code c) all h =
    append_log-take s.log_entries all status_code_change (call s (Call.status_code c)).current h
call-log s (Call.state d now) all h =
    append_log-take s.log_entries all state_change (call s (Call.state d now)).current h
call-log s (Call.sync_status c now) all h =
    append_log-take s.log_entries all sync_status_change (call s (Call.sync_status c now)).current h
call-log s (Call.missed count now) all h =
    let status : DeviceStatus = record s.current {
      missed_cycles = saturating_add u32_max s.current.missed_cycles count;
      timestamp = now;
    } in
    log-if (count == 0) s (publish s missed_cycle status) all missed_cycle h
      (append_log-take s.log_entries all missed_cycle status h)
call-log s (Call.min_cycle value now) all h = ground arith
call-log s (Call.max_cycle value now) all h = ground arith
call-log s (Call.temperature value now) all h =
    append_log-take s.log_entries all temperature_change
      (call s (Call.temperature value now)).current h
call-log s (Call.receive_metrics min_ns max_ns average_ns now) all h = h
call-log s (Call.send_metrics min_ns max_ns average_ns now) all h = h
call-log s Call.beat all h = append_log-take s.log_entries all heartbeat s.current h

calls-log :
    (s : DeviceStatusStore) (cs : List Call) (all : List LogEntryDeviceStatus)
    → s.log_entries ≡ take log_capacity all
    → (calls s cs).log_entries ≡ take log_capacity (history all s cs)
unfolding calls history
calls-log s [] all h = h
calls-log s (c ∷ cs) all h =
    calls-log (call s c) cs
      (elim (reason c) [ none ↦ all | some r ↦ entry r (call s c).current ∷ all ])
      (call-log s c all h)

pub get_log-history :
    (now : ℕ) (cs : List Call) (offset limit : ℕ)
    → let kept = take log_capacity (history [] (new now) cs) in
      get_log (calls (new now) cs) offset limit ≡ (length kept, take limit (drop offset kept))
unfolding get_log new
get_log-history now cs offset limit =
    ap (λ log. (length log, take limit (drop offset log))) (calls-log (new now) cs [] refl)

-- The `u32` that the total is cast to holds it.
pub get_log-fits :
    (now : ℕ) (cs : List Call) (offset limit : ℕ)
    → (get_log (calls (new now) cs) offset limit).0 ≤ log_capacity
get_log-fits now cs offset limit =
    let all : List LogEntryDeviceStatus = history [] (new now) cs in
    let same = ap (λ p. p.0) (get_log-history now cs offset limit) in
    omega (arith, same, length-take log_capacity all)
