-- ===== src/StateMachine/Runs.antt =====
-- What holds of the device after any sequence of requests.
use tsn_fieldbus.Base.{◌≡◌, refl, List, [], ◌∷◌}
use tsn_fieldbus.Proto.{DeviceState, init, discovery_sync, pre_op, safe_op, op, error, shutdown}
use tsn_fieldbus.StateMachine.{new, set_target_state, run}
use mathlib.Core.List.{Sublistᴰ}

-- The requests that a device still needs, in this order, before it is in `op`.
abbrev remaining : DeviceState → List DeviceState
remaining init = discovery_sync ∷ pre_op ∷ safe_op ∷ op ∷ []
remaining discovery_sync = pre_op ∷ safe_op ∷ op ∷ []
remaining pre_op = safe_op ∷ op ∷ []
remaining safe_op = op ∷ []
remaining op = []
remaining error = discovery_sync ∷ pre_op ∷ safe_op ∷ op ∷ []
remaining shutdown = discovery_sync ∷ pre_op ∷ safe_op ∷ op ∷ []

-- Drops the first element.
drop_first : {a : DeviceState} {l ts : List DeviceState} → Sublistᴰ (a ∷ l) ts → Sublistᴰ l ts
drop_first (Sublistᴰ.cons h) = Sublistᴰ.cons (drop_first h)
drop_first (Sublistᴰ.cons-cons e h) = Sublistᴰ.cons h

nil_within : (ts : List DeviceState) → Sublistᴰ [] ts
nil_within [] = Sublistᴰ.slnil
nil_within (t ∷ ts) = Sublistᴰ.cons (nil_within ts)

-- One request makes the way to `op` shorter by itself at most.
remaining-step :
    (s t : DeviceState) (ts : List DeviceState)
    → Sublistᴰ (remaining (set_target_state (record { state = s }) t).0.state) ts
    → Sublistᴰ (remaining s) (t ∷ ts)
unfolding set_target_state
remaining-step init discovery_sync ts h = Sublistᴰ.cons-cons refl h
remaining-step discovery_sync pre_op ts h = Sublistᴰ.cons-cons refl h
remaining-step pre_op safe_op ts h = Sublistᴰ.cons-cons refl h
remaining-step safe_op op ts h = Sublistᴰ.cons-cons refl h
remaining-step safe_op pre_op ts h = Sublistᴰ.cons (drop_first h)
remaining-step safe_op shutdown ts h = Sublistᴰ.cons (drop_first (drop_first (drop_first h)))
remaining-step safe_op error ts h = Sublistᴰ.cons (drop_first (drop_first (drop_first h)))
remaining-step pre_op error ts h = Sublistᴰ.cons (drop_first (drop_first h))
remaining-step discovery_sync error ts h = Sublistᴰ.cons (drop_first h)
remaining-step op t ts h = Sublistᴰ.cons (nil_within ts)
remaining-step error init ts h = Sublistᴰ.cons h
remaining-step shutdown init ts h = Sublistᴰ.cons h
remaining-step _ _ ts h = Sublistᴰ.cons h

run_remaining :
    (s : DeviceState) (ts : List DeviceState)
    → (run (record { state = s }) ts).state ≡ op
    → Sublistᴰ (remaining s) ts
unfolding run
run_remaining op [] h = Sublistᴰ.slnil
run_remaining _ [] h = cc
run_remaining s (t ∷ ts) h =
    remaining-step s t ts (run_remaining (set_target_state (record { state = s }) t).0.state ts h)

-- A new device is in `op` only after it was asked for `discovery_sync`, `pre_op`, `safe_op` and `op`,
-- in this order.
pub run-op :
    (ts : List DeviceState)
    → (run new ts).state ≡ op
    → Sublistᴰ (discovery_sync ∷ pre_op ∷ safe_op ∷ op ∷ []) ts
unfolding new
run-op ts h = run_remaining init ts h
