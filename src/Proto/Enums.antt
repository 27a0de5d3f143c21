-- ===== src/Proto/Enums.antt =====
-- The messages and enumerations of common/proto/slave-api.proto. An enumeration crosses the wire and
-- the API as its number: `..._number` is the cast `as i32` (or `as u8`), `..._try_from` the conversion
-- back, which fails on a number that the proto file does not list. An `i32` is its bit pattern.
use tsn_fieldbus.Base.{ℕ, ◌≡◌, refl, Option, none, some, List, [], ◌∷◌, arith, ◌==◌, if◌then◌else◌}

-- The first value of the list that has the number.
unfoldable pub find_number {ℓ} : {A : Type ℓ} → (A → ℕ) → ℕ → List A → Option A
find_number number n [] = none
find_number number n (c ∷ cs) = if number c == n then some c else find_number number n cs

pub find_number-eq-some {ℓ} :
    {A : Type ℓ} (number : A → ℕ) (n : ℕ) (cs : List A) (c : A)
    → find_number number n cs ≡ some c
    → number c ≡ n
unfolding find_number
find_number-eq-some number n [] c h = cc
find_number-eq-some number n (x ∷ cs) c h = ground (arith, find_number-eq-some number n cs c)

pub data DeviceState : Type 0 where
  init discovery_sync pre_op safe_op op error shutdown : DeviceState

abbrev pub device_state_number : DeviceState → ℕ
device_state_number init = 0
device_state_number discovery_sync = 1
device_state_number pre_op = 2
device_state_number safe_op = 3
device_state_number op = 4
device_state_number error = 5
device_state_number shutdown = 6

abbrev pub device_state_values : List DeviceState
device_state_values = init ∷ discovery_sync ∷ pre_op ∷ safe_op ∷ op ∷ error ∷ shutdown ∷ []

unfoldable pub device_state_try_from : ℕ → Option DeviceState
unfolding find_number
device_state_try_from n = find_number device_state_number n device_state_values

pub device_state_try_from-number :
    (c : DeviceState) → device_state_try_from (device_state_number c) ≡ some c
unfolding device_state_try_from
device_state_try_from-number init = refl
device_state_try_from-number discovery_sync = refl
device_state_try_from-number pre_op = refl
device_state_try_from-number safe_op = refl
device_state_try_from-number op = refl
device_state_try_from-number error = refl
device_state_try_from-number shutdown = refl

pub device_state_try_from-eq-some :
    (n : ℕ) (c : DeviceState) → device_state_try_from n ≡ some c → device_state_number c ≡ n
unfolding device_state_try_from
device_state_try_from-eq-some n c h =
    find_number-eq-some device_state_number n device_state_values c h

pub data Direction : Type 0 where
  input output : Direction

abbrev pub direction_number : Direction → ℕ
direction_number input = 0
direction_number output = 1

abbrev pub direction_values : List Direction
direction_values = input ∷ output ∷ []

unfoldable pub direction_try_from : ℕ → Option Direction
unfolding find_number
direction_try_from n = find_number direction_number n direction_values

pub direction_try_from-number : (c : Direction) → direction_try_from (direction_number c) ≡ some c
unfolding direction_try_from
direction_try_from-number input = refl
direction_try_from-number output = refl

pub direction_try_from-eq-some :
    (n : ℕ) (c : Direction) → direction_try_from n ≡ some c → direction_number c ≡ n
unfolding direction_try_from
direction_try_from-eq-some n c h = find_number-eq-some direction_number n direction_values c h

pub data IpSource : Type 0 where
  unspecified sdcp dhcp manuell : IpSource

abbrev pub ip_source_number : IpSource → ℕ
ip_source_number unspecified = 0
ip_source_number sdcp = 1
ip_source_number dhcp = 2
ip_source_number manuell = 3

abbrev pub ip_source_values : List IpSource
ip_source_values = unspecified ∷ sdcp ∷ dhcp ∷ manuell ∷ []

unfoldable pub ip_source_try_from : ℕ → Option IpSource
unfolding find_number
ip_source_try_from n = find_number ip_source_number n ip_source_values

pub ip_source_try_from-number : (c : IpSource) → ip_source_try_from (ip_source_number c) ≡ some c
unfolding ip_source_try_from
ip_source_try_from-number unspecified = refl
ip_source_try_from-number sdcp = refl
ip_source_try_from-number dhcp = refl
ip_source_try_from-number manuell = refl

pub ip_source_try_from-eq-some :
    (n : ℕ) (c : IpSource) → ip_source_try_from n ≡ some c → ip_source_number c ≡ n
unfolding ip_source_try_from
ip_source_try_from-eq-some n c h = find_number-eq-some ip_source_number n ip_source_values c h

pub data SyncStatus : Type 0 where
  synced syncing sync_lost : SyncStatus

abbrev pub sync_status_number : SyncStatus → ℕ
sync_status_number synced = 0
sync_status_number syncing = 1
sync_status_number sync_lost = 2

abbrev pub sync_status_values : List SyncStatus
sync_status_values = synced ∷ syncing ∷ sync_lost ∷ []

unfoldable pub sync_status_try_from : ℕ → Option SyncStatus
unfolding find_number
sync_status_try_from n = find_number sync_status_number n sync_status_values

pub sync_status_try_from-number :
    (c : SyncStatus) → sync_status_try_from (sync_status_number c) ≡ some c
unfolding sync_status_try_from
sync_status_try_from-number synced = refl
sync_status_try_from-number syncing = refl
sync_status_try_from-number sync_lost = refl

pub sync_status_try_from-eq-some :
    (n : ℕ) (c : SyncStatus) → sync_status_try_from n ≡ some c → sync_status_number c ≡ n
unfolding sync_status_try_from
sync_status_try_from-eq-some n c h = find_number-eq-some sync_status_number n sync_status_values c h

pub data LogReason : Type 0 where
  heartbeat state_change status_code_change sync_status_change missed_cycle temperature_change :
      LogReason

abbrev pub log_reason_number : LogReason → ℕ
log_reason_number heartbeat = 0
log_reason_number state_change = 1
log_reason_number status_code_change = 2
log_reason_number sync_status_change = 3
log_reason_number missed_cycle = 4
log_reason_number temperature_change = 5

abbrev pub log_reason_values : List LogReason
log_reason_values =
    heartbeat ∷ state_change ∷ status_code_change ∷ sync_status_change ∷ missed_cycle
    ∷ temperature_change ∷ []

unfoldable pub log_reason_try_from : ℕ → Option LogReason
unfolding find_number
log_reason_try_from n = find_number log_reason_number n log_reason_values

pub log_reason_try_from-number :
    (c : LogReason) → log_reason_try_from (log_reason_number c) ≡ some c
unfolding log_reason_try_from
log_reason_try_from-number heartbeat = refl
log_reason_try_from-number state_change = refl
log_reason_try_from-number status_code_change = refl
log_reason_try_from-number sync_status_change = refl
log_reason_try_from-number missed_cycle = refl
log_reason_try_from-number temperature_change = refl

pub log_reason_try_from-eq-some :
    (n : ℕ) (c : LogReason) → log_reason_try_from n ≡ some c → log_reason_number c ≡ n
unfolding log_reason_try_from
log_reason_try_from-eq-some n c h = find_number-eq-some log_reason_number n log_reason_values c h
