-- ===== src/Proto/Status.antt =====
-- The status codes of common/proto/slave-api.proto. An enumeration crosses the wire and
use tsn_fieldbus.Base.{ℕ, ◌≡◌, refl, Option, some, List, [], ◌∷◌, arith, ◌<◌}
use tsn_fieldbus.Proto.Enums.{find_number, find_number-eq-some}

pub data StatusCode : Type 0 where
  no_error err_ptp_sync_lost err_cycle_counter err_deadline_missed err_stream_id_unknown :
      StatusCode
  err_invalid_len err_app_not_responding err_peripheral_fault err_not_ready err_access_denied :
      StatusCode
  err_auth_failed err_state_conflict err_param_invalid err_no_memory err_version_mismatch :
      StatusCode
  err_not_supported err_already_running err_os_failure err_ip_conflict err_frame_parsing :
      StatusCode
  err_frame_with_error_status err_socket_channel err_hardware_access err_timeout : StatusCode
  err_invalid_response err_invalid_ethertype : StatusCode

abbrev pub status_code_number : StatusCode → ℕ
status_code_number no_error = 0
status_code_number err_ptp_sync_lost = 1
status_code_number err_cycle_counter = 2
status_code_number err_deadline_missed = 3
status_code_number err_stream_id_unknown = 4
status_code_number err_invalid_len = 5
status_code_number err_app_not_responding = 6
status_code_number err_peripheral_fault = 7
status_code_number err_not_ready = 8
status_code_number err_access_denied = 9
status_code_number err_auth_failed = 10
status_code_number err_state_conflict = 11
status_code_number err_param_invalid = 12
status_code_number err_no_memory = 13
status_code_number err_version_mismatch = 14
status_code_number err_not_supported = 16
status_code_number err_already_running = 17
status_code_number err_os_failure = 18
status_code_number err_ip_conflict = 19
status_code_number err_frame_parsing = 20
status_code_number err_frame_with_error_status = 21
status_code_number err_socket_channel = 22
status_code_number err_hardware_access = 23
status_code_number err_timeout = 24
status_code_number err_invalid_response = 25
status_code_number err_invalid_ethertype = 26

abbrev pub status_code_values : List StatusCode
status_code_values =
    no_error ∷ err_ptp_sync_lost ∷ err_cycle_counter ∷ err_deadline_missed ∷ err_stream_id_unknown
    ∷ err_invalid_len ∷ err_app_not_responding ∷ err_peripheral_fault ∷ err_not_ready
    ∷ err_access_denied ∷ err_auth_failed ∷ err_state_conflict ∷ err_param_invalid ∷ err_no_memory
    ∷ err_version_mismatch ∷ err_not_supported ∷ err_already_running ∷ err_os_failure
    ∷ err_ip_conflict ∷ err_frame_parsing ∷ err_frame_with_error_status ∷ err_socket_channel
    ∷ err_hardware_access ∷ err_timeout ∷ err_invalid_response ∷ err_invalid_ethertype ∷ []

unfoldable pub status_code_try_from : ℕ → Option StatusCode
unfolding find_number
status_code_try_from n = find_number status_code_number n status_code_values

pub status_code_try_from-number :
    (c : StatusCode) → status_code_try_from (status_code_number c) ≡ some c
unfolding status_code_try_from
status_code_try_from-number no_error = refl
status_code_try_from-number err_ptp_sync_lost = refl
status_code_try_from-number err_cycle_counter = refl
status_code_try_from-number err_deadline_missed = refl
status_code_try_from-number err_stream_id_unknown = refl
status_code_try_from-number err_invalid_len = refl
status_code_try_from-number err_app_not_responding = refl
status_code_try_from-number err_peripheral_fault = refl
status_code_try_from-number err_not_ready = refl
status_code_try_from-number err_access_denied = refl
status_code_try_from-number err_auth_failed = refl
status_code_try_from-number err_state_conflict = refl
status_code_try_from-number err_param_invalid = refl
status_code_try_from-number err_no_memory = refl
status_code_try_from-number err_version_mismatch = refl
status_code_try_from-number err_not_supported = refl
status_code_try_from-number err_already_running = refl
status_code_try_from-number err_os_failure = refl
status_code_try_from-number err_ip_conflict = refl
status_code_try_from-number err_frame_parsing = refl
status_code_try_from-number err_frame_with_error_status = refl
status_code_try_from-number err_socket_channel = refl
status_code_try_from-number err_hardware_access = refl
status_code_try_from-number err_timeout = refl
status_code_try_from-number err_invalid_response = refl
status_code_try_from-number err_invalid_ethertype = refl

pub status_code_try_from-eq-some :
    (n : ℕ) (c : StatusCode) → status_code_try_from n ≡ some c → status_code_number c ≡ n
unfolding status_code_try_from
status_code_try_from-eq-some n c h = find_number-eq-some status_code_number n status_code_values c h

-- Every status code fits the `u8` that frames carry.
pub status_code_number-lt : (c : StatusCode) → status_code_number c < 256
status_code_number-lt no_error = omega arith
status_code_number-lt _ = omega arith
