-- ===== src/SlaveApi.antt =====
-- slave/src/slave_api.rs: the handlers of the gRPC service. tonic delivers the token of a request, or
-- none, and its message; an answer is a message or the status `unauthenticated`. What the hardware
-- reports and the clock are arguments. A request is served as one step: the source holds no lock over a
-- whole handler, so that handlers that run at once may also interleave between their calls.
pub mod Streams
pub mod Access
use tsn_fieldbus.Base.{
  ℕ, ◌*◌, ◌^◌, min, List, [], ◌∷◌, length, Option, none, some, Bool, true, false, ◌==◌, ◌&&◌, ◌||◌,
  not, ltb, if◌then◌else◌, Result, ok, err, ◌>>=◌, ◌>>◌, fail_if, ok_or, u16_max,
}
use tsn_fieldbus.Proto.{
  StatusCode, status_code_number, no_error, err_param_invalid, err_not_ready, DeviceState, pre_op,
  device_state_number, DeviceInfo, DeviceStatus, LogEntryDeviceStatus, ProcessVariable, Position,
  StreamConfig, Direction, direction_number, direction_try_from,
}
use tsn_fieldbus.StateMachine.{DeviceStateManager, get_state}
use tsn_fieldbus.StateMachine
use tsn_fieldbus.DeviceStatus.{DeviceStatusStore, get_status, get_log, update_state}
use tsn_fieldbus.TokenStore.{TokenStore, Crates, Readings, issue_token, validate_token}
use tsn_fieldbus.StreamStore.{StreamStore, reset, add_stream_configs, elem}

-- Nanoseconds, as every time here.
abbrev pub token_ttl : ℕ
token_ttl = 600 * 10 ^ 9

abbrev pub min_cycle_time_ns : ℕ
min_cycle_time_ns = 250_000

pub data Status : Type 0 where
  unauthenticated : Status

pub record SlaveApiService : Type 0 where
  pub state_manager : DeviceStateManager
  pub status_store : DeviceStatusStore
  pub token_store : TokenStore
  pub stream_store : StreamStore

-- `variable.direction == direction && ...`
abbrev pub places : Direction → Position → ProcessVariable → Bool
places direction content variable =
    variable.direction == direction_number direction
    && variable.byte_offset == content.byte_offset
    && variable.bit_offset == content.bit_offset
    && variable.bit_len == content.bit_len

-- `layout.iter().any(..)`
unfoldable pub any_places : Direction → Position → List ProcessVariable → Bool
any_places direction content [] = false
any_places direction content (variable ∷ variables) =
    places direction content variable || any_places direction content variables

-- The loop of `validate_streams` with the numbers seen so far.
unfoldable pub validate_streams_from :
    List ℕ → List StreamConfig → List ProcessVariable → Result StatusCode (Unit {0})
validate_streams_from seen [] layout = ok tt
validate_streams_from seen (stream ∷ streams) layout = do
  fail_if (ltb u16_max stream.stream_id) err_param_invalid
  fail_if (elem stream.stream_id seen) err_param_invalid
  fail_if (not (length stream.destination_mac == 6)) err_param_invalid
  fail_if (ltb stream.cycle_time_nano min_cycle_time_ns) err_param_invalid
  content ← ok_or stream.stream_content err_param_invalid
  fail_if (content.bit_len == 0) err_param_invalid
  direction ← ok_or (direction_try_from stream.direction) err_param_invalid
  fail_if (not (any_places direction content layout)) err_param_invalid
  validate_streams_from (stream.stream_id ∷ seen) streams layout

unfoldable pub validate_streams :
    List StreamConfig → List ProcessVariable → Result StatusCode (Unit {0})
unfolding validate_streams_from
validate_streams streams layout = validate_streams_from [] streams layout

-- The messages of the answers, by the fields that the handlers set.
pub data Response : Type 0 where
  status_response : ℕ → Response
  device_status : DeviceStatus → Response
  log_response : ℕ → List LogEntryDeviceStatus → Response
  device_info_response : ℕ → Option DeviceInfo → Response
  layout_response : ℕ → List ProcessVariable → Response
  token_response : List ℕ → ℕ → Response

module _ (x : Crates) where
  -- `self.validate_token(&request)?` in front of a handler.
  authenticated :
      SlaveApiService
      → Option (List ℕ)
      → ℕ
      → (SlaveApiService → SlaveApiService × Response)
      → SlaveApiService × Result Status Response
  authenticated s none now handler = (s, err unauthenticated)
  authenticated s (some token) now handler =
      let v = validate_token x s.token_store token now in
      let s' = record s { token_store = v.0 } in
      let r = handler s' in if v.1 then (r.0, ok r.1) else (s', err unauthenticated)

  -- The rest of each handler, once the token is accepted.
  set_target_state : DeviceState → ℕ → SlaveApiService → SlaveApiService × Response
  set_target_state target now s =
      let r = StateMachine.set_target_state s.state_manager target in
      elim r.1 [
        | ok _ ↦ (
          record s { state_manager = r.0; status_store = update_state s.status_store target now },
          status_response (status_code_number no_error),
        )
        | err code ↦ (record s { state_manager = r.0 }, status_response (status_code_number code))
      ]

  get_device_status_log : ℕ → ℕ → SlaveApiService → SlaveApiService × Response
  get_device_status_log offset limit s =
      let r = get_log s.status_store offset (min limit 30) in (s, log_response r.0 r.1)

  get_device_info : Result StatusCode DeviceInfo → SlaveApiService → SlaveApiService × Response
  get_device_info (ok info) s = (s, device_info_response (status_code_number no_error) (some info))
  get_device_info (err code) s = (s, device_info_response (status_code_number code) none)

  get_process_data_layout :
      Result StatusCode (List ProcessVariable) → SlaveApiService → SlaveApiService × Response
  get_process_data_layout (ok layout) s = (s, layout_response (status_code_number no_error) layout)
  get_process_data_layout (err code) s = (s, layout_response (status_code_number code) [])

  -- After the streams are validated: the store is reset and filled.
  store_streams :
      List StreamConfig
      → SlaveApiService
      → Result StatusCode (Unit {0})
      → SlaveApiService × Response
  store_streams streams s (err code) = (s, status_response (status_code_number code))
  store_streams streams s (ok done) =
      let r = add_stream_configs (reset s.stream_store) streams in
      (
        record s { stream_store = r.0 },
        status_response
            (elim r.1 [ ok _ ↦ status_code_number no_error | err code ↦ status_code_number code ]),
      )

  with_layout :
      List StreamConfig
      → SlaveApiService
      → Result StatusCode (List ProcessVariable)
      → SlaveApiService × Response
  unfolding store_streams
  with_layout streams s (err code) = (s, status_response (status_code_number code))
  with_layout streams s (ok layout) = store_streams streams s (validate_streams streams layout)

  configure_streams :
      List StreamConfig
      → Result StatusCode (List ProcessVariable)
      → SlaveApiService
      → SlaveApiService × Response
  unfolding with_layout
  configure_streams streams layout s =
      if not (device_state_number (get_state s.state_manager) == device_state_number pre_op)
      then (s, status_response (status_code_number err_not_ready))
      else with_layout streams s layout

  -- No token is asked for.
  unfoldable pub get_token :
      List ℕ → Readings x → SlaveApiService → SlaveApiService × Result Status Response
  get_token shared_key r s =
      let issued = issue_token x s.token_store shared_key token_ttl r in
      (
        record s { token_store = issued.0 },
        ok (elim issued.1 [
          | ok token ↦ token_response token (status_code_number no_error)
          | err code ↦ token_response [] (status_code_number code)
        ]),
      )

  -- The requests that need a token, with what the hardware reports to them.
  pub data Request : Type 0 where
    set_target_state_request : DeviceState → ℕ → Request
    get_status_request : Request
    get_log_request : ℕ → ℕ → Request
    get_device_info_request : Result StatusCode DeviceInfo → Request
    get_layout_request : Result StatusCode (List ProcessVariable) → Request
    configure_streams_request :
        List StreamConfig → Result StatusCode (List ProcessVariable) → Request

  pub handle : Request → SlaveApiService → SlaveApiService × Response
  unfolding set_target_state get_device_status_log get_device_info get_process_data_layout
      configure_streams
  handle (set_target_state_request target now) s = set_target_state target now s
  handle get_status_request s = (s, device_status (get_status s.status_store))
  handle (get_log_request offset limit) s = get_device_status_log offset limit s
  handle (get_device_info_request info) s = get_device_info info s
  handle (get_layout_request layout) s = get_process_data_layout layout s
  handle (configure_streams_request streams layout) s = configure_streams streams layout s

  unfoldable pub serve :
      Option (List ℕ) → ℕ → Request → SlaveApiService → SlaveApiService × Result Status Response
  unfolding authenticated handle
  serve token now request s = authenticated s token now (handle request)
