-- ===== src/Examples/Service.antt =====
-- Examples on the service.
use tsn_fieldbus.Base.{ℕ, ◌≡◌, refl, arith, List, [], ◌∷◌, All, some, true, false, ok, err}
use tsn_fieldbus.Base.Keys.{bytes_eq}
use tsn_fieldbus.Base.Table.{get, retain}
use tsn_fieldbus.Proto.{
  status_code_number, no_error, init, pre_op, safe_op, direction_try_from-number, output,
  ProcessVariable,
}
use tsn_fieldbus.TokenStore.{Crates, validate_token}
use tsn_fieldbus.StreamStore.{elem}
use tsn_fieldbus.StreamStore
use tsn_fieldbus.StreamStore.Configs.{IsStored}
use tsn_fieldbus.DeviceStatus
use tsn_fieldbus.DeviceStatus.Fields.{state-update_state}
use tsn_fieldbus.SlaveApi.{
  SlaveApiService, unauthenticated, status_response, set_target_state_request,
  configure_streams_request, validate_streams, any_places, serve,
}
use tsn_fieldbus.SlaveApi.Access.{IsShown, serve_refuses, serve-IsShown, serve-streams}
use tsn_fieldbus.SlaveApi.Streams.{configure_streams_stores}
use tsn_fieldbus.Examples.{secret, stream}

abbrev plain : Crates
plain = record { sha256 = λ bytes. bytes; encode_url_safe = λ bytes. bytes }

abbrev token : List ℕ
token = 1 ∷ 2 ∷ []

abbrev service : SlaveApiService
unfolding DeviceStatus.new DeviceStatus.update_state StreamStore.new
service = record {
  state_manager = record { state = pre_op };
  status_store = DeviceStatus.update_state (DeviceStatus.new 1) pre_op 2;
  token_store = record {
    expected_shared_key = record { bytes = secret };
    tokens = (token, 1000) ∷ [];
  };
  stream_store = StreamStore.new secret;
}

abbrev variable : ProcessVariable
variable = record {
  name = [];
  data_type = 0;
  direction = 1;
  byte_offset = 0;
  bit_offset = 0;
  bit_len = 12;
}

accepted : (validate_token plain service.token_store token 500).1 ≡ true
unfolding validate_token get retain service
accepted = refl

expired : (validate_token plain service.token_store token 1000).1 ≡ false
unfolding validate_token get retain service
expired = refl

placed : validate_streams (stream ∷ []) (variable ∷ []) ≡ ok tt
unfolding validate_streams any_places elem
placed = ground (arith, direction_try_from-number output)

configure_streams_stores_example :
    let r =
      serve plain
        (some token)
        500
        (configure_streams_request (stream ∷ []) (ok (variable ∷ [])))
        service in
    (r.1 ≡ ok (status_response (status_code_number no_error)))
    × All (IsStored r.0.stream_store.streams) (stream ∷ [])
unfolding service
configure_streams_stores_example =
    configure_streams_stores plain service token 500 (stream ∷ []) (variable ∷ []) accepted refl
      placed

serve_refuses_example :
    serve plain (some token) 1000 (set_target_state_request safe_op 1001) service ≡ (
      record service { token_store = (validate_token plain service.token_store token 1000).0 },
      err unauthenticated,
    )
serve_refuses_example =
    serve_refuses plain service token 1000 (set_target_state_request safe_op 1001) expired

shown : IsShown plain service
unfolding service
shown = state-update_state (DeviceStatus.new 1) pre_op 2

serve-IsShown_example :
    IsShown plain (serve plain (some token) 500 (set_target_state_request safe_op 501) service).0
serve-IsShown_example =
    serve-IsShown plain service (some token) 500 (set_target_state_request safe_op 501) shown

abbrev starting : SlaveApiService
starting = record service { state_manager = record { state = init } }

serve-streams_example :
    (serve plain
      (some token)
      500
      (configure_streams_request (stream ∷ []) (ok (variable ∷ [])))
      starting).0.stream_store
    ≡ starting.stream_store
serve-streams_example =
    serve-streams plain starting (some token) 500
      (configure_streams_request (stream ∷ []) (ok (variable ∷ []))) (λ h. cc)
