-- ===== src/Examples/Streams.antt =====
-- Examples on streams and their tags.
use tsn_fieldbus.Base.{
  nat_eq, ℕ, ◌≡◌, ◌↔◌, refl, arith, List, [], ◌∷◌, All, Bool, true, false, ok, err,
}
use tsn_fieldbus.Base.Order.{Increasing}
use tsn_fieldbus.Base.Table.{get}
use tsn_fieldbus.Proto.{StatusCode, StreamConfig, direction_try_from-number, input, output}
use tsn_fieldbus.Security.Crypto.{calculate_hmac}
use tsn_fieldbus.Security.Crypto
use tsn_fieldbus.Security.Crypto.Compare.{calculate_hmac-IsBytes, verify_hmac_iff}
use tsn_fieldbus.StreamStore.{
  StreamEntry, StreamStore, tag_parts, reset, add_stream_configs, validate_stream_tag,
  serialize_l2_header,
}
use tsn_fieldbus.StreamStore
use tsn_fieldbus.StreamStore.Replay.{Message, accepted, accepted-Increasing}
use tsn_fieldbus.StreamStore.Session.{Frame, answers, answers-accepted}
use tsn_fieldbus.StreamStore.Configs.{
  AreNew, IsStored, add_stream_configs_stores, add_stream_configs_refuses,
}
use tsn_fieldbus.Examples.{toy, secret, stream, l2_header}

abbrev store_at : ℕ → StreamStore
store_at n = record {
  shared_secret = secret;
  streams = (5, record { stream_config = stream; sequence_number = n }) ∷ [];
}

abbrev payload : List ℕ
payload = 0x12 ∷ 0x34 ∷ []

abbrev tag : ℕ → List ℕ
tag n = calculate_hmac toy secret (tag_parts l2_header payload n)

abbrev message : ℕ → Message
message n = record { header = l2_header; payload = payload; received = n; tag = tag n }

abbrev frame : Bool → Frame
frame arrives = record { header = l2_header; payload = payload; arrives = arrives }

accepted-Increasing_example :
    Increasing 0 (accepted toy 5 (store_at 0) (message 1 ∷ message 1 ∷ message 3 ∷ message 2 ∷ []))
unfolding get
accepted-Increasing_example =
    accepted-Increasing toy 5 (store_at 0) (message 1 ∷ message 1 ∷ message 3 ∷ message 2 ∷ [])
      (record { stream_config = stream; sequence_number = 0 }) refl

answers-accepted_example :
    All
      (λ r. r ≡ ok true)
      (answers toy (store_at 1) (store_at 0) (frame true ∷ frame false ∷ frame true ∷ []))
unfolding get
answers-accepted_example =
    answers-accepted toy 5 (store_at 1) (store_at 0)
      (record { stream_config = stream; sequence_number = 1 })
      (record { stream_config = stream; sequence_number = 0 })
      (frame true ∷ frame false ∷ frame true ∷ []) refl refl refl (omega arith)
      (refl, (refl, (refl, tt))) (omega arith)

abbrev other_stream : StreamConfig
other_stream = record stream { stream_id = 6; direction = 0 }

are_new : AreNew [] (stream ∷ other_stream ∷ [])
unfolding StreamStore.elem
are_new = (
  omega arith,
  refl,
  (λ h. ground (arith, direction_try_from-number output)),
  (omega arith, refl, (λ h. ground (arith, direction_try_from-number input)), tt),
)

add_stream_configs_stores_example :
    let r = add_stream_configs (reset (store_at 9)) (stream ∷ other_stream ∷ []) in
    (r.1 ≡ ok tt) × All (IsStored r.0.streams) (stream ∷ other_stream ∷ [])
add_stream_configs_stores_example =
    add_stream_configs_stores (store_at 9) (stream ∷ other_stream ∷ []) are_new

clash : ¬ AreNew [] (stream ∷ stream ∷ [])
unfolding StreamStore.elem
clash (fits, fresh, known, again) = ground arith

add_stream_configs_refuses_example :
    (e : StatusCode) × (add_stream_configs (store_at 9) (stream ∷ stream ∷ [])
      ≡ (store_at 9, err e))
add_stream_configs_refuses_example =
    add_stream_configs_refuses (store_at 9) (stream ∷ stream ∷ []) clash

verify_hmac_iff_example :
    (Crypto.verify_hmac toy secret (tag_parts l2_header payload 2) (tag 3) ≡ true)
    ↔ (calculate_hmac toy secret (tag_parts l2_header payload 2) ≡ tag 3)
verify_hmac_iff_example =
    verify_hmac_iff toy secret (tag_parts l2_header payload 2) (tag 3)
      (calculate_hmac-IsBytes toy secret (tag_parts l2_header payload 3)).0
