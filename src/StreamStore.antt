-- ===== src/StreamStore.antt =====
-- common/src/stream_store.rs: the configured streams with the sequence number of each, which the
-- authentication of L2 frames uses. The lock makes each call atomic, so a store that threads share is a
-- sequence of calls.
pub mod Configs
pub mod Tags
pub mod Replay
pub mod Session
use tsn_fieldbus.Base.{
  nat_eq, ℕ, ◌+◌, ◌/◌, ◌%◌, ◌^◌, List, [], ◌∷◌, map, Option, none, some, Bool, true, false, ◌==◌,
  ◌||◌, ltb, leb, if◌then◌else◌, Result, ok, err, ◌>>=◌, ◌>>◌, fail_if, ok_or, saturating_add,
  u16_max, u64_max,
}
use tsn_fieldbus.Base.Bytes.{to_be}
use tsn_fieldbus.Base.Table.{Table, get, insert, contains_key, values}
use tsn_fieldbus.Proto.{
  StatusCode, err_param_invalid, err_stream_id_unknown, StreamConfig, Direction, input, output,
  direction_number, direction_try_from,
}
use tsn_fieldbus.Security.Crypto.{Blake3, calculate_hmac, verify_hmac}
use tsn_fieldbus.L2.Header.{L2Header}

pub record StreamEntry : Type 0 where
  pub stream_config : StreamConfig
  pub sequence_number : ℕ

pub record StreamStore : Type 0 where
  pub shared_secret : List ℕ
  pub streams : Table ℕ StreamEntry

unfoldable pub new : List ℕ → StreamStore
new shared_secret = record { shared_secret = shared_secret; streams = [] }

unfoldable pub reset : StreamStore → StreamStore
reset s = record s { streams = [] }

unfoldable pub stream_id_as_u16 : ℕ → Result StatusCode ℕ
stream_id_as_u16 stream_id = do
  fail_if (ltb u16_max stream_id) err_param_invalid
  ok (stream_id % 2 ^ 16)

abbrev first_sequence_number : Direction → ℕ
first_sequence_number output = 1
first_sequence_number input = 0

unfoldable pub initial_sequence_number : ℕ → Result StatusCode ℕ
initial_sequence_number direction = do
  d ← ok_or (direction_try_from direction) err_param_invalid
  ok (first_sequence_number d)

-- The check and the insertion that `add_stream_config` and the loop of `add_stream_configs` share.
unfoldable pub insert_stream :
    Table ℕ StreamEntry → StreamConfig → Result StatusCode (Table ℕ StreamEntry)
insert_stream streams config = do
  stream_id ← stream_id_as_u16 config.stream_id
  fail_if (contains_key stream_id streams) err_param_invalid
  sequence_number ← initial_sequence_number config.direction
  ok (
      insert stream_id (record { stream_config = config; sequence_number = sequence_number })
        streams)

unfoldable pub add_stream_config :
    StreamStore → StreamConfig → StreamStore × Result StatusCode (Unit {0})
add_stream_config s config = elim (insert_stream s.streams config) [
  | ok streams ↦ (record s { streams = streams }, ok tt)
  | err e ↦ (s, err e)
]

-- Membership in a `HashSet` of stream numbers.
unfoldable pub elem : ℕ → List ℕ → Bool
elem k [] = false
elem k (j ∷ js) = j == k || elem k js

-- The first loop of `add_stream_configs`, which changes nothing.
unfoldable pub check_streams : List ℕ → List StreamConfig → Result StatusCode (Unit {0})
check_streams seen [] = ok tt
check_streams seen (config ∷ configs) = do
  stream_id ← stream_id_as_u16 config.stream_id
  fail_if (elem stream_id seen) err_param_invalid
  _ ← initial_sequence_number config.direction
  check_streams (stream_id ∷ seen) configs

-- The second loop. What was inserted before an error stays.
unfoldable pub insert_streams :
    Table ℕ StreamEntry → List StreamConfig → Table ℕ StreamEntry × Result StatusCode (Unit {0})
insert_streams streams [] = (streams, ok tt)
insert_streams streams (config ∷ configs) = elim (insert_stream streams config) [
  | ok streams' ↦ insert_streams streams' configs
  | err e ↦ (streams, err e)
]

unfoldable pub add_stream_configs :
    StreamStore → List StreamConfig → StreamStore × Result StatusCode (Unit {0})
add_stream_configs s configs = elim (check_streams [] configs) [
  | ok _ ↦ (let r = insert_streams s.streams configs in (record s { streams = r.0 }, r.1))
  | err e ↦ (s, err e)
]

unfoldable pub get_stream_config : StreamStore → ℕ → Option StreamConfig
get_stream_config s stream_id = elim (get stream_id s.streams) [
  | none ↦ none
  | some entry ↦ some entry.stream_config
]

-- The streams of one direction, in the order in which the map is iterated.
unfoldable pub streams_with : ℕ → List StreamEntry → List StreamConfig
streams_with direction [] = []
streams_with direction (entry ∷ entries) =
    let rest = streams_with direction entries in
    if entry.stream_config.direction == direction then entry.stream_config ∷ rest else rest

unfoldable pub get_streams_by_direction : StreamStore → Direction → List StreamConfig
unfolding streams_with
get_streams_by_direction s direction = streams_with (direction_number direction) (values s.streams)

unfoldable pub get_all_streams : StreamStore → List StreamConfig
get_all_streams s = map (λ entry. entry.stream_config) (values s.streams)

-- `(x >> 8) as u8` and `x as u8`.
unfoldable pub serialize_l2_header : L2Header → List ℕ
serialize_l2_header h =
    h.version
    ∷ h.stream_id / 2 ^ 8 % 2 ^ 8
    ∷ h.stream_id % 2 ^ 8
    ∷ h.cycle_counter / 2 ^ 8 % 2 ^ 8
    ∷ h.cycle_counter % 2 ^ 8
    ∷ h.status
    ∷ h.flags
    ∷ []

-- The parts of the message that the tag covers.
abbrev pub tag_parts : L2Header → List ℕ → ℕ → List (List ℕ)
tag_parts h payload sequence_number = serialize_l2_header h ∷ payload ∷ to_be 8 sequence_number ∷ []

module _ (b : Blake3) where
  unfoldable pub generate_stream_tag :
      StreamStore → L2Header → List ℕ → StreamStore × Result StatusCode (ℕ × List ℕ)
  generate_stream_tag s h payload = elim (get h.stream_id s.streams) [
    | none ↦ (s, err err_stream_id_unknown)
    | some entry ↦ (
      record s {
        streams =
            insert h.stream_id
              (record entry { sequence_number = saturating_add u64_max entry.sequence_number 1 })
              s.streams;
      },
      ok (
        entry.sequence_number,
        calculate_hmac b s.shared_secret (tag_parts h payload entry.sequence_number),
      ),
    )
  ]

  -- The branch of `validate_stream_tag` for a known stream.
  validate_entry :
      StreamStore
      → L2Header
      → List ℕ
      → ℕ
      → List ℕ
      → StreamEntry
      → StreamStore × Result StatusCode Bool
  validate_entry s h payload received tag entry =
      if leb received entry.sequence_number
      then (s, ok false)
      else if verify_hmac b s.shared_secret (tag_parts h payload received) tag
      then (
        record s {
          streams = insert h.stream_id (record entry { sequence_number = received }) s.streams;
        },
        ok true,
      )
      else (s, ok false)

  unfoldable pub validate_stream_tag :
      StreamStore → L2Header → List ℕ → ℕ → List ℕ → StreamStore × Result StatusCode Bool
  unfolding validate_entry
  validate_stream_tag s h payload received tag = elim (get h.stream_id s.streams) [
    | none ↦ (s, err err_stream_id_unknown)
    | some entry ↦ validate_entry s h payload received tag entry
  ]
