-- ===== src/L2Handler/Slave/Start/Inputs.antt =====
-- Which streams the slave's threads receive and send.
use tsn_fieldbus.Base.{
  nat_eq, ℕ, ◌≡◌, ◌%◌, ◌^◌, refl, sym, ◌∙◌, subst, arith, List, [], ◌∷◌, All, Option, some,
  Bool-cases, inl, inr, ◌==◌, ==_iff,
}
use mathlib.Core.Option.{some-injective}
use tsn_fieldbus.Base.Table.{Table, get, insert, get-insert, values}
use tsn_fieldbus.Proto.{StreamConfig, input, output, direction_number}
use tsn_fieldbus.Mac.{MacAddr}
use tsn_fieldbus.StreamStore.{StreamEntry, StreamStore, streams_with, get_streams_by_direction}
use tsn_fieldbus.L2Handler.Slave.Receive.{map_streams}
use tsn_fieldbus.L2Handler.Slave.Start.{start_l2_handler}

streams_with-All :
    (direction : ℕ) (entries : List StreamEntry)
    → All (λ stream. stream.direction ≡ direction) (streams_with direction entries)
unfolding streams_with
streams_with-All direction [] = tt
streams_with-All direction (entry ∷ entries) =
    elim (Bool-cases (entry.stream_config.direction == direction)) [
      | inl same ↦ rw same (
        (==_iff entry.stream_config.direction direction).0 same,
        streams_with-All direction entries,
      )
      | inr other ↦ rw other (streams_with-All direction entries)
    ]

-- A stream of the map stands under its own number and goes in the direction.
IsMapped : ℕ → Table ℕ StreamConfig → Type 0
IsMapped direction t =
    (id : ℕ) (stream : StreamConfig)
    → get id t ≡ some stream
    → (stream.direction ≡ direction) × (id ≡ stream.stream_id % 2 ^ 16)

map_streams-IsMapped :
    (direction : ℕ) (t : Table ℕ StreamConfig) (streams : List StreamConfig)
    → IsMapped direction t
    → All (λ stream. stream.direction ≡ direction) streams
    → IsMapped direction (map_streams t streams)
unfolding map_streams IsMapped
map_streams-IsMapped direction t [] h all = h
map_streams-IsMapped direction t (stream ∷ streams) h (here, rest) =
    map_streams-IsMapped direction (insert (stream.stream_id % 2 ^ 16) stream t) streams
      (λ id found known. elim (Bool-cases (stream.stream_id % 2 ^ 16 == id)) [
        | inl same ↦
            let at : get id (insert (stream.stream_id % 2 ^ 16) stream t) ≡ some stream =
              get-insert (stream.stream_id % 2 ^ 16) id stream t ∙ rw same refl in
            let it : stream ≡ found = some-injective _ _ (sym at ∙ known) in
            (
              subst (λ x. x.direction ≡ direction) it here,
              subst (λ x. id ≡ x.stream_id % 2 ^ 16) it
                  (sym ((==_iff (stream.stream_id % 2 ^ 16) id).0 same)),
            )
        | inr other ↦
            h id found
              (sym (get-insert (stream.stream_id % 2 ^ 16) id stream t ∙ rw other refl) ∙ known)
      ])
      rest

-- The receiver takes frames only for configured streams of the input direction, each under its own
-- number, and the sender serves only streams of the output direction.
pub start_l2_handler-directions :
    (interface_mac : Option MacAddr) (stream_store : StreamStore)
    → let threads = start_l2_handler interface_mac stream_store in
      ((id : ℕ) (stream : StreamConfig)
        → get id threads.receiver.stream_map ≡ some stream
        → (stream.direction ≡ direction_number input) × (id ≡ stream.stream_id % 2 ^ 16))
      × All (λ stream. stream.direction ≡ direction_number output) threads.output_streams
unfolding start_l2_handler IsMapped get
start_l2_handler-directions interface_mac stream_store = (
  map_streams-IsMapped 0 [] (get_streams_by_direction stream_store input)
      (λ id stream known. ground arith) (streams_with-All 0 (values stream_store.streams)),
  streams_with-All 1 (values stream_store.streams),
)
