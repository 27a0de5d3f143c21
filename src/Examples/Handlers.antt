-- ===== src/Examples/Handlers.antt =====
-- Examples on the frames that the receivers accept and the counters that they check.
use tsn_fieldbus.Base.{
  nat_eq, ℕ, ◌+◌, ◌*◌, ◌<◌, ◌%◌, ◌^◌, ◌≡◌, ◌≢◌, ◌∙◌, refl, ap, arith, List, [], ◌∷◌, none, some, ok,
}
use tsn_fieldbus.Base.Table.{get, insert}
use tsn_fieldbus.Proto.{StreamConfig, op, no_error, err_auth_failed, status_code_number}
use tsn_fieldbus.Security.Crypto.{calculate_hmac}
use tsn_fieldbus.L2.Cycle.{
  bit_len_to_byte_len, cycle_counter, ticks_per_cycle, tolerance_ticks, parse_destination_mac,
}
use tsn_fieldbus.L2.Header.Laws.{IsL2Header}
use tsn_fieldbus.L2.Frame.{ParsedL2Frame, parse_l2_frame}
use tsn_fieldbus.StreamStore.{tag_parts, StreamEntry}
use tsn_fieldbus.L2Handler.Counter.{missed_cycles}
use tsn_fieldbus.L2Handler.Counter.Laws.{missed_cycles-punctual, missed_cycles-lost}
use tsn_fieldbus.L2Handler.Timing.{is_due}
use tsn_fieldbus.L2Handler.Accepted.{IsAccepted}
use tsn_fieldbus.L2Handler.Link.{tagged_frame, tagged_frame-IsAccepted}
use tsn_fieldbus.L2Handler.Delivery.{tagged_frame-written}
use tsn_fieldbus.L2Handler.Slave.Device.{Device}
use tsn_fieldbus.L2Handler.Slave.Receive.{new_receiver, map_streams, handle_frame}
use tsn_fieldbus.L2Handler.Slave.Receive.Accepts.{handle_frame-authentic}
use tsn_fieldbus.L2Handler.Slave.Receive.Reports.{handle_frame-replay}
use tsn_fieldbus.L2Handler.Slave.Receive.Refines.{handle_frame-refines}
use tsn_fieldbus.L2Handler.Slave.Send.{SlaveSender, new_sender, send_stream, send_streams}
use tsn_fieldbus.L2Handler.Slave.Send.Spacing.{IsOther, send_stream-spaced}
use tsn_fieldbus.L2Handler.Slave.Receive.Replay.{handle_frames, handle_frames-replay}
use tsn_fieldbus.L2Handler.Master.Receive.Accepts.{master_handle_frame-authentic}
use tsn_fieldbus.L2Handler.Master.Receive.{
  new_receiver as new_master_receiver, map_streams as map_master_streams,
}
use tsn_fieldbus.L2Handler.Master.Controller.{Controller}
use tsn_fieldbus.L2Handler.Master.Receive.{handle_frame as master_handle_frame}
use tsn_fieldbus.L2Handler.Master.Receive.Refines.{master_handle_frame-refines}
use tsn_fieldbus.Examples.{toy, secret, stream, master_mac, l2_header}
use tsn_fieldbus.Examples.Cyclic.{
  memory, payload, entry_at, store_at, controller, device, content, slave_receiver, master_receiver,
  slave_moment, stream_mac, IsReady-slave, IsReady-master,
}

abbrev frame : List ℕ
frame = tagged_frame toy (store_at 1) (entry_at 1) master_mac stream_mac 0x6001 l2_header payload

header_fits : IsL2Header l2_header
header_fits = record {
  version_u8 = omega arith;
  stream_u16 = omega arith;
  counter_u16 = omega arith;
  status_u8 = omega arith;
  flags_u8 = omega arith;
}

accepted : IsAccepted toy slave_receiver.stream_map (store_at 0) frame
unfolding get insert new_receiver map_streams
accepted =
    (tagged_frame-IsAccepted toy (store_at 1) (store_at 0) (entry_at 1) (entry_at 0) master_mac
      stream_mac 0x6001 l2_header payload slave_receiver.stream_map stream (omega arith) header_fits
      (omega arith) refl refl (omega arith) refl refl).0

-- A device whose process image is still empty.
abbrev idle : Device (List ℕ)
idle = record (device 0) { process_image = [] }

not_idle : (handle_frame memory toy slave_receiver idle 2 9 frame).1.process_image ≢ []
unfolding get insert new_receiver map_streams bit_len_to_byte_len
not_idle h = ground (arith, written)
  where
    written : (handle_frame memory toy slave_receiver idle 2 9 frame).1.process_image ≡ payload
    written =
        ap (λ x. x.1) (handle_frame-refines memory slave_receiver 2 9 toy idle frame)
        ∙ tagged_frame-written toy memory (store_at 1) (store_at 0) slave_receiver.stream_map
            (entry_at 1) content master_mac stream_mac 0x6001 l2_header payload [] IsReady-slave
            (omega arith) header_fits refl refl

handle_frame-authentic_example :
    (p : ParsedL2Frame) × (s : StreamConfig) × (entry : StreamEntry) × (parse_l2_frame frame ≡ ok p)
    × (get p.header.stream_id slave_receiver.stream_map ≡ some s)
    × (p.header.status ≡ status_code_number no_error)
    × (get p.header.stream_id (store_at 0).streams ≡ some entry)
    × (entry.sequence_number < p.sequence_number)
    × (calculate_hmac toy secret (tag_parts p.header p.payload p.sequence_number) ≡ p.auth_tag)
handle_frame-authentic_example =
    handle_frame-authentic toy memory slave_receiver idle 2 9 frame not_idle

handle_frame-replay_example :
    let first = (handle_frame memory toy slave_receiver (device 0) 2 9 frame).1 in
    let second = (handle_frame memory toy slave_receiver first 3 10 frame).1 in
    (second.process_image ≡ first.process_image)
    × (second.stream_store ≡ first.stream_store)
    × (second.status_store.current.status_code ≡ status_code_number err_auth_failed)
handle_frame-replay_example =
    handle_frame-replay memory toy slave_receiver slave_receiver (device 0) 2 9 3 10 frame accepted
      refl

missed_cycles-punctual_example :
    missed_cycles 1_000_000 (cycle_counter 65_000) (cycle_counter (65_000 + 1_000)) ≡ none
missed_cycles-punctual_example =
    missed_cycles-punctual 1_000_000 65_000 1_000 (omega arith) (omega arith) (omega arith)

-- Three cycles of 32 ticks, across the end of the counter.
missed_cycles-lost_example :
    missed_cycles 1_000_000 65_500 ((65_500 + (10 + 1) * ticks_per_cycle 1_000_000) % 2 ^ 16)
    ≡ some 10
unfolding ticks_per_cycle tolerance_ticks
missed_cycles-lost_example =
    missed_cycles-lost 1_000_000 65_500 10 (omega arith) (omega arith) (omega arith) (omega arith)

-- Another stream, which the store does not know.
abbrev other : StreamConfig
other = record stream { stream_id = 6 }

other-IsOther : IsOther 5 other
unfolding parse_destination_mac
other-IsOther = (distinct, stream_mac, refl)
  where
    distinct : 6 % 2 ^ 16 ≢ 5
    distinct h = absurd (omega arith)

-- A stream that was just sent, half a cycle later, after the other one was served twice.
send_stream-spaced_example :
    (s' s'' : SlaveSender) × (d' d'' : Device (List ℕ)) × (frame : List ℕ) × (frames : List
      (List ℕ))
    × (send_stream toy memory master_mac op new_sender (device 1) stream slave_moment
        ≡ some (s', (d', frame ∷ [])))
    × (send_streams toy memory master_mac op (other ∷ other ∷ []) (λ n. slave_moment) s' (device 2)
        ≡ some (s'', (d'', frames)))
    × (send_stream toy memory master_mac op s''
          (device 2)
          stream
          (record slave_moment { elapsed_at = 500_000 })
        ≡ some (s'', (device 2, [])))
unfolding get is_due parse_destination_mac new_sender
send_stream-spaced_example =
    send_stream-spaced toy memory master_mac op new_sender (device 1) (device 2) (device 2) stream
      (other ∷ other ∷ []) slave_moment (record slave_moment { elapsed_at = 500_000 })
      (λ n. slave_moment) stream_mac (entry_at 1) refl refl refl
      (other-IsOther, (other-IsOther, tt)) (omega arith)

-- A frame, another one that is refused, and the first one again.
handle_frames-replay_example :
    let before =
      handle_frames memory toy
        (record { now = 2; timestamp = 9; frame = frame }
          ∷ record { now = 3; timestamp = 9; frame = [] }
          ∷ [])
        slave_receiver
        (device 0) in
    let after = handle_frame memory toy before.0 before.1 4 10 frame in
    (after.1.process_image ≡ before.1.process_image)
    × (after.1.stream_store ≡ before.1.stream_store)
    × (after.1.status_store.current.status_code ≡ status_code_number err_auth_failed)
handle_frames-replay_example =
    handle_frames-replay memory toy slave_receiver (device 0)
      (record { now = 2; timestamp = 9; frame = frame })
      (record { now = 4; timestamp = 10; frame = frame })
      (record { now = 3; timestamp = 9; frame = [] } ∷ []) accepted refl

-- A controller whose process image is still empty.
abbrev idle_controller : Controller (List ℕ)
idle_controller = record (controller 0) { process_image = [] }

not_idle_controller :
    (master_handle_frame memory toy op master_receiver idle_controller 2 frame).1.process_image ≢ []
unfolding get insert new_master_receiver map_master_streams bit_len_to_byte_len
not_idle_controller h = ground (arith, written)
  where
    written :
        (master_handle_frame memory toy op master_receiver idle_controller 2 frame).1.process_image
        ≡ payload
    written =
        ap (λ x. x.1)
          (master_handle_frame-refines memory op master_receiver 2 toy idle_controller frame)
        ∙ tagged_frame-written toy memory (store_at 1) (store_at 0) master_receiver.stream_map
            (entry_at 1) content master_mac stream_mac 0x6001 l2_header payload [] IsReady-master
            (omega arith) header_fits refl refl

master_handle_frame-authentic_example :
    (p : ParsedL2Frame) × (s : StreamConfig) × (entry : StreamEntry) × (parse_l2_frame frame ≡ ok p)
    × (get p.header.stream_id master_receiver.stream_map ≡ some s)
    × (p.header.status ≡ status_code_number no_error)
    × (get p.header.stream_id (store_at 0).streams ≡ some entry)
    × (entry.sequence_number < p.sequence_number)
    × (calculate_hmac toy secret (tag_parts p.header p.payload p.sequence_number) ≡ p.auth_tag)
master_handle_frame-authentic_example =
    master_handle_frame-authentic toy memory op master_receiver idle_controller 2 frame
      not_idle_controller
