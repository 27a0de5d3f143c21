-- ===== src/Examples/Cyclic.antt =====
-- Examples on the cyclic data threads. The process image of the examples is a memory that keeps what is
-- written.
use tsn_fieldbus.Base.{nat_eq, ℕ, ◌≡◌, refl, arith, List, [], ◌∷◌, some, false, ok, err, ◌≢◌}
use tsn_fieldbus.Base.Table.{get, insert}
use tsn_fieldbus.Proto.{
  Position, op, no_error, err_hardware_access, err_frame_with_error_status, status_code_number,
}
use tsn_fieldbus.Mac.{MacAddr, mac}
use tsn_fieldbus.L2.Cycle.{
  ProcessImageAccess, build_frame_payload, parse_destination_mac, bit_len_to_byte_len,
}
use tsn_fieldbus.StreamStore.{StreamEntry, StreamStore}
use tsn_fieldbus.DeviceStatus
use tsn_fieldbus.L2Handler.Timing.{is_due}
use tsn_fieldbus.L2Handler.Delivery.{IsReady}
use tsn_fieldbus.L2Handler.Delivery.ToSlave.{master_outputs-delivered, master_failure-reported}
use tsn_fieldbus.L2Handler.Delivery.ToMaster.{slave_outputs-delivered}
use tsn_fieldbus.L2Handler.Master.Controller.{Controller}
use tsn_fieldbus.L2Handler.Master.Receive.{
  MasterReceiver, new_receiver as new_master_receiver, map_streams as map_master_streams,
}
use tsn_fieldbus.L2Handler.Master.Receive.{handle_frame as master_handle_frame}
use tsn_fieldbus.L2Handler.Master.Send.{
  MasterSender, Moment as MasterMoment, new_sender as new_master_sender,
  send_stream as master_send_stream,
}
use tsn_fieldbus.L2Handler.Slave.Device.{Device}
use tsn_fieldbus.L2Handler.Slave.Receive.{SlaveReceiver, new_receiver, map_streams, handle_frame}
use tsn_fieldbus.L2Handler.Slave.Send.{SlaveSender, Moment, new_sender, send_stream}
use tsn_fieldbus.Examples.{toy, secret, stream, master_mac}

abbrev pub memory : ProcessImageAccess (List ℕ)
memory = record {
  read_outputs = λ hw position. ok hw;
  write_inputs = λ hw bytes position. (bytes, ok tt);
}

abbrev pub payload : List ℕ
payload = 0x12 ∷ 0x34 ∷ []

abbrev pub entry_at : ℕ → StreamEntry
entry_at n = record { stream_config = stream; sequence_number = n }

abbrev pub store_at : ℕ → StreamStore
store_at n = record { shared_secret = secret; streams = (5, entry_at n) ∷ [] }

abbrev pub controller : ℕ → Controller (List ℕ)
controller n = record {
  stream_store = store_at n;
  device_state_manager = record { state = op };
  process_image = payload;
}

abbrev pub device : ℕ → Device (List ℕ)
device n = record {
  stream_store = store_at n;
  status_store = DeviceStatus.new 0;
  process_image = payload;
}

abbrev pub content : Position
content = record { byte_offset = 0; bit_offset = 0; bit_len = 12 }

abbrev pub slave_receiver : SlaveReceiver
slave_receiver = new_receiver (stream ∷ [])

abbrev pub master_receiver : MasterReceiver
master_receiver = new_master_receiver (stream ∷ [])

abbrev pub master_moment : MasterMoment
master_moment = record { state = op; elapsed_at = 0; now = 1; micros = 1_000 }

abbrev pub slave_moment : Moment
slave_moment = record { elapsed_at = 0; now = 1; micros = 1_000; timestamp = 9; fails = false }

abbrev pub stream_mac : MacAddr
stream_mac = mac 2 0 0 0 0 1

pub IsReady-slave :
    IsReady 5 (store_at 1) (store_at 0) slave_receiver.stream_map (entry_at 1) content
unfolding get insert new_receiver map_streams
IsReady-slave = record {
  er = entry_at 0;
  input = stream;
  room = omega arith;
  known = refl;
  secret = refl;
  behind = omega arith;
  configured = refl;
  placed = refl;
}

pub IsReady-master :
    IsReady 5 (store_at 1) (store_at 0) master_receiver.stream_map (entry_at 1) content
unfolding get insert new_master_receiver map_master_streams
IsReady-master = record {
  er = entry_at 0;
  input = stream;
  room = omega arith;
  known = refl;
  secret = refl;
  behind = omega arith;
  configured = refl;
  placed = refl;
}

master_outputs-delivered_example :
    (s' : MasterSender) × (c' : Controller (List ℕ)) × (frame : List ℕ) × (master_send_stream toy
        memory master_mac new_master_sender
        (controller 1)
        stream
        master_moment
      ≡ some (s', (c', frame ∷ [])))
    × ((handle_frame memory toy slave_receiver (device 0) 2 9 frame).1.process_image ≡ payload)
unfolding get insert is_due parse_destination_mac build_frame_payload bit_len_to_byte_len
    new_master_sender DeviceStatus.new new_receiver map_streams
master_outputs-delivered_example =
    master_outputs-delivered toy memory memory master_mac stream_mac new_master_sender
      (controller 1) stream master_moment (entry_at 1) payload slave_receiver (device 0) content 2 9
      refl refl refl refl IsReady-slave refl

slave_outputs-delivered_example :
    (s' : SlaveSender) × (d' : Device (List ℕ)) × (frame : List ℕ) × (send_stream toy memory
        master_mac op new_sender
        (device 1)
        stream
        slave_moment
      ≡ some (s', (d', frame ∷ [])))
    × ((master_handle_frame memory toy op master_receiver (controller 0) 2 frame).1.process_image
        ≡ payload)
unfolding get insert is_due parse_destination_mac build_frame_payload bit_len_to_byte_len new_sender
    DeviceStatus.new new_master_receiver map_master_streams
slave_outputs-delivered_example =
    slave_outputs-delivered toy memory memory master_mac stream_mac new_sender (device 1) stream
      slave_moment (entry_at 1) payload master_receiver (controller 0) content op op 2 refl refl
      refl refl IsReady-master refl

-- A process image that cannot be read.
abbrev broken : ProcessImageAccess (List ℕ)
broken = record {
  read_outputs = λ hw position. err err_hardware_access;
  write_inputs = λ hw bytes position. (hw, err err_hardware_access);
}

not_no_error : err_hardware_access ≢ no_error
not_no_error h = ground arith

master_failure-reported_example :
    (s' : MasterSender) × (c' : Controller (List ℕ)) × (frame : List ℕ) × (master_send_stream toy
        broken master_mac new_master_sender
        (controller 1)
        stream
        master_moment
      ≡ some (s', (c', frame ∷ [])))
    × (let out = (handle_frame memory toy slave_receiver (device 0) 2 9 frame).1 in
        (out.process_image ≡ payload)
        × (out.status_store.current.status_code ≡ status_code_number err_frame_with_error_status))
unfolding get insert is_due parse_destination_mac build_frame_payload new_master_sender
    DeviceStatus.new new_receiver map_streams
master_failure-reported_example =
    master_failure-reported toy broken memory master_mac stream_mac new_master_sender (controller 1)
      stream master_moment (entry_at 1) err_hardware_access slave_receiver (device 0) content 2 9
      refl refl refl refl not_no_error IsReady-slave
