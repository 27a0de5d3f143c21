-- ===== src/L2Handler/Master/Start.antt =====
-- How the master's threads start: `start_l2_handler` of master/src/l2_handler.rs, once the interface has
-- a channel. The sender cannot start on an interface without an address; the receiver, which has
-- started by then, is not modelled further.
use tsn_fieldbus.Base.{ℕ, List, Option, Result, ok, ◌>>=◌}
use tsn_fieldbus.Proto.{StatusCode, StreamConfig, input, output}
use tsn_fieldbus.Mac.{MacAddr}
use tsn_fieldbus.StreamStore.{StreamStore, get_streams_by_direction}
use tsn_fieldbus.L2Handler.Timing.{base_cycle}
use tsn_fieldbus.L2Handler.Master.Receive.{MasterReceiver, new_receiver}
use tsn_fieldbus.L2Handler.Master.Send.{MasterSender, new_sender, source_mac}

-- What the two threads begin with; the timer of the sender ticks once per `period`.
pub record Threads : Type 0 where
  pub receiver : MasterReceiver
  pub sender : MasterSender
  pub source : MacAddr
  pub output_streams : List StreamConfig
  pub period : ℕ

unfoldable pub start_l2_handler : Option MacAddr → StreamStore → Result StatusCode Threads
unfolding new_receiver new_sender source_mac base_cycle get_streams_by_direction
start_l2_handler interface_mac stream_store = do
  source ← source_mac interface_mac
  ok (record {
    receiver = new_receiver (get_streams_by_direction stream_store input);
    sender = new_sender;
    source = source;
    output_streams = get_streams_by_direction stream_store output;
    period = base_cycle (get_streams_by_direction stream_store output);
  })
