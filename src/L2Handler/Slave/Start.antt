-- ===== src/L2Handler/Slave/Start.antt =====
-- How the slave's threads start: `start_l2_handler` of slave/src/l2_handler.rs, once the interface has a
-- channel.
pub mod Inputs
use tsn_fieldbus.Base.{ℕ, List, Option}
use tsn_fieldbus.Proto.{StreamConfig, input, output}
use tsn_fieldbus.Mac.{MacAddr}
use tsn_fieldbus.StreamStore.{StreamStore, get_streams_by_direction}
use tsn_fieldbus.L2Handler.Timing.{base_cycle}
use tsn_fieldbus.L2Handler.Slave.Receive.{SlaveReceiver, new_receiver}
use tsn_fieldbus.L2Handler.Slave.Send.{SlaveSender, new_sender, source_mac}

-- What the two threads begin with; the timer of the sender ticks once per `period`.
pub record Threads : Type 0 where
  pub receiver : SlaveReceiver
  pub sender : SlaveSender
  pub source : MacAddr
  pub output_streams : List StreamConfig
  pub period : ℕ

unfoldable pub start_l2_handler : Option MacAddr → StreamStore → Threads
unfolding new_receiver new_sender source_mac base_cycle get_streams_by_direction
start_l2_handler interface_mac stream_store = record {
  receiver = new_receiver (get_streams_by_direction stream_store input);
  sender = new_sender;
  source = source_mac interface_mac;
  output_streams = get_streams_by_direction stream_store output;
  period = base_cycle (get_streams_by_direction stream_store output);
}
