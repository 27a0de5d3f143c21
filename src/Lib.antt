-- ===== src/Lib.antt =====
-- Verification of the TSN fieldbus: the protocol core that master and slave share, the stores and the
-- service of the slave, the discovery and the cyclic data of both sides.
--
-- A master finds slaves with SDCP messages in Ethernet frames, gives them addresses, configures
-- streams over a gRPC service, and then both exchange cyclic L2 frames. SDCP messages and L2 frames
-- carry a footer with a sequence number and a keyed tag.
--
-- Base: shared helpers. Outcome is Rust's `Result` with `?`; Bytes are the big-endian words and the
--   cursor of the `byteorder` readers; Table is `HashMap` as an association list, on whose order no
--   theorem rests; Keys are byte strings as keys; Order and Words are facts on numbers.
-- Proto: the enumerations and messages of common/proto/slave-api.proto.
-- StateMachine: common/src/state_machine.rs. Transitions is the state diagram, Runs what holds after
--   any requests.
-- Security: common/src/security. Footer is auth_footer.rs, Crypto is crypto.rs, DiscoveryAuth is
--   discovery_auth.rs with its runs in Replay. BLAKE3 is the parameter Blake3: a keyed hasher whose
--   digest has 32 bytes. Nothing is assumed on how hard tags are to forge.
-- Mac: the addresses of pnet.
-- Sdcp: common/src/discovery_types.rs. Header, Tlv with its parsers, and whole payloads.
-- L2: common/src/l2_types.rs (Header, Frame) and common/src/l2_utils.rs (Gcd, Cycle, Metrics).
-- StreamStore: common/src/stream_store.rs. Configs is the configuration of streams, Tags one tag,
--   Replay any messages at a receiver, Session a sender and a receiver over a link that loses frames.
-- TokenStore: slave/src/token_store.rs. Laws are single calls, Issued runs of calls. SHA-256 and
--   base64 are the parameter Crates.
-- DeviceStatus: slave/src/device_status.rs. Runs are the calls, Log the log, Fields the counters.
-- SlaveDiscovery: slave/src/discovery.rs, over StateMachine, Security and Sdcp. The hardware traits of
--   common/src/hardware_abstraction.rs are the parameter Hardware.
-- SlaveApi: slave/src/slave_api.rs, over StateMachine, DeviceStatus, TokenStore and StreamStore. Streams
--   is the configuration of streams, Access what a request may do by its token and the state.
-- L2Handler: slave/src/l2_handler.rs (Slave) and master/src/l2_handler.rs (Master), over StreamStore, L2
--   and DeviceStatus. Receive and Send are a turn of the receiver's and of the sender's thread, Start what
--   the threads begin with; Counter and Timing are the parts that both sides have. Accepted is what
--   both receivers do to the streams and the process image, Link the frame between them, Delivery the
--   way from one process image to the other. The process image is the trait ProcessImageAccess, a parameter.
-- MasterDiscovery: master/src/discovery.rs, over StateMachine, Security and Sdcp. Wait and Unicast are the
--   requests to one device, Discover the broadcast; Found puts them together with SlaveDiscovery.
-- SlaveHardware: slave/src/hardware_mock.rs, the process image of the demonstration's slaves. Bits, Images
--   and Cuts are facts on bits of bytes, of images and of their parts, Fields what is read and written,
--   Layout the variables.
-- Examples: the theorems at concrete inputs.
--
-- An object behind a lock is a value, each method a function from the old value and the arguments to
-- the new value and the result; a poisoned lock is used as it is. Integers are natural numbers, with
-- `% 2 ^ w` where a cast cuts and a minimum where an addition saturates; that a value fits its type is
-- a condition where it matters. Clocks and randomness are arguments. The loop of `gcd_u32` recurses on
-- the accessibility of its second number; the digits of a token's time have fuel 32, the most
-- hexadecimal digits of a `u128`. What a turn of a thread sees of the clock, the state and the
-- transmitter is an argument, a Moment or an Observation; a loop over turns takes a sequence of them.
-- The loops of MasterDiscovery end when the clock shows the timeout: they have fuel for the turns, and
-- one more than the turns before that is enough, whatever is received. `none` is a panic of a
-- sender's turn, on a destination that is no address. A panic on an index that a check excludes is not
-- modelled; other panics are named where they stand.
--
-- Not modelled: opening sockets and interfaces, spawning threads and their timers, the background tasks
-- of the status store, the loading of secrets from the environment, the gRPC transport and its
-- subscriptions, the master's API client and its hardware mock, logging, the demonstration and
-- the tests. pnet's packets enter as EthernetFrame, the fields that the code reads and writes.
pub mod Base
pub mod Proto
pub mod StateMachine
pub mod Security
pub mod Mac
pub mod Sdcp
pub mod L2
pub mod StreamStore
pub mod TokenStore
pub mod DeviceStatus
pub mod SlaveDiscovery
pub mod SlaveApi
pub mod L2Handler
pub mod MasterDiscovery
pub mod SlaveHardware
pub mod Examples
