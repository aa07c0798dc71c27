-- ===== src/Lib.antt =====
-- The protocol core of libpinggy, modelled from its C++ sources.
--
-- A tunnel is one network connection. The transport (src/protocol/transport/TransportManager.cc) cuts it
-- into frames; a session (src/protocol/Session.cc) exchanges messages in them: hello, authentication,
-- forwardings, and the opening of channels. A channel (src/protocol/Channel.cc) is one end of a
-- multiplexed stream with flow control by windows. A session passes a message for a channel to it,
-- and a channel calls its session to be registered, removed, and to send. Bytes travel in buffers
-- (src/common/utils/RawData.cc). What the two ends may use was negotiated
-- (src/protocol/SessionFeatures.cc). A forwarder (src/protocol/ChannelConnectionForwarder.cc) copies
-- between a channel and a connection, which may be one end of a pair inside the process
-- (src/common/net/DummyConnection.cc). What a message holds is written as literals
-- (src/protocol/transport/Serialization.cc), each under the number of its path
-- (src/protocol/transport/PathRegistry.cc). Which forwardings the program asks for is read from the
-- settings of its user (src/sdk/SdkConfig.cc).
--
-- Files, and what they model (paths from the root of the repository):
--   Prelude          names of the libraries, lists and tests on native numbers, and the outcome of a
--                    call: a value, or the end of the process (`ABORT_WITH_MSG`, an exception that
--                    nothing catches, a null pointer).
--   Features         src/protocol/SessionFeatures.hh, .cc; Features/Negotiation has the proofs.
--   Message          src/protocol/Schema.hh.
--   RawData          src/common/utils/RawData.hh, .cc; View: slices and consumption; Append: `AddData`,
--                    `Concat`, `ReAlign`.
--   Channel          src/protocol/Channel.hh, .cc: construction and the opening and closing methods;
--                    State: the members; Transfer: `Send`, `Recv`; Handlers: what arrives. Proofs in
--                    Lifecycle (state diagram), Pieces (`Send`), Window (accounts of the window),
--                    History (all sequences of calls), and Pair (two ends and what is on the way).
--   Forwarder        src/protocol/ChannelConnectionForwarder.hh, .cc: State, and the methods; Bridge puts
--                    it between a channel, the poller and the session. Proofs in Streams, Calm and
--                    Carries (no byte is lost), Safety, Copies and Fair (every call returns), and Flow
--                    (copying does not stall, by what the poller was told to watch).
--   Dummy            src/common/net/DummyConnection.hh, .cc. Proofs in Wire (what a call does to the two
--                    streams), Run (all sequences of calls) and Wakeups (who is woken).
--   Literals         src/protocol/transport/Serialization.cc, Deserialization.cc: numbers and strings.
--                    Proofs in Integers, Strings and Conversions.
--   Paths            src/protocol/transport/PathRegistry.hh, .cc. Proofs in Wire (from bytes to
--                    definitions) and Register (from one side's paths to the other's).
--   Ids              `Session::getChannelNewId` and `validRemoteChannel`; Ids/Fresh has the proofs.
--   Transport        src/protocol/transport/TransportManager.hh, .cc: State, Sending, Receiving. Proofs
--                    in Stream (what is written), Frames (what is read), Handshake (byte order).
--   Session          src/protocol/Session.hh, .cc: State, Sending (`sendMsg` and the queue), Table
--                    (registered channels), Dispatch (`handleDeserializedMsg`), Api. Proofs in Order
--                    (the order of messages), Keeps and Phases (the session's state),
--                    LostLink (a reset while sending), and Life (all sequences of calls).
--   StringUtils      src/common/utils/StringUtils.cc: `ShlexSplitString`, `ShlexJoinStrings`;
--                    StringUtils/Shlex has the proofs. Splitting: `SplitString`, `JoinString`;
--                    Stripping, Matching and Replacing: the others.
--   Tunnel           src/common/utils/TunnelCommon.hh, .cc: the modes and their names.
--   SdkConfig        src/sdk/SdkConfig.cc: the user name and the forwardings, read from texts. Proofs in
--                    User, Forwardings, Saving and Again (what was read is read again).
--   RefTable         src/sdk/RefTable.hh; RefTable/Ownership has the proofs.
--   Tests            concrete runs, one for each property.
--
-- State is passed explicitly: an operation takes the record of a component and gives the new one.
-- What an operation calls outside its component is a list, in order: `Effect` of a channel, `Output`
-- of a session and of a transport. Numbers are natural numbers; where the C++ type wraps around the
-- model writes it (`% 2 ^ 32`). A failed `Assert` is passed over, as in a release build.
--
-- Fuel. `Send` cuts off one piece per round; one round more than there are bytes is enough when the
-- peer's packets are not empty, and no number is enough when they are. The search for a channel
-- number has 0x2000 rounds, as many as there are numbers of a parity. `to_string` has 20 digits,
-- which all 64-bit numbers fit. A string is split in at most as many rounds as it has bytes and one
-- more, when the delimiter is not empty; paths are read in at most as many rounds as there are bytes.
-- A text is replaced in at most one round more than it has bytes, when what is looked for is not empty.
--
-- What stands outside. The connection is given by its answers to reads and writes, the session's
-- transport by its answers to messages (`Answer`); event handlers are outputs, and do not call back
-- while they are called, but for a forwarder, whose channel calls it. The debug writer of a session
-- only logs. A session finds its connection lost at a message in the middle of a call: a transport's
-- answer `reset` for the session itself, and the argument `lost` for a forwarder, whose channel sent it.
-- Sums of lengths of a buffer wrap around as the source compares them; bytes that are added to a buffer
-- lie outside its own block. The path registry and the serialised form of a message stand behind the transport,
-- which is given their bytes. Not modelled: the objects and arrays of the serialised
-- form, the other settings (JSON and the arguments), sockets, TLS, polling, the rest of the SDK and its
-- C interface, the command line client and logging. The test for an address (src/common/platform/network.c)
-- calls the operating system, and is a parameter of the readers of forwardings.
pub mod Prelude
pub mod Features
pub mod Forwarder
pub mod Dummy
pub mod Literals
pub mod Paths
pub mod Message
pub mod RawData
pub mod Channel
pub mod Ids
pub mod Transport
pub mod Tunnel
pub mod Session
pub mod RefTable
pub mod SdkConfig
pub mod StringUtils
pub mod Tests
