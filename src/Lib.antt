-- ===== src/Lib.antt =====
-- ClimateNode: two Zephyr sensor nodes, one on Ethernet that holds the MQTT sessions (the gateway), one
-- reached over CAN through it (the peer).
--
-- The model follows the repository's division.
--
--   Common, Common/*    tests on numbers, lists, and the C library's text formatting
--   Zephyr              the return codes that the sources tell apart, by name
--   CanLink             shared/can_link.h: identifiers, heartbeat frame (Addresses, Frame)
--   AppChannels         shared/app_channels.h: readings, sensor commands, the range rule
--   Commands            shared/commands.h, shared/commands.cpp: handle_command and what it calls
--                       (Delivery, Redelivery, Texts)
--   Protocol            shared/protocol.h, shared/protocol.cpp: encode_telemetry, encode_ack,
--                       decode_command (Telemetry, Acks); Plain is an encoding for the examples
--   Relay               gateway/src/relay.h, gateway/src/relay.cpp: liveness_step, publish_up,
--                       handle_relayed, drain_heartbeats, send_synthetic_ack (Liveness, Routing); set-up
--                       and passes of rx_thread and tx_thread (Threads, with Receiving, Sending), and
--                       the two threads as interleaved steps (RoundTrip, with Accounting, LateAck,
--                       Prompt, Traces)
--   Peer                peer-node/src/main.cpp: note_link, send_heartbeat, handle_incoming, send_message
--                       (Link, Answer), the start of main (SetUp), and the passes of its loop, in which
--                       heartbeat_sent and on_telemetry run too (Loop, Loop/Cadence, Loop/Readings,
--                       Loop/Backoff with Sending, Loop/Outstanding)
--   Sensor              gateway/src/sensor.cpp, peer-node/src/sensor.cpp: read_scd40 (Scd40), read_bme280
--                       (Bme280), the wait between samples (Wait), runs of sensor_thread (Cycle)
--   Gateway             gateway/src/main.cpp: session_drop, session_connect, session_serving and the part
--                       of a pass before publishing (Lifecycle, Pass, Accepted, Heard, Runs,
--                       Reconnect),
--                       next_deadline_ms (Deadline), handle_incoming_publish and what it calls
--                       (Incoming, with Draining, Answers, Routes), the publishing stages (Outgoing,
--                       Outgoing/Stages), the listeners and their event counters (Channels), the poll
--                       set (Poll), the start of main (Boot), and its loop over both sessions and all
--                       channels (Loop, with Inputs, Invariant, Stages, Runs, Delivery, Policy), also as
--                       each session alone sees it (Loop/Alone, with Blind, Parts, Sides, Runs, Accepted,
--                       Heard)
--   EndToEnd            the parts composed along the way of a reading (Telemetry), of a command and its
--                       Ack (Command), of a command to the sensor thread (Interval, with Runs), of a
--                       heartbeat (Presence, Pace with Runs) and of the gateway's verdict on the peer (Status)
--
-- The modules called Sample and Tests hold concrete inputs and runs.
--
-- Function names are the source's, in snake_case without the k prefix of constants. State that the
-- source keeps in file-level variables is a record that each operation takes and returns; what a driver,
-- the kernel or another thread does is an argument. Numbers are natural numbers with the wrap of their
-- width written out where the source can wrap; a float is its bit pattern; a text is the list of its
-- bytes before the NUL. Times are uptimes in milliseconds and do not run backwards where a theorem says
-- so. In a pass of the main loop, the other threads publish before zsock_poll returns or after it,
-- before the publishing stages; that they can also publish within a stage's look at its channel, between
-- its reading the counter and its reading the channel, is modelled in Gateway/Channels alone.
--
-- Outside of the repository, and so parameters with stated laws: zbus (Commands.Node, IsZbus), nanopb
-- and the host's decoder (Protocol.Nanopb, IsNanopb), the MQTT library (its calls as outputs; its reads
-- as Gateway.Incoming.Reader, Delivers), the CAN driver and ISO-TP (return codes and received payloads
-- as inputs), the sensor drivers (samples as inputs; Sensor.Scd40.Conversion, IsConversion). Log output
-- is left out. The fuel of the decimal printer is ten digits, which is enough for 32 bits
-- (Common/Decimal); that of the draining loop of a payload is its length, which is enough since each
-- turn takes a byte or more (Gateway/Incoming/Draining).
--
-- Not modelled: device initialisation, which is an input; the SCD-40's power-up delay; and the Python
-- host tools, test suites and scripts, which hold no logic of the nodes.
pub mod Common
pub mod Zephyr
pub mod CanLink
pub mod AppChannels
pub mod Commands
pub mod Protocol
pub mod Relay
pub mod Peer
pub mod Sensor
pub mod Gateway
pub mod EndToEnd
