-- ===== src/Lib.antt =====
-- bedjet-local: a local controller for a BedJet heater, over Bluetooth LE.
--
-- The program reads status packets that the device sends, decodes them, sends commands and checks
-- by reading the status back that the device obeyed; a session keeps the one BLE link and gives it
-- away on request. The development follows the Python sources under src/bedjet_local:
--
--   Prelude, Prelude/..    names of the standard libraries, list helpers, integers
--   Python/Result, Float   a method that returns or raises; finite floats as n / 2^k with infinity
--                          and nan, rounding to the nearest with ties to even
--   Protocol/Constants     protocol/constants.py: offsets, mode enums, limits, the checksum
--   Protocol/Packets       protocol/packets.py: StatusPacket, is_complete, is_trustworthy
--   Protocol/Decode        protocol/decode.py: decode_status, looks_like_packet_start, reassemble
--   Protocol/Encode        protocol/encode.py: the command encoders with their errors
--   Device/State           device/state.py: BedJetState.from_status
--   Transport/Contract     transport/base.py: the operations of a transport and their laws
--   Transport/Mock         transport/mock.py: the scripted transport
--   Transport/Ble          transport/ble.py: BleakTransport; Ble/Scan has scan, Ble/Adapter the watch
--                          over the adapter
--   Service/Reader         service/reader.py: StatusReader; Reader/Steps interleaves its methods
--   Service/Commander      service/commander.py: Commander._send_verified and the wait before it;
--                          Commander/Requests has the four public commands,
--                          Commander/Concurrent several of them on one commander
--   Service/Session        service/session.py: DeviceSession, the link and its lease;
--                          Session/Tasks interleaves start, the supervisor, yields and stops;
--                          Session/Waits has the waits of its clients, Session/Backoff the
--                          supervisor's waits between attempts that fail
--   Device/Registry        device/registry.py: which devices are ours
--   Api/Models             api/models.py: DeviceSnapshot.from_session, CommandOutcome, Capabilities;
--                          Models/Json has their to_dict
--   Api/Service, Lease     api/service.py: BedJetAPI, its commands and the translation of their
--                          ends; yield_link and resume_link
--   Api/Contract           api/contract.py: the operations that are described to agents
--   Integrations/Outbox    MqttBridge._enqueue and the same queue of a websocket
--   Integrations/Http      integrations/http_ws.py: ServerConfig, requests and the tests of guard;
--                          Http/Handlers has the routes, Http/Headers the texts of headers,
--                          Http/Sockets the tasks of the websockets
--   Integrations/Mqtt      integrations/mqtt.py: topics, command messages and their reports;
--                          Mqtt/Bridge has run with the connections to the broker, Mqtt/Discovery
--                          the announcements, Mqtt/Payload the published state
--   Cli                    cli.py: the subcommands off, fan, mode and temp under main; Cli/Watch
--                          has cmd_watch, Cli/Discover cmd_discover, Cli/Daemon _release,
--                          Cli/Serve cmd_serve and cmd_mqtt, Cli/Signals _stop_signals,
--                          Cli/Identify cmd_identify
--
-- How the parts meet: the reader hands each trustworthy packet, decoded, to the commander, which
-- keeps the latest one and an event; a command takes a baseline, writes once through the
-- transport, and loops until an update satisfies it or the deadline passes. The session owns
-- reader and transport; the API asks for its state, runs commands only while it reports the link
-- connected, and turns each end of a command into an outcome or an error of its own. HTTP, MQTT and
-- the command line are clients: the first two of the API, the last of a commander and a transport.
--
-- Conventions. A byte is a native number. Temperatures of packets and states are in half
-- degrees, the unit of the wire, so that the floats of the source, which are exact halves, are
-- numbers. An asynchronous method is cut at each await into functions on a state, and an event
-- list or a list of rounds (`Turn`) gives what the rest of the world does between them; nothing
-- is assumed about their order. A session is a world of events: `fire` gives the world after
-- one, where its task is there to do it, and `Reachable` is what any sequence of them leads to.
-- Commands that share a commander are such a world too (Commander/Concurrent), and so are the
-- sockets of a server; in both a task's stretch that cannot run does nothing, and a wait that
-- finds its event set may let others go first. The clock and the device are such an environment
-- (`Env`). The verification loop is recursion on its rounds, and a round whose clock has reached
-- the deadline is its last, so that running out of rounds is excluded as soon as there is one. A
-- log, prose for people (`describe`, messages) and how long a sleep is are left out, but for the
-- supervisor's backoff (Session/Backoff).
--
-- A record with the operations of a transport and one with their laws stand between the command
-- line and the two transports; what bleak does in a call is a `Moment`, an argument of the call.
--
-- Parameters, of which nothing is assumed: str.strip, str.upper and str.lower, ipaddress, float
-- of an integer and of a text, and the float arithmetic from Fahrenheit to Celsius. The
-- registry's file arrives parsed, as tomllib gives it, each of its entries with an address, a
-- request routed and parsed, as aiohttp does, a message decoded, and the arguments of the
-- command line parsed. Of bleak it is assumed, where a hypothesis says so, that it raises only
-- under `BleakError`; of a commander that its transport raises nothing but `TransportError` in a
-- write; of the broker that it publishes the will of a client whose connection is lost, and no
-- will where a client closes in order; a publication that returns has reached it, and one that
-- raises may have.
--
-- Fuel: the loop of the bounded queue is given one round more than its length, the loop of a watch
-- its deadline; both end within it.
--
-- Not modelled: the names, units and icons of the announcements to Home Assistant, the prose of
-- the contract, the declarations of the argument parser, that the transport makes its power-on
-- event and the watcher of it once, Ctrl-C in the subcommands that write nothing and are no
-- daemons, and what is printed and logged.

mod Prelude
pub mod Python
pub mod Protocol
pub mod Device
pub mod Transport
pub mod Cli
pub mod Service
pub mod Api
pub mod Integrations
