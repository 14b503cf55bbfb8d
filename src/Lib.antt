-- ===== src/Lib.antt =====
-- A model of the Python package opensomeip (src/opensomeip/*.py), which wraps a C++ implementation
-- of SOME/IP, and the theorems about it.
--
-- The parts, from the bottom up, with the file of the package and the modules here:
--   exceptions.py      Exceptions: the classes, and `Result` for a call that may raise.
--   types.py           Types: identifiers, message types and return codes.
--   message.py         Message; `Endpoint` of transport.py is in Endpoint.
--   _bridge.py         Bridge: the import of the extension (Extension), and conversions between the
--                      package's types and the extension's; that of the configuration of service
--                      discovery is Sd.Config.
--   _logging.py        Logging: the levels, the callback, and the configuration of the logger.
--   receiver.py        Receiver: one queue for a synchronous and an asynchronous consumer.
--   transport.py       Transport: `Transport`, `UdpTransport`, `TcpTransport` and the listener.
--   tp.py              Tp: segments of messages that are longer than the MTU.
--   e2e.py             E2e: CRCs (Crc) and the protection with its counter (Protection).
--   serialization.py   Serialization: `Serializer` (Writer) and `Deserializer` (Reader).
--   sd.py, events.py, rpc.py    Sd, Events, Rpc: the services over a transport.
--   server.py, client.py        Server, Client: one object that holds all of the parts.
--   examples/          Examples: the programs that show the package at work. Serving has the loop of
--                      the servers that look up a handler, Requesting what the clients share;
--                      Calculator is basic/method_calls, Greeting basic/hello_world and
--                      basic/sd_demo, Sensors basic/events, Complex advanced/complex_types, Large
--                      advanced/large_messages and Profile e2e_protection. A `main` is an action over
--                      the messages that the program's receiver yields; what it prints is returned.
-- A module of that name has the state and the operations; the modules below it have theorems. Prelude
-- holds what all of them share. The operations keep the names of the methods; where a file has two
-- classes, the class is added (`start_client`, `stop_subscriber`).
--
-- The extension `_opensomeip` is C++. It is a parameter, `Native`: any function from the calls
-- made so far and the next call to a result, which may be an exception (Native.Calls). A method is
-- a function of its object and of the calls made so far; both are kept when it raises (Native.Run).
-- `cpp` says whether an object has its counterpart in the extension. The calls that constructors
-- make on the extension are not modelled. A callback that the extension makes is an operation
-- of its own, such as `on_message_received`, `on_complete` or `on_found`; operations are atomic. The
-- extension's serializer, floating-point formats and text codecs are parameters too, as are an
-- E2E profile, whose answers depend on its arguments only, and the handlers of the application.
--
-- Objects that stay in use after their owner has let go of them, which are the receivers of `find`
-- and `incoming_requests` and the futures of `call_async`, are in a dictionary under a number.
--
-- Numbers: identifiers, ports and the interface version are checked by the constructors, which
-- take integers of any size. Payloads, MTUs and sizes are natural numbers. Counters wrap by the
-- masks of the source. Fuel: the loop of the segmentation takes one unit a round, so that a
-- fuel above the payload's length is enough if the MTU is positive; iterating over a receiver takes
-- one unit a message.
--
-- A `with` block is `within` of Native.Run: `start`, the body, and `stop` whatever the body does.
-- Overlapping `call_async` are steps of a relation (Rpc.Correlation), in any order.
--
-- Not modelled: texts of exceptions and of `__repr__`, statistics, plain property getters, the
-- checksum of zlib, what Python's `logging` prints, the C++ code; of the examples the texts that they
-- compose, the variables of the environment, and signal handlers that only stop the objects.
pub mod Prelude
pub mod Exceptions
pub mod Types
pub mod Endpoint
pub mod Logging
pub mod Message
pub mod Native
pub mod Bridge
pub mod Receiver
pub mod Transport
pub mod Tp
pub mod E2e
pub mod Serialization
pub mod Sd
pub mod Events
pub mod Rpc
pub mod Server
pub mod Client
pub mod Examples
mod Tests
