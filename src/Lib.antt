-- ===== src/Lib.antt =====
-- naia-socket: an unreliable, unordered packet socket for games, with a client (client/), a server
-- (server/) and what they share (shared/). A client socket sends and receives packets over UDP or over
-- a WebRTC data channel of the browser; a server socket over UDP or over the crate webrtc-unreliable,
-- with an HTTP exchange that opens WebRTC sessions. Either kind can be wrapped in a link conditioner,
-- which delays and drops the packets that the inner socket receives.
--
-- Base: names of the libraries passed on, lists measured by native numbers, integers, and `Exec`, the
-- outcome of code that can panic or run out of fuel.
--
-- Shared: shared/src.
--   Shared/TimeQueue: `TimeQueue` of time_queue.rs over the interface Shared/Heap, which states what
--     std::collections::BinaryHeap promises; Shared/Heap/Selection is a heap that keeps the promise.
--     TimeQueue/History and TimeQueue/Heaps run lists of calls.
--   Shared/Conditioner: `process_packet` of link_condition_logic.rs; Shared/Config: the configuration of
--     link_conditioner_config.rs; Shared/World: the clock and the random source that they call, as an
--     interface, and the arithmetic of `u32` in a debug and in a release build.
--     Conditioner/Overflow compares the two builds; Conditioner/Accounts is what becomes of the packets of either conditioner over many calls.
--   Shared/Native, Shared/Web, Shared/Miniquad: the platforms of impls/native, impls/wasm_bindgen and
--     impls/miniquad: `Instant`, `Random`, `Timer` and `Timestamp::now`. Each fills the interface of
--     Shared/World.
--   Shared/Reader: packet_reader.rs and `Timestamp::write` and `read` of impls/native/timestamp.rs, over
--     Shared/Bytes, the crate byteorder.
--   Shared/Reference: `Ref` of reference.rs, over a store of cells, in its two variants.
--     Reference/Threads: the variant over a mutex, with threads that step in any order.
--   Shared/Ports: find_available_port.rs and find_my_ip_address.rs.
--
-- Client: client/src. The trait `ClientSocketTrait` is the record `ClientSocket`; Client/Native,
-- Client/Wasm and Client/Miniquad fill it with the sockets of impls/native, impls/wasm_bindgen and
-- impls/miniquad, and Client/Conditioner with the conditioner of link_conditioner.rs over any of them.
--   Client/Wasm/Setup: the callbacks of impls/wasm_bindgen/webrtc_internal.rs that open the channel. The
--     browser fires any callback that is registered; its calls are logged.
--   Client/Miniquad/Objects: `JsObject` of impls/miniquad/shared.rs and the table `js_objects` of
--     impls/miniquad/naia_socket.js, with the memory that Rust copies an object into; Objects/Runs:
--     what crosses between Rust and the script. Client/Miniquad/Utf8: `toUTF8Array` of the script.
--   Client/Miniquad/Page: `send_u8_array` and `resend_dropped_messages` of the
--     script, which fill the parameter of Client/Miniquad.
--
-- Server: server/src. An `async fn receive` is modelled by its state between two awaits: `poll` takes a
-- wake-up to the next await or to the result, so that every interleaving is a list of wake-ups, and a
-- call that `select!` drops is one whose state is forgotten. The trait `ServerSocketTrait` is the
-- record `ServerSocket`; Server/Webrtc and Server/Udp fill it with the sockets of impls/webrtc and
-- impls/udp, and Server/Conditioner with the conditioner of link_conditioner.rs over any of them.
-- Server/Session: impls/webrtc/session.rs; Session/Listen: its tasks, which step in any order.
--
-- Handshake: Client/Wasm/Setup with Server/Session. How the browser writes a request and reads a
-- response is a parameter, with what a theorem asks of it among its hypotheses.
--
-- Demo: Demo/App is demo/client/wasm_bindgen/src/app.rs, over any connection; Demo/App/Packets gives it one
-- of two lists, Demo/App/Returns one that comes to an end, and Demo/App/Conditioned a client socket behind
-- Client/Conditioner. Demo/Exchange lets it talk to the body of the loop of
-- demo/server/src/main.rs in turns, in each of which the server is up or down; Demo/Host is that loop, over a server
-- socket behind Server/Conditioner, and Demo/Host/Webrtc takes Server/Webrtc for it. Demo/Stage is
-- demo/client/miniquad/src, over Client/Miniquad behind Client/Conditioner. Demo/Loop: loop_native.rs and
-- loop_wasm.rs of demo/client/wasm_bindgen/src; Loop/Browser: the client in the latter, over Client/Wasm. Demo/Reload: websocket.rs of
-- demo/client/miniquad/dev_http_server/src.
--
-- Fuel: the loop of the client's conditioner takes one unit for each answer of the inner socket, so one
-- more than the packets that it gives is enough; the body of a session request takes two for each line
-- and one for the end; `update` of the demo
-- one for each packet or error and one more. All other loops recurse on what they run over.
--
-- Laws of parameters, each with an instance in Tests: a heap pops a greatest item (`IsLawful` of
-- Shared/Heap), the random source keeps to half-open ranges (`IsLawful` of Shared/World, `IsRand`,
-- `IsRandom`), the clock does not go back (`IsMonotone`), byteorder is big-endian (`IsBigEndian`),
-- and the allocator behind `reserve` gives at least what it is asked for. The JSON parser is arbitrary. A
-- configuration is valid (`IsValid`) where its jitter does not exceed its latency and their sum is
-- below 2 ^ 32; the three configurations of the source are.
--
-- Not modelled: the arithmetic of `f32` and the rounding of `f64`; `connect` of naia_socket.js, which
-- mirrors webrtc_internal.rs; logging; the printing of errors; the start-up of the demo programs, and
-- the file server behind which the development server has its socket.
pub mod Base
pub mod Shared
pub mod Client
pub mod Server
pub mod Demo
pub mod Handshake
pub mod Tests
