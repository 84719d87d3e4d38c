-- ===== src/Lib.antt =====
-- notifiapp-transport: an encrypted, prioritised frame transport over WebSocket.
--
-- A client (src/ws/client/) connects to a server (src/ws/server/), agrees on a protocol version by a
-- text message, runs a Noise XX handshake (src/crypto.rs), authenticates, and then exchanges frames
-- (src/frame.rs). Frames to send pass through a weighted fair scheduler (src/scheduler.rs), are
-- encoded with a length prefix, cut into chunks that Noise encrypts, and sent as one WebSocket message
-- each; the receiver decrypts each message and reassembles the frame.
--
-- A second, plain transport goes over HTTP (src/http/): requests and answers, and a stream of
-- server-sent events that the client reads line by line and opens again when it ends.
--
-- Files, paths from the repository's root:
--   Common, Common/*      helpers: Boolean tests, lists over native numbers, results, texts
--   Error, State, Auth    src/error.rs, src/state.rs, src/auth.rs
--   Scheduler             src/scheduler.rs: WfqScheduler::new, enqueue, pop, is_empty, len
--   Frame                 src/frame.rs: encode_frame, decode_frame, FrameAccumulator::feed
--   Crypto                src/crypto.rs: NoiseSession and its methods
--   Crypto/Pattern        what snow documents of a handshake by the pattern XX
--   Crypto/Keys           src/crypto.rs: generate_keypair
--   Utils                 src/utils.rs: validate_protocol_string
--   Backoff               src/ws/client/backoff.rs: the next_delay of each strategy
--   Ws, Ws/Gloo           src/ws/client/stream.rs: the stream of messages, natively and in wasm32
--   Wire                  what client and server share: `transmit` is the body of their sending
--                         loops, `receive_chunk` what they make of a binary message
--   Client/Config         src/ws/client/config.rs: WsClientConfig, its constructor and setters
--   Client/State          src/ws/client/mod.rs and cmd.rs: the methods of WsClient
--   Client/Receive        src/ws/client/connection_loop.rs: recv_one_frame
--   Client/Handshake      the same file: handle_version_handshake
--   Client/Secure         the same file: handle_noise_handshake, handle_auth
--   Client/Loop           the same file: run_message_loop
--   Client/Connection     the same file: connection_loop, one pass of its outer loop at a time
--   Server/Config         src/ws/server/config.rs: WsServerConfig and its constructors
--   Server/Accept         src/ws/server/mod.rs: the handshakes of accept_ws_session
--   Server/Session        src/ws/server/session.rs: run_server_session
--   Server/Task           the same with its end, and is_alive of src/ws/server/handle.rs
--   Server/Handle         src/ws/server/handle.rs: the handle, its clones, drops and releases
--   Server/Launch         src/ws/server/mod.rs: accept_ws_session as a whole
--   Establishment         a client and a server that connect: their handshakes in one run
--   Establishment/Service the same with the calls that follow
--   Establishment/Refusal the same for a client that is not authorised
--   Establishment/Talk    the same with anything that both applications say then
--   Conversation, Conversation/Calls
--                         requests and responses over the connection, one after the other
--   Conversation/Ledger, Conversation/Talk, Conversation/Settling, Conversation/Order
--                         requests, responses, events and heartbeats of the server in any order,
--                         against an abstract account
--   Conversation/Heartbeat, Conversation/Idle
--                         a heartbeat of the server, and one of the client
--   Conversation/Oversize
--                         a frame that is too long for the session
--   Transport, Transport/*
--                         src/transport.rs as an interface with laws; src/ws/client/transport.rs and
--                         src/http/transport.rs as its implementations
--   Runtime               src/runtime.rs in the build for wasm32: sleep_until, timeout
--   Http/Lines            src/http/client.rs: the parser of events inside connect_sse
--   Http/Subscription     the same file: connect_sse, sse_loop
--   Http/Libraries        what the HTTP client calls of reqwest and url
--   Http/Config           src/http/client.rs: HttpClientConfig
--   Http/Client           src/http/client.rs and src/http/transport.rs: the methods of HttpClient
--   Http/Emitter          src/http/sse.rs: SseEmitter, sse_pair, broadcast_sse_json
--   Http/Push             events from an emitter to the handler of a client
--   Tests, Tests/*        concrete parameters, tests, and the theorems applied to them
-- The other files hold theorems and are named for what they are about.
--
-- What is concurrent is sequential here: each `select!` is an event that says which branch was
-- chosen, with the time at which it was, and the loops are functions of lists of events. The network
-- is a function that gives the error, if any, of the n-th send; the channel of the client's commands
-- one that gives the answer of the n-th try_send. The crates postcard, snow, reqwest, url, axum
-- and serde_json, floating point and the application's hooks are parameters. The build with the feature
-- `crypto` and without wasm32 is the one modelled, the stream also in the build for wasm32. Logging
-- and printing are left out.
--
-- Fuel: `chunks` has the length of the payload, and each round takes an element off it; the sending
-- loop of the server has one more than the frames in the scheduler, and that of the client one more
-- than these and the commands that come while it sends, and each round takes a frame off the
-- scheduler. The line loop of the event stream has the length of what is left over, and each round
-- takes a line off it.
--
-- Not modelled: the buffers of the channels that accept_ws_session makes, how axum builds a response
-- in src/http/sse.rs, and src/lib.rs, src/ws/mod.rs and src/http/mod.rs, which only re-export.
pub mod Common
pub mod Error
pub mod Auth
pub mod State
pub mod Scheduler
pub mod Frame
pub mod Crypto
pub mod Utils
pub mod Backoff
pub mod Ws
pub mod Wire
pub mod Client
pub mod Server
pub mod Http
pub mod Establishment
pub mod Conversation
pub mod Transport
pub mod Runtime
pub mod Tests
