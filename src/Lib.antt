-- ===== src/Lib.antt =====
-- A model of the provider daemon of YARD: the Rust crates of packages/provider/crates, which put the
-- devices of a host at the service of a coordinator.
--
-- The parts and how they interact. The coordinator authorizes one reservation per device, and every
-- plane asks the session registry before it serves a token; a revocation goes out on a channel that
-- live streams listen to. For ADB a client's key is put to the reservation's holder by way of the
-- coordinator. When a reservation ends, the cleanup puts the device back to its baseline and spares
-- what the preload store protects. The media path reads what a device encodes, Android's by scrcpy as
-- H.264 and iOS's by RTP as HEVC, and hands a browser parameter sets out of band and access units of
-- length-prefixed units.
--
-- Which file models what (paths below packages/provider/crates):
--   Prelude/*            lists, texts, maps, words and bytes that the parts share
--   Adb/Message          adb-bridge/src/message.rs: Message::{new, empty, encode, read}, checksum
--   Adb/Key, Adb/Auth    adb-bridge/src/key.rs, auth.rs: PublicKey::parse, authenticate over the
--                        client's frames; RSA, base64, the digests and the challenge's random bytes
--                        are a parameter
--   Adb/Bridge           adb-bridge/src/bridge.rs: the table of streams and their pumps, as a machine
--                        whose events are the client's frames and the pumps' turns in any order
--   Core/Session         provider-core/src/session.rs: SessionRegistry, its state the authorizations
--                        and the log of the revocations sent
--   Core/Ports           provider-core/src/ports.rs: PortPool, PortLease, a lease being a held port
--   Core/AdbAuth         provider-core/src/adb_auth.rs: AdbAuthority, an attempt that waits being an
--                        entry of its table, and a timeout, an answer or a lost control plane an
--                        event; ActivityThrottle on a clock that is an argument
--   Core/Cleanup         provider-core/src/cleanup.rs: run_with_protected over a backend that is a
--                        function from calls to answers, with the calls recorded in order
--   Core/Preload         provider-core/src/preload.rs: PreloadStore over a directory whose every
--                        operation may fail, as the answers that are an argument say
--   Core/Tokens          provider-core/src/auth.rs: TokenVerifier over a JWT library that is a parameter
--   Core/Control         provider-core/src/control.rs, origins.rs: ControlClient over any handler of
--                        commands, as a machine; Core/Supervisor/Link makes the host one
--   Core/Supervisor/*    provider-core/src/supervisor.rs: Device is one device with the polls that
--                        change it, Cleaning is run_cleanup, Commands and Steps are handle and the
--                        loops of the host, with each poll in stages, Uploads is the part of
--                        server.rs that is done under the lock, Setup how it comes to its devices
--   Server/*             provider-core/src/server.rs: Access is authorize and authorize_preload, Client
--                        handle_client_message, and Viewer run_session, a machine whose events are
--                        what its loop may take up next; Uploads is install and preload, Pulls is
--                        list_files and pull_file, Files their names and bytes, Stills is
--                        screenshot and mjpeg; Frames and Messages are what
--                        yard-protocol/src/lib.rs and generated.rs put on the socket
--   Media/AnnexB         backend-android/src/h264.rs: split_annex_b, to_length_prefixed,
--                        ParameterSets
--   Media/Scrcpy         backend-android/src/scrcpy.rs: read_frame, read_handshake, pump_video,
--                        pump_audio, the control messages, read_device_message
--   Media/Hevc           backend-ios/src/hevc.rs: Depacketizer, ParameterSets, BitReader,
--                        decoder_configuration_record, pack_access_unit
--   Ios/Files, Ios/Paths, Ios/Drop   backend-ios/src/files.rs, drop.rs: Inbox over a file service that is
--                        a record of calls on a device, every call logged
--   Ios/Receive          backend-ios/src/media.rs: receive_video, from parsed RTP packets to the units,
--                        codecs and sizes that the publisher is told
--   Tests/*              runs on concrete inputs
--
-- Conventions. Numbers are natural numbers, and a cast to u16 or u32 is written as a remainder; bit
-- masks are written as quotients and remainders. A socket is the list of the bytes still to come, and
-- a read beyond its end fails. Errors are values without their texts. Locks make the calls on a shared
-- object one after another, so that a history is a list of calls. String::from_utf8_lossy is an
-- argument of the functions that use it. The device behind a backend is a state that each call may
-- change, and the calls are logged. The operation lock makes an authorization, an uninstall, the removal
-- of a preload, a withdrawal, an upload's install and a cleanup of a device one step each; a poll, which
-- holds it for one of its stages, is a step for each stage, and the commands that do not hold it are one
-- call, whose end is the step. How far a cleanup comes within its deadline, and what it leaves, is an
-- argument of the step. What happens while a file is pulled off a device are arguments too.
--
-- Fuel. The loops over a socket take at least twelve bytes a turn, and an aggregation's loop two, so
-- one more than the number of bytes is enough. The Exp-Golomb reader stops at 33 leading zeros, as the source does.
--
-- Not modelled. The channels of provider-core/src/audio.rs and video.rs, the server's routes and
-- headers, the keyframe requests' rate limit and the HID reports of backend-ios, the configuration
-- and the parsers of adb's output are left for later. The mock backend and the daemon's start have no
-- logic of their own; the coordinator, the web and the device apps are written in other languages.
pub mod Prelude
pub mod Adb
pub mod Media
pub mod Core
pub mod Server
pub mod Ios
pub mod Tests
