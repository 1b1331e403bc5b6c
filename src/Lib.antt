-- ===== src/Lib.antt =====
-- herdr-mobile: a Host (crates/herdr-relay) and a mobile Device talk over a relay
-- (crates/herdr-relay-hub), end to end encrypted. The crate crates/herdr-relay-proto holds what the
-- sides share. This library models the core of the three crates and proves what makes it correct.
--
-- How the parts interact. A Host issues a phrase of six words (Proto.Phrase) with a routing handle
-- and shows both as a pairing URI and its QR code, for ten minutes and three attempts at most
-- (Host.Pairing); the text of the URI and its parser are Proto.PairingUri and Proto.Percent. Once
-- enrolled, the Device is an entry of the Host's list (Host.Store). Each connects to the relay,
-- which checks the connection and its registration (Hub.Connection, with the limiters of
-- Hub.Limits) and joins it to the room of its handle (Hub.Session), whose errors are close codes
-- (Proto.Codes). While no Device is there, the Host may have it woken by a push (Hub.Push). Once
-- joined, the relay forwards the frames of each to the other (Hub.Pump), and the two ends exchange
-- envelopes as records that are compressed, cut into fragments and encrypted (Host.Codec);
-- EndToEnd puts the two together. The Host reads the pane that the Device watches (Host.Watch) on
-- a schedule (Host.Scheduler). It checks the keys that the Device sends (Host.KeyMap), makes calls
-- of Herdr of its input (Host.Input), holds a submit while the agent works (Host.Bridge), and
-- keeps its sessions so that a revocation can close them (Host.Registry).
--
-- The files and what they model:
--   Base            shared names, tests on numbers, lists, results, texts, `str` methods, maps as
--                   association lists, and counts of events in a second.
--   Proto.Codes     crates/herdr-relay-proto/src/codes.rs: CloseCode with code, name, from_code.
--   Proto.Percent   crates/herdr-relay-proto/src/handle.rs: percent_encode and percent_decode.
--   Proto.PairingUri  the rest of handle.rs: Handle's text, PairingUri::build and PairingUri::parse
--                   (parse_query is parse_query with add_fields; check_fields is what follows it).
--   Proto.Phrase    crates/herdr-relay-proto/src/phrase.rs: Phrase::generate, parse_canonical,
--                   display_form, normalize, segment_words (its loop is segment_from).
--   Host.Codec      crates/herdr-relay/src/frame_codec.rs; Host.Codec.Transport adds
--                   Transport of crates/herdr-relay/src/noise.rs and receive_frame of
--                   crates/herdr-relay/src/relay/connection.rs.
--   Host.Scheduler  crates/herdr-relay/src/watch/scheduler.rs: PaneScheduler. `fire` is `rearm`, then
--                   `issue`.
--   Host.KeyMap     crates/herdr-relay/src/watch/key_map.rs: validate_key.
--   Host.Registry   crates/herdr-relay/src/relay/registry.rs: SessionRegistry.
--   Host.Pairing    crates/herdr-relay/src/pairing.rs: encode_qr, LivePhrase::generate
--                   (generate_live), PairingSession.
--   Host.Store      crates/herdr-relay/src/store.rs: DeviceStore and its file, with
--                   write_restricted_file of crates/herdr-relay/src/config.rs.
--   Host.Input      crates/herdr-relay/src/watch/input.rs: forward_input, reconcile_line (its loop is
--                   delete_loop) and send_typed_text.
--   Host.Bridge     send_input, require_watched and validate_send_input of the same file;
--                   Host.Bridge.Deferred adds crates/herdr-relay/src/watch/held_input.rs.
--   Host.Watch      watch_pane and unwatch_pane of crates/herdr-relay/src/watch/requests.rs,
--                   resynchronize of watch/run_loop.rs; Host.Watch.Poll adds poll_scheduler of that
--                   file and handle_pane_updated of watch/incoming.rs.
--   Hub.Limits      crates/herdr-relay-hub/src/routes/limits.rs: IpRateLimiter, FrameRateLimiter.
--   Hub.Session     crates/herdr-relay-hub/src/session.rs: SessionMap. `register` is
--                   `finish_teardown`, then `register_host` or `register_device`.
--   Hub.Push        crates/herdr-relay-hub/src/routes/push.rs: Store, Push::receive.
--   Hub.Connection  crates/herdr-relay-hub/src/routes/connection.rs and routes/registration.rs:
--                   drive_connection up to the join.
--   Hub.Pump        crates/herdr-relay-hub/src/relay.rs: run_peer, as a run over the events of its
--                   `select!`, and what follows the loop.
--   EndToEnd        a frame of the codec on a Device's connection, through the relay's pump to the
--                   Host's receive_frame.
-- The modules below a component's hold its proofs, and the Tests modules run it on concrete inputs.
--
-- How the code is read. A method that changes its state returns the new state. A mutex makes each
-- method one step, so an interleaving of tasks is a sequence of calls (Hub.Session.World).
-- Instants and durations are numbers of nanoseconds, and a call is given the clock's reading.
-- Texts are the bytes of their UTF-8 form. A `u8`, `u16` or `u32` is a natural number, with its
-- wrap-around written out where the code casts; the u64 generation of the push store has no
-- overflow. A HashMap is an association list; the proofs use it only through its lookups and its
-- size, but for the eviction of the push store, whose generations are distinct.
--
-- A handler of the bridge is a function of its state, and the calls of Herdr that it makes are kept
-- in the state, in order, each with whether it succeeded. The composer lines, which the bridges of
-- all Devices share under one lock, are a field of the bridge: a run is of one bridge, with no
-- other's writes to them in between.
--
-- Parameters: flate2 (what its encoder makes of a buffer, and what successive reads of its decoder
-- yield), the state of a session of the crate snow, the base64 engine, serde_json's parsers, the
-- push providers, whether a tokio channel is closed, the crates qrcode and blake2, the random draws,
-- the graphemes of a text, what Herdr answers and which of its calls succeed, the hash of a frame,
-- the JSON codec of the device list, and which calls of the file system succeed. What is assumed of
-- them is a record of laws (ZlibLaws, NoiseLaws, Base64Laws, GraphemeLaws, CodecLaws) that the
-- theorems which need it name.
--
-- Recursion: `chunks` runs on fuel, one step for each byte of the record, which is enough since each
-- chunk takes at least one byte; `delete_loop` runs on as many steps as graphemes are to go, which is
-- enough since each call deletes one at least; all other loops recurse on the list that they consume.
--
-- Not modelled: the handshakes of noise.rs, which only call the crate snow; the heartbeat's timer;
-- the reconnect backoff; the agent statuses, trees and actions that the bridge passes on; the
-- download of the word list; configuration, key storage, logging and metrics; and the mobile app,
-- which is Dart.
pub mod Base
pub mod Proto
pub mod Host
pub mod Hub
pub mod EndToEnd
