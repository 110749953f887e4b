-- ===== src/Lib.antt =====
-- mod_audio_stream: a FreeSWITCH module that streams a call's audio to a WebSocket server and plays
-- what the server sends back.
--
-- The program's parts. mod_audio_stream.c takes the user's commands and the media bug's callbacks
-- and hands them to audio_streamer_glue.cpp. The glue's `stream_frame` collects the call's frames
-- into chunks and gives each to the WebSocket client (ws_client.cpp), which queues it, frames it and
-- writes it to the socket from a thread of its own. What comes back is taken apart by the client's
-- `processFrame` and goes to the glue's callbacks: texts carry JSON with base64 audio (base64.cpp),
-- binaries raw audio. The audio is queued and `stream_frame_write` puts it into the call frame by
-- frame. stream_utils.cpp checks the server's URI and the texts that a user sends.
--
-- The files, and the code that each is about:
--   Prelude, Prelude/*: shared types, Boolean tests, lists over the native numbers, bytes and
--     machine words, bit operations, signed counters.
--   Base64 (base64.cpp). Encoder: `base64_chars`, `base64_encode`. Decoder: `pos_of_char`,
--     `decode`, `base64_decode`, an exception as a value of `Error`. LineBreaks:
--     `insert_linebreaks`, `encode_with_line_breaks`, `base64_encode_pem`, `base64_encode_mime`.
--     Groups states the encoding as RFC 4648 does. Tables, EncodeLaws, LineLaws, RoundTrip and Laws
--     hold the proofs.
--   StreamUtils (stream_utils.cpp). Utf8: `is_valid_utf8`, against the Unicode standard's form in
--     Utf8/Scalar. Uri: `validate_ws_uri`, against the grammar in Uri/Grammar. CString: a C string
--     as its bytes before the terminator, a read behind it as `none`.
--   WsClient (ws_client.cpp, ws_client.h). Frame: the frame that `sendFrame` builds. Receive:
--     `processFrame`. Send: `sendBinary`, `sendMessage`, `sendFrame`, `drainSendQueue`, over a
--     record `Network` that says what each call of `send` takes and which mask each frame gets.
--     Connection: `connect`, `disconnect` and `threadFunc` before and behind its poll loop, over a
--     record `Attempt` of what the system and OpenSSL answer, and over what the callbacks that it
--     calls do to the client; CallbackLaws, SetUp, ConnectionLaws and Closing are about it. Worker:
--     the poll loop, over the turns that happen; WorkerLaws and PollLoop are about it. FrameBytes,
--     FrameRoundTrip, ReceiveAppend, Overrun, Reassembly, Ending and Delivery are about the
--     receiving side, QueueLaws, SendLaws, DrainLaws, FlushLaws and PartialWrite about the sending
--     one, Delivered about both. Url: `setUrl`; UrlLaws is about it. Key: `sha1_and_base64` and
--     `randomBase64`, with the digest and the random bytes given; KeyLaws and RandomLaws are about
--     them. Handshake: `doHandshake` built with TLS support; HandshakeLines, HandshakeLaws and
--     HandshakeSuccess are about it.
--   Stream (audio_streamer_glue.cpp). Interfaces: what the callbacks rely on of FreeSWITCH's
--     buffers and of the Speex resampler, as records of operations and laws. Capture:
--     `stream_frame`. Playback: `stream_frame_write`, `stream_session_break` and the queueing at
--     the end of `onBinaryData`. Simple: a buffer and a resampler that have the laws. CaptureLaws,
--     Conserved, FrameLaws, Stalled and Misfit are about capture, PlaybackLaws and Responses about
--     playback.
--   LifeCycle (audio_streamer_glue.cpp, and `capture_callback` of mod_audio_stream.c in Callback).
--     Store: `private_t` and `destroy_tech_pvt`. Handlers: `stream_session_cleanup`,
--     `stream_session_send_text`, `stream_session_pauseresume`, `stream_session_destroy` and
--     `media_bug_close`, each run to its end. Threads: the first two statement by statement, and
--     what is reached when threads interleave them; Invariant, Kept, Safety, Alone, Refinement and
--     Race are about it, Released about the functions. Init: `stream_session_init` with
--     `stream_data_init`; InitCalls and InitLaws are about it. Metadata: `send_initial_metadata`.
--   Streamer (audio_streamer_glue.cpp). Message: `processMessage`, over what cJSON and the Opus
--     decoder answer. Events: `eventCallback` and `onBinaryData` with the resampling of what is
--     played. MessageLaws and EventLaws are about messages of type streamAudio. Callbacks:
--     `bindCallbacks` and `markCleanedUp`; CallbackLaws is about them, RawStream about a raw stream
--     from the server's frames to the call's. Settings: the constructor; SettingsLaws is about it.
--   Commands (mod_audio_stream.c). Backend: what the commands use of the glue and of FreeSWITCH, an
--     interface. Capture: `start_capture`, the `do_` functions, `send_text`. Dispatch:
--     `stream_function`. Session: the interface filled with LifeCycle. Locks, Returns, Starts and
--     Lifetime hold the proofs.
--   A Tests module beside each component evaluates the code on concrete inputs.
--
-- How the code is modelled. A byte string is a list of numbers, and a theorem that needs bytes says
-- so. Numbers are natural numbers with the wrap-around of `uint8_t`, `unsigned int` and `size_t`
-- written out where the code can reach it (u8, u32, u64). State is a record that each operation
-- takes and returns; calls of callbacks, of `sendFrame` for a pong and of `writeBinary` are lists in
-- the order of the calls. A loop is structural where the code walks over its input, else it runs on
-- fuel: `base64_encode` has a round for each byte, `insert_linebreaks` for each character of the
-- text, `is_valid_utf8` for each byte and the terminator, `processFrame` for each byte in the
-- buffer, `sendFrame` for each byte of the frame, `drainSendQueue` for n * n + n rounds on a queue of
-- n items: a failure adds to the retries, of which there are at most n, and all else shortens the
-- queue.
--
-- `doHandshake` reads its header lines on fuel of one round more than there are bytes, since each
-- line takes one. A command's result that reads through a null pointer is `none`. `atoi` of a number
-- that does not fit an `int`, which C leaves undefined, is what glibc gives.
--
-- Not modelled: the registration of the module with FreeSWITCH, and `create` of `AudioStreamer`,
-- which is the constructor, `bindCallbacks` and `connect` one after another. FreeSWITCH, cJSON,
-- Opus, SHA-1, OpenSSL, the Speex resampler and the random generator are parameters. Outside
-- LifeCycle/Threads each operation runs alone on its state, and a failed trylock is an argument.
-- `sendFrame` hands OpenSSL the length as an `int`, so frames are taken to be shorter than 2^31
-- bytes there.
pub mod Prelude
pub mod Base64
pub mod StreamUtils
pub mod WsClient
pub mod Stream
pub mod LifeCycle
pub mod Commands
pub mod Streamer
