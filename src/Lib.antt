-- ===== src/Lib.antt =====
-- A verification library for edgevision, the camera of an RV1126B board and its streaming gateway.
--
-- The camera process captures NV12 frames, hands each to an AI detector and to an H.264 encoder over
-- bounded queues, and sends the encoded packets to the gateway, each behind its length. The gateway
-- (camera_gateway/src/TcpServer.cpp) puts the packets together again and broadcasts them over HTTP
-- to any number of viewers. Frames run from the capture thread to the queues, from the encoder through
-- FramedTcpClient over TCP to the event loop of the gateway, and from there through the send queue of
-- each viewer to its sending thread.
--
-- The files, and what they model:
-- - Prelude, Text: Boolean tests, lists, maps and integers over the native numbers; ASCII literals.
-- - NewestQueue: the abstract queue that throws its oldest items away; no code of its own.
-- - Frame, FrameQueue (capture/include/CapturedFrame.h, FrameQueue.h): `push`, `wait_and_pop` and
--   `stop` are the methods, each atomic under the mutex. A thread that waits is the outcome `blocked`.
-- - RingBuffer (camera/src/RingBuffer.cpp): `push` and `pop` with their two cursors.
-- - Wire: the length in front of a packet, `htonl` and `ntohl`.
-- - Socket: what the calls of `send` answer; a parameter, with the documented contract that a positive
--   count is at most the size asked for.
-- - Stream (stream/src/FramedTcpClient.cpp): `connect_once`, `send_all`, `send_packet`. The loop of
--   `sendAll` is on fuel; `send_packet-Delivered` shows how much is enough when the socket asks for a
--   bounded number of retries in a row. (Without that bound the code may try for ever.)
-- - Delivery (the encode thread of camera/src/main.cpp): the calls of `sendPacket` over one connection,
--   and what the gateway hands on of them.
-- - AnnexB (top of TcpServer.cpp): `findStartCode`, `containsNalType`, `extractBootstrapConfig`. The
--   fuel is the length of the data and one: each round moves on.
-- - Gateway.State, Frames, Viewers, Sender, Server (TcpServer.cpp): the three maps of the server, the
--   reassembly of packets, the broadcast, the sending thread and the event loop, one function per
--   handler. Descriptors that are closed are kept in a list. The fuel of the reassembly is the length
--   of the buffer and one, that of a viewer's turn is the number of bytes queued and one.
-- - Ai, Overlay (ai/include/AiTypes.h, camera/src/DetectionOverlay.cpp): the boxes drawn on the Y plane, over an image whose
--   bytes are a list. A coordinate that `std::lround` rounded is an integer; the rounding is a
--   parameter.
-- - Floats: the `float` operations that the detector uses, an interface; the theorems that need
--   laws of them take these as a hypothesis.
-- - Detector (ai/src/RknnDetector.cpp): `initialize` and the destructor over the answers of the RKNN
--   runtime (Setup), the label file (Labels), `fillLetterboxedRgb` (Letterbox), the tensor layout
--   (Tensor), the decoding of rows (Rows), `applyNms` (Nms), and `infer`, which puts these together over
--   the answers of the runtime (Infer). `std::sort` is a parameter, and sorts
--   only what `>` orders weakly: no NaN. The measured times of the result are not modelled.
-- - Memory: `memcpy` on byte buffers and the copy of an image row by row, which the camera and the
--   encoder share.
-- - CameraDevice (camera/src/CameraDevice.cpp): the opening of the device and `captureFrame`, over the
--   answers of V4L2. A dequeued frame comes with what its mapped buffer holds.
-- - H264Encoder (camera/src/H264Encoder.cpp): `initEncoder`, `encode` and `destroyEncoder` over the
--   answers of the media library, with the calls that they make.
-- - IspController (camera/src/IspController.cpp): `start` and `stop`, with the calls that they make.
-- - Metrics (metrics/src/MetricsCollector.cpp): the counters, `sample` over any `double`, and
--   `readProcSample` over the text of the files in /proc (Proc), with the `>>` of numbers (Extraction).
-- - Pipeline (camera/src/main.cpp): the five threads of the camera process over the frame queues, the
--   overlay and the counters. Each thread stands at a point of its loop, and an action lets it make one
--   access; the answers of camera, encoder, client and detector come with the action. A call of
--   `sendPacket` may take any number of turns; each other call takes one. Setup makes
--   the queues, the overlay and the numbers that the threads read out of the configuration; the other
--   constructors that `main` calls are those of the components.
-- - EventLogger (event/src/EventLogger.cpp): `escape_json`, read back by an independent reader of JSON
--   strings, and the line that `write` puts together (Lines), with a reader of lines (Framing). What
--   the output of times and floating point numbers prints is a parameter.
-- - FileUtils (common/include/FileUtils.h): `ensureDirectory` and `parentPath` over any file system,
--   in which files and links may stand where a directory is wanted.
-- - AppConfig (camera/src/AppConfig.cpp): `from_environment` over any environment; `atoi` and `atof` are
--   parameters, and `none` is an overflow of `int`.
--
-- A byte is a number below 256 in a list; sizes are natural numbers, with the wrap-around of `uint32_t`
-- and `uint64_t` written out. A `std::map` is a list kept in the order of its keys.
--
-- Not modelled: output on the console, sockets and epoll themselves (their answers are inputs), the
-- allocation of memory, wake-ups by condition variables (a sleeping thread is a state, not an event),
-- and interleavings finer than one event of the gateway and one round of its sending thread: a round
-- may really run between two packets of one read. The opening and the
-- flushing of files and the output of the metrics are not modelled.
pub mod Prelude
pub mod Text
pub mod Frame
pub mod Memory
pub mod CameraDevice
pub mod NewestQueue
pub mod FrameQueue
pub mod RingBuffer
pub mod Ai
pub mod Overlay
pub mod Floats
pub mod EventLogger
pub mod FileUtils
pub mod AppConfig
pub mod H264Encoder
pub mod IspController
pub mod Metrics
pub mod Pipeline
pub mod Detector
pub mod AnnexB
pub mod Wire
pub mod Socket
pub mod Stream
pub mod Delivery
pub mod Gateway
