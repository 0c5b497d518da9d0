-- ===== src/Gateway.antt =====
-- camera_gateway/: the server that takes framed packets from cameras and streams them to viewers.
-- `State` holds its data, `Frames` the reassembly of packets, `Viewers` the send queues, `Sender` the
-- sending thread's work on one viewer, `Server` the handlers and the event loop.
pub mod State
pub mod Frames
pub mod Viewers
pub mod Sender
pub mod Server
