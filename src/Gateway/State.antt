-- ===== src/Gateway/State.antt =====
-- camera_gateway/include/TcpServer.h: the data of the server, and the constants of TcpServer.cpp.
use edgevision_rv1126b.Prelude.{ℕ, ◌*◌, Bool, List, []}
use edgevision_rv1126b.Prelude.Maps.{Map}

abbrev pub max_frame_size : ℕ
max_frame_size = 2 * 1024 * 1024

abbrev pub max_queued_frames : ℕ
max_queued_frames = 15

abbrev pub probe_bytes : ℕ
probe_bytes = 4

pub record Viewer : Type 0 where
  pub fd : ℕ
  -- The chunks still to be sent, the oldest first.
  pub send_queue : List (List ℕ)
  -- How much of the first chunk has been sent.
  pub current_offset : ℕ
  pub active : Bool

pub record ProducerState : Type 0 where
  pub recv_buffer : List ℕ

pub record TcpServer : Type 0 where
  pub viewers : Map Viewer
  pub producers : Map ProducerState
  pub pending_probe : Map (List ℕ)
  pub bootstrap_config : List ℕ
  pub bootstrap_frame : List ℕ
  -- The descriptors that the server has taken out of epoll and closed, the last one first.
  pub closed : List ℕ

-- The state behind the constructor.
abbrev pub initial : TcpServer
initial = record {
  viewers = [];
  producers = [];
  pending_probe = [];
  bootstrap_config = [];
  bootstrap_frame = [];
  closed = [];
}
