-- ===== src/H264Encoder/Lifetime.antt =====
-- `initEncoder` and `destroyEncoder` against the protocol of the media library.
use edgevision_rv1126b.Prelude.{
  ℕ, ◌≡◌, Bool, true, false, not, ◌&&◌, List, [], ◌∷◌, Option, none, some, arith, ◌==◌, ◌>>=◌,
}
use edgevision_rv1126b.H264Encoder.{
  H264Encoder, Call, sys_init, create_channel, set_channel_param, start_receiving, request_idr,
  alloc, stop_receiving, destroy_channel, wait_free, sys_exit, free, Sdk, init_encoder,
  destroy_encoder,
}

-- What the process holds of the library.
pub record Held : Type 0 where
  pub system : Bool
  pub channel : Bool
  pub memory : Option ℕ

abbrev pub nothing : Held
nothing = record { system = false; channel = false; memory = none }

abbrev guard : Bool → Held → Option Held
guard true held = some held
guard false held = none

abbrev lacks : Option ℕ → Bool
lacks none = true
lacks (some _) = false

abbrev holds : Option ℕ → ℕ → Bool
holds none block = false
holds (some held) block = held == block

-- The protocol: the library is entered once, a channel and a block of memory live within it, each of
-- them is taken when there is none and released when it is held, and the library is left without them.
unfoldable pub perform : Held → Call → Option Held
perform held sys_init = guard (not held.system) (record held { system = true })
perform held (create_channel attr) =
    guard (held.system && not held.channel) (record held { channel = true })
perform held (set_channel_param m p) = guard held.channel held
perform held start_receiving = guard held.channel held
perform held request_idr = guard held.channel held
perform held (alloc block) =
    guard (held.system && lacks held.memory) (record held { memory = some block })
perform held stop_receiving = guard held.channel held
perform held destroy_channel = guard held.channel (record held { channel = false })
perform held wait_free = guard held.system held
perform held sys_exit =
    guard (held.system && (not held.channel && lacks held.memory)) (record held { system = false })
perform held (free block) = guard (holds held.memory block) (record held { memory = none })

-- `none` is a breach of the protocol.
unfoldable pub replay : Held → List Call → Option Held
unfolding perform
replay held [] = some held
replay held (call ∷ calls) = perform held call >>= λ next. replay next calls

-- What the flags of an encoder say that it holds.
abbrev pub held_by : H264Encoder → Held
held_by encoder = record {
  system = encoder.sys_initialized;
  channel = encoder.channel_created;
  memory = encoder.input_buffer;
}

-- The encoder has not been started, or has been destroyed.
pub record IsIdle (encoder : H264Encoder) : Type 0 where
  pub no_system : encoder.sys_initialized ≡ false
  pub no_channel : encoder.channel_created ≡ false
  pub no_memory : encoder.input_buffer ≡ none

-- On an idle encoder, whatever the library answers: `initEncoder` keeps to the protocol, and its flags
-- say what it holds then, also where it fails half-way; `destroyEncoder` releases exactly that, so
-- that nothing is held and the encoder is idle; and a second `destroyEncoder` makes no call.
pub init_encoder-balanced :
    (encoder : H264Encoder) (sdk : Sdk)
    → IsIdle encoder
    → let started = init_encoder encoder sdk in
      let (closed, calls) = destroy_encoder started.encoder in
      (replay nothing started.calls ≡ some (held_by started.encoder))
      × (replay (held_by started.encoder) calls ≡ some nothing)
      × IsIdle closed
      × (destroy_encoder closed ≡ (closed, []))
unfolding init_encoder destroy_encoder replay
init_encoder-balanced encoder sdk idle = ground arith
