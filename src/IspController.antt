-- ===== src/IspController.antt =====
-- camera/src/IspController.cpp: the image signal processor. The answers of the rkaiq library are
-- inputs; the calls that take, start, stop or release a context are listed in their order.
pub mod Lifetime
mod Tests
use edgevision_rv1126b.Prelude.{
  ℕ, Bool, true, false, not, List, [], ◌∷◌, ◌++◌, Option, none, some, if◌then◌else◌, is_empty,
}
use edgevision_rv1126b.Prelude.Int.{ℤ}

pub record IspController : Type 0 where
  pub sensor_id : ℤ
  pub fps : ℤ
  pub iq_dir : List ℕ
  pub ctx : Option ℕ
  pub running : Bool

unfoldable pub create : ℤ → ℤ → List ℕ → IspController
create sensor_id fps iq_dir = record {
  sensor_id = sensor_id;
  fps = fps;
  iq_dir = iq_dir;
  ctx = none;
  running = false;
}

-- The answers of the calls of `start`; those of setWBMode and setFrameRate change nothing.
pub record Aiq : Type 0 where
  pub enumerates : Bool
  pub sensor_name : List ℕ
  pub context : Option ℕ
  pub prepares : Bool
  pub starts : Bool

-- A call of the library that succeeded.
pub data Call : Type 0 where
  sysctl_init sysctl_start sysctl_stop sysctl_deinit : (context : ℕ) → Call

unfoldable pub stop : IspController → IspController × List Call
stop isp =
    let stopped = record isp { ctx = none; running = false } in
    elim isp.ctx [
      | none ↦ (stopped, [])
      | some c ↦ (stopped, (if isp.running then sysctl_stop c ∷ [] else []) ++ sysctl_deinit c ∷ [])
    ]

-- `start`, from the call of `sysctl_prepare` on.
unfoldable pub start_context : IspController → Aiq → ℕ → IspController × Bool × List Call
unfolding stop
start_context isp aiq c =
    let (stopped, released) = stop isp in
    if not aiq.prepares
    then (stopped, false, sysctl_init c ∷ released)
    else if not aiq.starts
    then (stopped, false, sysctl_init c ∷ released)
    else (record isp { running = true }, true, sysctl_init c ∷ sysctl_start c ∷ [])

unfoldable pub start : IspController → Aiq → IspController × Bool × List Call
unfolding start_context
start isp aiq =
    if isp.running
    then (isp, true, [])
    else if not aiq.enumerates
    then (isp, false, [])
    else if is_empty aiq.sensor_name
    then (isp, false, [])
    else elim aiq.context [
      | none ↦ (record isp { ctx = none }, false, [])
      | some c ↦ start_context (record isp { ctx = some c }) aiq c
    ]

unfoldable pub is_running : IspController → Bool
is_running isp = isp.running
