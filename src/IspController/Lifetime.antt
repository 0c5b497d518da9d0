-- ===== src/IspController/Lifetime.antt =====
-- Any sequence of `start` and `stop` against the protocol of the rkaiq library.
use edgevision_rv1126b.Prelude.{
  ℕ, ◌≡◌, refl, Bool, true, false, List, [], ◌∷◌, ◌++◌, Option, none, some, arith, ◌==◌,
  if◌then◌else◌, ◌>>=◌, ◌∙◌, Option-cases, inl, inr,
}
use edgevision_rv1126b.Prelude.Int.{ℤ}
use edgevision_rv1126b.IspController.{
  IspController, Aiq, Call, sysctl_init, sysctl_start, sysctl_stop, sysctl_deinit, create, start,
  stop,
}

-- The context that is held, and whether it streams.
pub data Held : Type 0 where
  nothing : Held
  context : (c : ℕ) (streams : Bool) → Held

-- The protocol: one context at a time; it is started and stopped in turns, and released when it does
-- not stream. `none` is a breach.
unfoldable pub perform : Held → Call → Option Held
perform nothing (sysctl_init c) = some (context c false)
perform (context c false) (sysctl_start d) = if c == d then some (context c true) else none
perform (context c true) (sysctl_stop d) = if c == d then some (context c false) else none
perform (context c false) (sysctl_deinit d) = if c == d then some nothing else none
perform _ _ = none

unfoldable pub replay : Held → List Call → Option Held
unfolding perform
replay held [] = some held
replay held (call ∷ calls) = perform held call >>= λ next. replay next calls

abbrev pub held_by : IspController → Held
held_by isp = elim isp.ctx [ none ↦ nothing | some c ↦ context c isp.running ]

abbrev pub is_some : Option ℕ → Bool
is_some none = false
is_some (some _) = true

-- Between two calls a context is kept just while it streams.
abbrev pub IsSettled : IspController → Type 0
IsSettled isp = isp.running ≡ is_some isp.ctx

pub data Op : Type 0 where
  starts : (aiq : Aiq) → Op
  stops : Op

abbrev pub operate : IspController → Op → IspController × List Call
operate isp (starts aiq) = let (after, answer, calls) = start isp aiq in (after, calls)
operate isp stops = stop isp

unfoldable pub run : IspController → List Op → IspController × List Call
run isp [] = (isp, [])
run isp (op ∷ ops) =
    let (after, calls) = operate isp op in
    let (last, later) = run after ops in (last, calls ++ later)

operate-IsSettled :
    (isp : IspController) (op : Op)
    → IsSettled isp
    → (replay (held_by isp) (operate isp op).1 ≡ some (held_by (operate isp op).0))
      × IsSettled (operate isp op).0
unfolding start stop replay
operate-IsSettled isp (starts aiq) h = ground arith
operate-IsSettled isp stops h = ground arith

replay-append :
    (held : Held) (xs ys : List Call)
    → replay held (xs ++ ys) ≡ (replay held xs >>= λ between. replay between ys)
unfolding replay
replay-append held [] ys = refl
replay-append held (call ∷ calls) ys = elim (Option-cases (perform held call)) [
  | inl breach ↦ rw breach
  | inr (next, performed) ↦ rw performed (replay-append next calls ys)
]

run-IsSettled :
    (isp : IspController) (ops : List Op)
    → IsSettled isp
    → (replay (held_by isp) (run isp ops).1 ≡ some (held_by (run isp ops).0))
      × IsSettled (run isp ops).0
unfolding run replay
run-IsSettled isp [] h = (refl, h)
run-IsSettled isp (op ∷ ops) h =
    let (first, settled) = operate-IsSettled isp op h in
    let (later, still) = run-IsSettled (operate isp op).0 ops settled in
    (
      replay-append (held_by isp) (operate isp op).1 (run (operate isp op).0 ops).1
          ∙ rw first later,
      still,
    )

-- The destructor.
stop_idle :
    (isp : IspController)
    → IsSettled isp
    → (replay (held_by isp) (stop isp).1 ≡ some nothing) × ((stop isp).0.running ≡ false)
unfolding stop replay
stop_idle isp h = ground arith

-- However `start` and `stop` are called and whatever the library answers, the calls keep to the
-- protocol: a context is taken when there is none, kept just while it streams, also after a `start` that
-- fails half-way, and released with the destructor.
pub run-balanced :
    (sensor_id fps : ℤ) (iq_dir : List ℕ) (ops : List Op)
    → let (isp, calls) = run (create sensor_id fps iq_dir) ops in
      (replay nothing calls ≡ some (held_by isp))
      × IsSettled isp
      × (replay nothing (calls ++ (stop isp).1) ≡ some nothing)
unfolding create
run-balanced sensor_id fps iq_dir ops =
    let (made, settled) = run-IsSettled (create sensor_id fps iq_dir) ops fresh in
    let (isp, calls) = run (create sensor_id fps iq_dir) ops in
    (made, settled, replay-append nothing calls (stop isp).1 ∙ rw made ((stop_idle isp settled).0))
  where
    fresh : IsSettled (create sensor_id fps iq_dir)
    fresh = refl
