-- ===== src/AppConfig/Repaired.antt =====
-- What `fromEnvironment` guarantees of the numbers that the other components divide and count by.
use edgevision_rv1126b.Prelude.{
  ℕ, ◌+◌, ◌*◌, ◌^◌, ◌≤◌, ◌<◌, ◌≡◌, refl, ap, sym, ◌>>=◌, none, true, List, Option, some, arith,
  if-intro, lt→ltb, le→leb,
}
use edgevision_rv1126b.Prelude.Int.{ℤ, pos, negsuc, ltb_ℤ}
use edgevision_rv1126b.Overlay.{max_ℤ}
use edgevision_rv1126b.AppConfig.{
  AppConfig, times_three, positive_or, stale_frames, repair, read_config, from_environment,
}

abbrev pub IsPositive : ℤ → Type 0
IsPositive z = ltb_ℤ (pos 0) z ≡ true

-- A value after its repair: positive, and the value that was read if that was positive.
abbrev pub Repairs : ℤ → ℤ → Type 0
Repairs old new = IsPositive new × (IsPositive old → new ≡ old)

positive_or-Repairs : (z other : ℤ) → IsPositive other → Repairs z (positive_or z other)
positive_or-Repairs z other h =
    if-intro (Repairs z) (ltb_ℤ (pos 0) z) (λ t. (t, λ p. refl)) (λ f. (h, λ p. cc))

-- `z * 3` fits into an `int`.
abbrev pub Triples : ℤ → Type 0
Triples (pos n) = n * 3 < 2 ^ 31
Triples (negsuc n) = n * 3 + 3 ≤ 2 ^ 31

times_three-some : (z : ℤ) → Triples z → (t : ℤ) × (times_three z ≡ some t)
unfolding times_three
times_three-some (pos n) h = (pos (n * 3), rw (lt→ltb (n * 3) (2 ^ 31) h))
times_three-some (negsuc n) h = (negsuc (n * 3 + 2), rw (le→leb (n * 3 + 3) (2 ^ 31) h))

max_ℤ-IsPositive : (t : ℤ) → IsPositive (max_ℤ (pos 30) t)
max_ℤ-IsPositive (pos n) = ground arith
max_ℤ-IsPositive (negsuc n) = ground arith

module _ {F : Type 0} where
  stale_frames-Repairs :
      (c : AppConfig F)
      → Triples c.ai.infer_every_n_frames
      → (new : ℤ) × (stale_frames c ≡ some new) × Repairs c.overlay_stale_frames new
  unfolding stale_frames
  stale_frames-Repairs c h =
      let (t, e) = times_three-some c.ai.infer_every_n_frames h in
      if-intro (λ s. (new : ℤ) × (s ≡ some new) × Repairs c.overlay_stale_frames new)
        (ltb_ℤ (pos 0) c.overlay_stale_frames) (λ p. (c.overlay_stale_frames, refl, (p, λ q. refl)))
        (λ n. (max_ℤ (pos 30) t, rw e refl, (max_ℤ-IsPositive t, λ q. cc)))

  -- The configuration `d` after the repair of `c`.
  pub record Repaired (c d : AppConfig F) : Type 0 where
    pub interval : Repairs c.metrics_interval_sec d.metrics_interval_sec
    pub encode_capacity : Repairs c.encode_queue_capacity d.encode_queue_capacity
    pub ai_capacity : Repairs c.ai_queue_capacity d.ai_queue_capacity
    pub thickness : Repairs c.overlay_box_thickness d.overlay_box_thickness
    pub stale : Repairs c.overlay_stale_frames d.overlay_stale_frames
    pub every_n : Repairs c.ai.infer_every_n_frames d.ai.infer_every_n_frames
    pub others : d ≡ record c {
      metrics_interval_sec = d.metrics_interval_sec;
      encode_queue_capacity = d.encode_queue_capacity;
      ai_queue_capacity = d.ai_queue_capacity;
      overlay_box_thickness = d.overlay_box_thickness;
      overlay_stale_frames = d.overlay_stale_frames;
      ai = record c.ai { infer_every_n_frames = d.ai.infer_every_n_frames };
    }

  repair-Repaired :
      (c : AppConfig F)
      → Triples c.ai.infer_every_n_frames
      → (d : AppConfig F) × (repair c ≡ some d) × Repaired c d
  unfolding repair
  repair-Repaired c h =
      let (stale, e, r) = stale_frames-Repairs c h in
      (
        record c {
          metrics_interval_sec = positive_or c.metrics_interval_sec (pos 5);
          encode_queue_capacity = positive_or c.encode_queue_capacity (pos 5);
          ai_queue_capacity = positive_or c.ai_queue_capacity (pos 3);
          overlay_box_thickness = positive_or c.overlay_box_thickness (pos 4);
          overlay_stale_frames = stale;
          ai = record c.ai { infer_every_n_frames = positive_or c.ai.infer_every_n_frames (pos 1) };
        },
        rw e refl,
        record {
          interval = positive_or-Repairs c.metrics_interval_sec (pos 5) (ground arith);
          encode_capacity = positive_or-Repairs c.encode_queue_capacity (pos 5) (ground arith);
          ai_capacity = positive_or-Repairs c.ai_queue_capacity (pos 3) (ground arith);
          thickness = positive_or-Repairs c.overlay_box_thickness (pos 4) (ground arith);
          stale = r;
          every_n = positive_or-Repairs c.ai.infer_every_n_frames (pos 1) (ground arith);
          others = refl;
        },
      )

abbrev interval_of : {F : Type 0} → ℤ → Option (AppConfig F) → ℤ
interval_of other none = other
interval_of other (some d) = d.metrics_interval_sec

-- The interval of the metrics in particular.
pub repair_interval :
    {F : Type 0} (c d : AppConfig F)
    → repair c ≡ some d
    → d.metrics_interval_sec ≡ positive_or c.metrics_interval_sec (pos 5)
unfolding repair
repair_interval c d e = by_stale (stale_frames c) e
  where
    by_stale :
        (stale : Option ℤ)
        → (stale >>= λ frames. some (record c {
          metrics_interval_sec = positive_or c.metrics_interval_sec (pos 5);
          encode_queue_capacity = positive_or c.encode_queue_capacity (pos 5);
          ai_queue_capacity = positive_or c.ai_queue_capacity (pos 3);
          overlay_box_thickness = positive_or c.overlay_box_thickness (pos 4);
          overlay_stale_frames = frames;
          ai = record c.ai { infer_every_n_frames = positive_or c.ai.infer_every_n_frames (pos 1) };
        }))
          ≡ some d
        → d.metrics_interval_sec ≡ positive_or c.metrics_interval_sec (pos 5)
    by_stale none f = cc
    by_stale (some frames) f = sym (ap (interval_of (positive_or c.metrics_interval_sec (pos 5))) f)

-- Whatever the environment holds, if three times the `AICAM_INFER_EVERY_N` that is read fits into an
-- `int`: `fromEnvironment` returns, and in its configuration the two queue capacities, the interval of
-- the metrics, the thickness of the boxes, the frames that a box stays and the frames from one
-- inference to the next are positive; each of them that was read as positive is kept, and so is
-- everything else that was read.
pub from_environment-Repaired :
    {F : Type 0} (getenv : List ℕ → Option (List ℕ)) (atoi : List ℕ → ℤ) (atof : List ℕ → F)
    (default_score default_nms : F)
    → Triples (read_config getenv atoi atof default_score default_nms).ai.infer_every_n_frames
    → (config : AppConfig F) × (from_environment getenv atoi atof default_score default_nms
        ≡ some config)
      × Repaired (read_config getenv atoi atof default_score default_nms) config
unfolding from_environment
from_environment-Repaired getenv atoi atof default_score default_nms h =
    repair-Repaired (read_config getenv atoi atof default_score default_nms) h
