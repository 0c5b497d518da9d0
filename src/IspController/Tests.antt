-- ===== src/IspController/Tests.antt =====
-- A library that fails to start once, and starts then.
use edgevision_rv1126b.Prelude.{◌≡◌, refl, true, false, List, [], ◌∷◌, ◌++◌, some}
use edgevision_rv1126b.Prelude.Int.{pos}
use edgevision_rv1126b.Text.{ascii}
use edgevision_rv1126b.IspController.{
  Aiq, sysctl_init, sysctl_start, sysctl_stop, sysctl_deinit, create, start, stop,
}
use edgevision_rv1126b.IspController.Lifetime.{
  nothing, Op, starts, stops, run, replay, held_by, IsSettled, run-balanced,
}

abbrev willing : Aiq
willing = record {
  enumerates = true;
  sensor_name = ascii "sc850sl";
  context = some 4;
  prepares = true;
  starts = true;
}

abbrev ops : List Op
ops = starts (record willing { starts = false }) ∷ starts willing ∷ starts willing ∷ stops ∷ []

run_test :
    (run (create (pos 0) (pos 30) []) ops).1
    ≡ sysctl_init 4
      ∷ sysctl_deinit 4
      ∷ sysctl_init 4
      ∷ sysctl_start 4
      ∷ sysctl_stop 4
      ∷ sysctl_deinit 4
      ∷ []
unfolding run create start stop
run_test = refl

run-balanced_example :
    let (isp, calls) = run (create (pos 0) (pos 30) []) ops in
    (replay nothing calls ≡ some (held_by isp))
    × IsSettled isp
    × (replay nothing (calls ++ (stop isp).1) ≡ some nothing)
run-balanced_example = run-balanced (pos 0) (pos 30) [] ops
