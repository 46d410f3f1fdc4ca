-- ===== src/Tests/Primary.antt =====
-- A primary process of src/worker/src/index.ts with two workers.
use js_sidecar.Prelude.{◌≡◌, refl, true, [], ◌∷◌}
use js_sidecar.Worker.Primary.{
  Primary, signal, handle, fork_worker, fork_all, new_primary, Reachable, started, handled,
}
use js_sidecar.Worker.Primary.Shutdown.{Good, Reachable-Good}

abbrev pub two : Primary
two = record new_primary { workers = 1 ∷ 0 ∷ []; forked = 2 }

abbrev stopping : Primary
stopping = record two { shutting_down = true; told = 1 ∷ 0 ∷ [] }

two_running : fork_all 2 new_primary ≡ two
unfolding fork_all fork_worker
two_running = refl

two-Reachable : Reachable 2 two
unfolding fork_all fork_worker
two-Reachable = started

Reachable-Good_example : Good 2 (handle signal two)
Reachable-Good_example = Reachable-Good 2 (handle signal two) (handled signal two-Reachable refl tt)
