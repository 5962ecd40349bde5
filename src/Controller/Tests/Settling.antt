-- ===== src/Controller/Tests/Settling.antt =====
-- Own steps of the loop after a change.
use gatus_sidecar.Prelude.{ℕ, ◌≡◌, refl, ◌≤◌, ◌⊎◌, true, false, [], ◌∷◌}
use gatus_sidecar.Registry.{notify}
use gatus_sidecar.Controller.Wakeup.{
  World, Step, Steps, next, done, stored, snapshot, ended, signalled, received, started,
}
use gatus_sidecar.Controller.Wakeup.Settling.{
  IsOwn, OwnSteps, none_yet, one_more, IsQuiet, work_left, settles,
}
use gatus_sidecar.Controller.Tests.{registry, filled, shop, api, first, idle, changing, told, timed}

changed_run : Steps (started registry 0) changing
unfolding gatus_sidecar.Registry.store gatus_sidecar.Prelude.Assoc.lookup
    gatus_sidecar.Prelude.Assoc.put
changed_run =
    next _ _ _
      (next _ _ _ (next _ _ _ (done _) (snapshot (started registry 0) refl))
        (ended first false refl))
      (stored idle shop (api ∷ []) filled refl)

own_run : OwnSteps changing 2 timed
unfolding notify
own_run = one_more (one_more none_yet (signalled changing 0 refl) tt) (received told refl refl) tt

settles_example :
    (2 ≤ work_left changing)
    × (((w' : World) × (s : Step timed w') × IsOwn s)
        ⊎ (IsQuiet timed × ((timed.failed ≡ true) ⊎ (timed.rendered ≡ changing.registry.entries))))
settles_example = settles registry 0 changing timed 2 changed_run own_run
