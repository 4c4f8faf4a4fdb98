-- ===== src/Footage/Rules/Desired.antt =====
-- The cameras that are to be paused are read without a throw and without a change.
use artesca_vss_console.Common.{
  try_catch-Returns, refl, Leaves, Leaves-bind, Leaves-catch, Returns, Returns-bind, Returns-pure,
}
use artesca_vss_console.Footage.{RunDeps}
use artesca_vss_console.Footage.Rules.{
  live_ingesting_cameras, desired_live_cameras, recorded_sensors,
}

module _ {W : Type 0} (deps : RunDeps W) (h : Returns deps.list_ingesting) where
  pub live_ingesting_cameras-Returns : Returns (live_ingesting_cameras deps)
  unfolding live_ingesting_cameras
  live_ingesting_cameras-Returns = Returns-bind deps.list_ingesting _ h (λ ids. Returns-pure _)

  pub desired_live_cameras-Returns : Returns (desired_live_cameras deps)
  unfolding desired_live_cameras
  desired_live_cameras-Returns =
      Returns-bind (live_ingesting_cameras deps) _ live_ingesting_cameras-Returns λ ids.
        Returns-bind (recorded_sensors deps) _ (try_catch-Returns _ _) (λ recorded. Returns-pure _)

module _ {W X : Type 0} (deps : RunDeps W) (read : W → X)
    (h : Leaves read deps.list_ingesting) where
  pub live_ingesting_cameras-Leaves : Leaves read (live_ingesting_cameras deps)
  unfolding live_ingesting_cameras
  live_ingesting_cameras-Leaves = Leaves-bind read deps.list_ingesting _ h (λ ids w. refl)

  pub desired_live_cameras-Leaves :
      Leaves read deps.read_rules → Leaves read (desired_live_cameras deps)
  unfolding desired_live_cameras
  desired_live_cameras-Leaves k =
      Leaves-bind read (live_ingesting_cameras deps) _ live_ingesting_cameras-Leaves λ ids.
        Leaves-bind read (recorded_sensors deps) _
          (Leaves-catch read _ _ (Leaves-bind read _ _ k (λ r w. refl))) (λ recorded w. refl)
