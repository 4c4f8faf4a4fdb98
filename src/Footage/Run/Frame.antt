-- ===== src/Footage/Run/Frame.antt =====
-- What of a start leaves the replicas of the reconciler's deployment as they are.
use artesca_vss_console.Common.{
  ℕ, String, false, Option, none, some, List, [], ◌∷◌, ◌≡◌, refl, Effect, OnValue, OnThrown, Leaves,
  Leaves-bind, Leaves-catch, Bool-cases, inl, inr,
}
use artesca_vss_console.Footage.{
  Answered, Quiesced, RulesDoc, Ingestion, Registration, Registered, RunDeps, VstSensor, switched,
}
use artesca_vss_console.Footage.Rules.{set_paused_sensors}
use artesca_vss_console.Footage.Rules.Marker.{restarted-Leaves, set_paused_sensors-Leaves}
use artesca_vss_console.Footage.Stop.{StopRequest, restore_cameras, stop_run}
use artesca_vss_console.Footage.Stop.Frame.{restore_cameras-Leaves, stop_run-Leaves}
use artesca_vss_console.Footage.Run.{
  RunRequest, Pause, pause_each, repause_each, remove_found, remove_existing_run, request_for,
  analysed, begin,
}

-- The replicas that the reconciler's deployment asks for: only its two scalings change them.
pub record ScaleLaws {W : Type 0} (deps : RunDeps W) : Type 0 where
  pub replicas : W → ℕ
  pub quiesce-previous :
      (w : W) → OnValue (λ (q : Quiesced) w1. q.previous_replicas ≡ replicas w) (deps.quiesce w)
  pub quiesce-thrown : (w : W) → OnThrown (λ w1. replicas w1 ≡ replicas w) (deps.quiesce w)
  pub scale-sets : (n : ℕ) (w : W) → OnValue (λ _ w1. replicas w1 ≡ n) (deps.scale n w)
  pub read_rules-Leaves : Leaves replicas deps.read_rules
  pub patch_rules-Leaves :
      (d : RulesDoc) (v : Option String) → Leaves replicas (deps.patch_rules d v)
  pub rollout_restart-Leaves : Leaves replicas deps.rollout_restart
  pub wait_for_rollout-Leaves : Leaves replicas deps.wait_for_rollout
  pub deployment_exists-Leaves : Leaves replicas deps.deployment_exists
  pub suspend_ingestion-Leaves : (id : String) → Leaves replicas (deps.suspend_ingestion id)
  pub set_ingestion-Leaves : (i : Ingestion) → Leaves replicas (deps.set_ingestion i)
  pub list_ingesting-Leaves : Leaves replicas deps.list_ingesting
  pub list_sensors-Leaves : Leaves replicas deps.list_sensors
  pub delete_sensor-Leaves : (uuid : String) → Leaves replicas (deps.delete_sensor uuid)
  pub register-Leaves : (r : Registration) → Leaves replicas (deps.register r)

module _ {W : Type 0} {deps : RunDeps W} (laws : ScaleLaws deps) where
  abbrev pub Same : {A : Type 0} → Effect W A → Type 0
  Same m = Leaves laws.replicas m

  pub set_paused-Same : (sensors : List String) → Same (set_paused_sensors deps sensors)
  set_paused-Same sensors =
      set_paused_sensors-Leaves deps laws.replicas sensors laws.read_rules-Leaves
        laws.patch_rules-Leaves
        (restarted-Leaves deps laws.replicas laws.rollout_restart-Leaves
          laws.wait_for_rollout-Leaves)

  pub restore_cameras-Same : (ids : List String) → Same (restore_cameras deps ids)
  restore_cameras-Same =
      restore_cameras-Leaves deps laws.replicas laws.set_ingestion-Leaves set_paused-Same
        laws.deployment_exists-Leaves

  stop_run-Same : (input : StopRequest) → Same (stop_run deps input)
  stop_run-Same =
      stop_run-Leaves deps laws.replicas set_paused-Same laws.deployment_exists-Leaves
        laws.set_ingestion-Leaves laws.list_sensors-Leaves laws.delete_sensor-Leaves
        laws.read_rules-Leaves

  analysed-Same :
      (req : RunRequest) (id url : String) (pause : Pause) (ws : List String) (ing : Answered)
      → Same (analysed deps req id url pause ws ing)
  analysed-Same req id url pause ws ing w = elim (Bool-cases ing.ok) [
    | inl e ↦ rw e refl
    | inr e ↦ rw e (Leaves-bind laws.replicas (stop_run deps _) _ (stop_run-Same _) (λ r v. refl) w)
  ]

  pub begin-Same :
      (req : RunRequest) (id url : String) (pause : Pause) (ws : List String) (reg : Registered)
      → Same (begin deps req id url pause ws reg)
  unfolding begin
  begin-Same req id url pause ws reg w = elim (Bool-cases reg.ok) [
    | inl e ↦ rw e (
        Leaves-bind laws.replicas (deps.set_ingestion (request_for deps req id url)) _
          (laws.set_ingestion-Leaves _) (λ ing. analysed-Same req id url pause _ ing) w)
    | inr e ↦ rw e (
        Leaves-bind laws.replicas (restore_cameras deps _) _ (restore_cameras-Same _) (λ r v. refl)
          w)
  ]

  remove_found-Same : (id : String) (o : Option VstSensor) → Same (remove_found deps id o)
  remove_found-Same id none w = refl
  remove_found-Same id (some s) w =
      Leaves-bind laws.replicas (deps.set_ingestion (switched id false)) _
        (laws.set_ingestion-Leaves _)
        (λ _.
          Leaves-bind laws.replicas (deps.delete_sensor _) _ (laws.delete_sensor-Leaves _)
            (λ del v. refl))
        w

  pub remove_existing_run-Same : (id : String) → Same (remove_existing_run deps id)
  unfolding remove_existing_run
  remove_existing_run-Same id = Leaves-catch laws.replicas _ _ (
      Leaves-bind laws.replicas deps.list_sensors _ laws.list_sensors-Leaves
        (λ sensors. remove_found-Same id _))

  pub pause_each-Same : (ids : List String) → Same (pause_each deps ids)
  unfolding pause_each
  pause_each-Same [] w = refl
  pause_each-Same (id ∷ ids) w =
      Leaves-bind laws.replicas (deps.suspend_ingestion id) _ (laws.suspend_ingestion-Leaves id)
        (λ res.
          Leaves-bind laws.replicas (pause_each deps ids) _ (pause_each-Same ids) (λ rest v. refl))
        w

  pub repause_each-Same : (ids : List String) → Same (repause_each deps ids)
  unfolding repause_each
  repause_each-Same [] w = refl
  repause_each-Same (id ∷ ids) w =
      Leaves-bind laws.replicas (deps.suspend_ingestion id) _ (laws.suspend_ingestion-Leaves id)
        (λ res.
          Leaves-bind laws.replicas (repause_each deps ids) _ (repause_each-Same ids)
            (λ rest v. refl))
        w
