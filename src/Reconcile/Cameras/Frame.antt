-- ===== src/Reconcile/Cameras/Frame.antt =====
-- What a pass over the cameras leaves alone.
use artesca_vss_console.Common.{
  String, false, Option, none, some, List, [], ◌∷◌, ◌≡◌, refl, ◌∙◌, ℕ, All, Effect, if_rule,
  state-bind,
}
use artesca_vss_console.Common.Maps.{Map, lookup}
use artesca_vss_console.Reconcile.{CameraEntry, AdapterSensor, ClusterAdapter}
use artesca_vss_console.Reconcile.Cameras.{
  CameraReconcileResult, is_parked, is_extra, by_name, ids_of, ensure, converge_camera,
  converge_cameras, prune_with, visit_extra, visit_extras, reconcile_cameras,
}

-- What `removals` counts is not changed by listing the sensors or by adding one.
pub record CountsRemovals {W : Type 0} (adapter : ClusterAdapter W) (removals : W → ℕ)
    : Type 0 where
  pub at_list : (w : W) → removals (adapter.list_sensors w).1 ≡ removals w
  pub at_add :
      (n u : String) (d : Option String) (w : W)
      → removals (adapter.add_sensor n u d w).1 ≡ removals w

module _ {W : Type 0} (adapter : ClusterAdapter W) (removals : W → ℕ)
    (c : CountsRemovals adapter removals) where
  ensure-removals :
      (r : CameraReconcileResult) (cam : CameraEntry) (o : Option AdapterSensor) (w : W)
      → removals (ensure adapter r cam o w).1 ≡ removals w
  unfolding ensure
  ensure-removals r cam (some s) w = refl
  ensure-removals r cam none w =
      state-bind (λ v. removals v ≡ removals w)
        (adapter.add_sensor cam.id cam.rtsp_url cam.description) _ w
        (c.at_add cam.id cam.rtsp_url cam.description w) (λ a w' h. h)

  converge_cameras-removals :
      (live : Map AdapterSensor) (r : CameraReconcileResult) (cams : List CameraEntry) (w : W)
      → All (λ cam. is_parked cam ≡ false) cams
      → removals (converge_cameras adapter live r cams w).1 ≡ removals w
  unfolding converge_cameras converge_camera
  converge_cameras-removals live r [] w h = refl
  converge_cameras-removals live r (cam ∷ cams) w (unparked, h) =
      state-bind (λ v. removals v ≡ removals w) (converge_camera adapter live r cam) _ w
        (rw unparked (ensure-removals r cam (lookup cam.id live) w))
        (λ r' w' e. converge_cameras-removals live r' cams w' h ∙ e)

  visit_extra-state :
      (desired : List String) (r : CameraReconcileResult) (s : AdapterSensor) (w : W)
      → (visit_extra adapter false desired r s w).1 ≡ w
  unfolding visit_extra prune_with
  visit_extra-state desired r s w =
      if_rule (λ (m : Effect W CameraReconcileResult). (m w).1 ≡ w) (is_extra desired s) (λ _. refl)
        (λ _. refl)

  visit_extras-removals :
      (desired : List String) (r : CameraReconcileResult) (ss : List AdapterSensor) (w : W)
      → removals (visit_extras adapter false desired r ss w).1 ≡ removals w
  unfolding visit_extras
  visit_extras-removals desired r [] w = refl
  visit_extras-removals desired r (s ∷ ss) w =
      state-bind (λ v. removals v ≡ removals w) (visit_extra adapter false desired r s) _ w
        (rw visit_extra-state refl) (λ r' w' e. visit_extras-removals desired r' ss w' ∙ e)

  -- Without `prune`, and where no desired camera is disabled, a pass removes no sensor, whether it
  -- ends or throws.
  pub additive :
      (desired : List CameraEntry) (w : W)
      → All (λ cam. is_parked cam ≡ false) desired
      → removals (reconcile_cameras adapter desired false w).1 ≡ removals w
  unfolding reconcile_cameras
  additive desired w h =
      state-bind (λ v. removals v ≡ removals w) adapter.list_sensors _ w (c.at_list w)
        λ live w1 e1.
          state-bind (λ v. removals v ≡ removals w)
            (converge_cameras adapter (by_name live) _ desired) _ w1
            (converge_cameras-removals (by_name live) _ desired w1 h ∙ e1)
            (λ r w2 e2. visit_extras-removals (ids_of desired) r live w2 ∙ e2)
