-- ===== src/Reconcile/Cameras/Touched.antt =====
-- What a pass over the cameras can change: only what its three operations on sensors change.
use artesca_vss_console.Common.{
  String, Bool, true, false, Option, none, some, List, [], ◌∷◌, refl, Effect, Leaves, Leaves-bind,
  OnSome, if_rule,
}
use artesca_vss_console.Common.Maps.{Map, lookup}
use artesca_vss_console.Reconcile.{CameraEntry, AdapterSensor, Answer, ClusterAdapter}
use artesca_vss_console.Reconcile.Cameras.{
  CameraReconcileResult, is_parked, by_name, ids_of, park, ensure, converge_camera,
  converge_cameras, prune_with, visit_extra, visit_extras, is_extra, remove_key, reconcile_cameras,
}

-- The operations on sensors leave alone what `read` reads of the state.
pub record OnlySensors {W X : Type 0} (adapter : ClusterAdapter W) (read : W → X) : Type 0 where
  pub at_list : Leaves read adapter.list_sensors
  pub at_add : (n u : String) (d : Option String) → Leaves read (adapter.add_sensor n u d)
  pub at_remove : OnSome (λ remove. (id : String) → Leaves read (remove id)) adapter.remove_sensor

module _ {W X : Type 0} (adapter : ClusterAdapter W) (read : W → X)
    (c : OnlySensors adapter read) where
  park-Leaves :
      (r : CameraReconcileResult) (id : String) (o : Option AdapterSensor)
      (rm : Option (String → Effect W Answer))
      → OnSome (λ remove. (k : String) → Leaves read (remove k)) rm
      → Leaves read (park adapter r id o rm)
  unfolding park
  park-Leaves r id none rm h = λ w. refl
  park-Leaves r id (some s) none h = λ w. refl
  park-Leaves r id (some s) (some remove) h =
      Leaves-bind read (remove (remove_key s)) _ (h (remove_key s)) (λ a w. refl)

  ensure-Leaves :
      (r : CameraReconcileResult) (cam : CameraEntry) (o : Option AdapterSensor)
      → Leaves read (ensure adapter r cam o)
  unfolding ensure
  ensure-Leaves r cam (some s) = λ w. refl
  ensure-Leaves r cam none =
      Leaves-bind read (adapter.add_sensor cam.id cam.rtsp_url cam.description) _
        (c.at_add cam.id cam.rtsp_url cam.description) (λ a w. refl)

  converge_camera-Leaves :
      (live : Map AdapterSensor) (r : CameraReconcileResult) (cam : CameraEntry)
      → Leaves read (converge_camera adapter live r cam)
  unfolding converge_camera
  converge_camera-Leaves live r cam =
      if_rule (Leaves read) (is_parked cam)
        (λ _. park-Leaves r cam.id (lookup cam.id live) adapter.remove_sensor c.at_remove)
        (λ _. ensure-Leaves r cam (lookup cam.id live))

  converge_cameras-Leaves :
      (live : Map AdapterSensor) (r : CameraReconcileResult) (cams : List CameraEntry)
      → Leaves read (converge_cameras adapter live r cams)
  unfolding converge_cameras
  converge_cameras-Leaves live r [] = λ w. refl
  converge_cameras-Leaves live r (cam ∷ cams) =
      Leaves-bind read (converge_camera adapter live r cam) _ (converge_camera-Leaves live r cam)
        (λ r'. converge_cameras-Leaves live r' cams)

  prune_with-Leaves :
      (r : CameraReconcileResult) (s : AdapterSensor) (b : Bool)
      (rm : Option (String → Effect W Answer))
      → OnSome (λ remove. (k : String) → Leaves read (remove k)) rm
      → Leaves read (prune_with adapter r s b rm)
  unfolding prune_with
  prune_with-Leaves r s true none h = λ w. refl
  prune_with-Leaves r s false rm h = λ w. refl
  prune_with-Leaves r s true (some remove) h =
      Leaves-bind read (remove (remove_key s)) _ (h (remove_key s)) (λ a w. refl)

  visit_extras-Leaves :
      (b : Bool) (desired : List String) (r : CameraReconcileResult) (ss : List AdapterSensor)
      → Leaves read (visit_extras adapter b desired r ss)
  unfolding visit_extras visit_extra
  visit_extras-Leaves b desired r [] = λ w. refl
  visit_extras-Leaves b desired r (s ∷ ss) =
      Leaves-bind read (visit_extra adapter b desired r s) _
        (if_rule (Leaves read) (is_extra desired s)
          (λ _. prune_with-Leaves _ s b adapter.remove_sensor c.at_remove) (λ _ w. refl))
        (λ r'. visit_extras-Leaves b desired r' ss)

  -- Whatever it is asked for, a pass over the cameras leaves alone what its three operations do.
  pub reconcile_cameras-Leaves :
      (desired : List CameraEntry) (b : Bool) → Leaves read (reconcile_cameras adapter desired b)
  unfolding reconcile_cameras
  reconcile_cameras-Leaves desired b = Leaves-bind read adapter.list_sensors _ c.at_list (λ live.
      Leaves-bind read (converge_cameras adapter (by_name live) _ desired) _
        (converge_cameras-Leaves (by_name live) _ desired)
        (λ r. visit_extras-Leaves b (ids_of desired) r live))
