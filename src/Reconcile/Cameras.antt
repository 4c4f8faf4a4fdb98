-- ===== src/Reconcile/Cameras.antt =====
-- `reconcileCameras` (src/lib/reconcile/cameras.ts): converge the live sensors toward the desired
-- cameras. A desired camera and a live sensor are the same where the sensor's name is the id.
mod Rule
pub mod Converge
mod Tests
pub mod Touched
pub mod Frame
pub mod Account
use Prim.Native.String.{◌++◌ as text_append}
use artesca_vss_console.Common.{
  String, Bool, true, false, not, ◌&&◌, Option, none, some, List, [], ◌∷◌, ◌++◌, map, get_or,
  is_text, includes, if◌then◌else◌, Effect, pure, ◌>>=◌,
}
use artesca_vss_console.Common.Maps.{Map, lookup, of_pairs}
use artesca_vss_console.Reconcile.{CameraEntry, AdapterSensor, Answer, ClusterAdapter}

pub record Failure : Type 0 where
  pub id : String
  pub warning : Option String

pub record CameraReconcileResult : Type 0 where
  pub added : List String
  pub already_present : List String
  pub failed : List Failure
  pub pruned : List String
  pub parked : List String
  pub drift : List String

abbrev pub empty_result : CameraReconcileResult
empty_result = record {
  added = [];
  already_present = [];
  failed = [];
  pruned = [];
  parked = [];
  drift = [];
}

-- Recording is explicitly disabled.
abbrev pub is_parked : CameraEntry → Bool
is_parked cam = elim cam.recording [ none ↦ false | some r ↦ not r.enabled ]

-- `liveByName`: of two live sensors with one name the last is kept.
abbrev pub by_name : List AdapterSensor → Map AdapterSensor
by_name live = of_pairs (map (λ s. (s.name, s)) live)

abbrev pub ids_of : List CameraEntry → List String
ids_of desired = map (λ c. c.id) desired

-- The key by which a sensor is removed.
abbrev pub remove_key : AdapterSensor → String
remove_key s = get_or s.uuid s.sensor_id

abbrev pub parked_note : String → String
parked_note id = text_append "parked disabled camera (de-registered live sensor): " id

abbrev pub extra_note : String → String
extra_note name = text_append "extra live sensor not in desired: " name

abbrev pub add_failure : CameraReconcileResult → String → Answer → CameraReconcileResult
add_failure r id res = record r {
  failed = r.failed ++ record { id = id; warning = res.warning } ∷ [];
}

abbrev pub after_park : CameraReconcileResult → String → Answer → CameraReconcileResult
after_park r id res =
    if res.ok
    then record r { parked = r.parked ++ id ∷ []; drift = r.drift ++ parked_note id ∷ [] }
    else add_failure r id res

abbrev pub after_add : CameraReconcileResult → String → Answer → CameraReconcileResult
after_add r id res =
    if res.ok then record r { added = r.added ++ id ∷ [] } else add_failure r id res

abbrev pub after_prune : CameraReconcileResult → String → Answer → CameraReconcileResult
after_prune r name res =
    if res.ok then record r { pruned = r.pruned ++ name ∷ [] } else add_failure r name res

-- A live sensor that is desired by no camera, and is no tombstone of a removed one.
abbrev pub is_extra : List String → AdapterSensor → Bool
is_extra desired s = not (includes desired s.name) && not (is_text s.status "removed")

module _ {W : Type 0} (adapter : ClusterAdapter W) where
  -- A parked camera is de-registered where it is live and the adapter can.
  pub park :
      CameraReconcileResult
      → String
      → Option AdapterSensor
      → Option (String → Effect W Answer)
      → Effect W CameraReconcileResult
  park r id (some s) (some remove) = do res ← remove (remove_key s); pure (after_park r id res)
  park r id none _ = pure r
  park r id (some s) none = pure r

  -- Any other camera is added unless it is live.
  pub ensure :
      CameraReconcileResult → CameraEntry → Option AdapterSensor → Effect W CameraReconcileResult
  ensure r cam (some s) = pure (record r { already_present = r.already_present ++ cam.id ∷ [] })
  ensure r cam none = do
    res ← adapter.add_sensor cam.id cam.rtsp_url cam.description
    pure (after_add r cam.id res)

  pub converge_camera :
      Map AdapterSensor → CameraReconcileResult → CameraEntry → Effect W CameraReconcileResult
  converge_camera live r cam =
      if is_parked cam
      then park r cam.id (lookup cam.id live) adapter.remove_sensor
      else ensure r cam (lookup cam.id live)

  pub converge_cameras :
      Map AdapterSensor → CameraReconcileResult → List CameraEntry → Effect W CameraReconcileResult
  converge_cameras live r [] = pure r
  converge_cameras live r (cam ∷ cams) = do
    r' ← converge_camera live r cam
    converge_cameras live r' cams

  pub prune_with :
      CameraReconcileResult
      → AdapterSensor
      → Bool
      → Option (String → Effect W Answer)
      → Effect W CameraReconcileResult
  prune_with r s true (some remove) = do
    res ← remove (remove_key s)
    pure (after_prune r s.name res)
  prune_with r s true none = pure r
  prune_with r s false _ = pure r

  pub visit_extra :
      Bool → List String → CameraReconcileResult → AdapterSensor → Effect W CameraReconcileResult
  visit_extra prune desired r s =
      if is_extra desired s
      then prune_with (record r { drift = r.drift ++ extra_note s.name ∷ [] }) s prune
          adapter.remove_sensor
      else pure r

  pub visit_extras :
      Bool
      → List String
      → CameraReconcileResult
      → List AdapterSensor
      → Effect W CameraReconcileResult
  visit_extras prune desired r [] = pure r
  visit_extras prune desired r (s ∷ ss) = do
    r' ← visit_extra prune desired r s
    visit_extras prune desired r' ss

  pub reconcile_cameras : List CameraEntry → Bool → Effect W CameraReconcileResult
  reconcile_cameras desired prune = do
    live ← adapter.list_sensors
    r ← converge_cameras (by_name live) empty_result desired
    visit_extras prune (ids_of desired) r live
