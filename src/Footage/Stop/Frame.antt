-- ===== src/Footage/Stop/Frame.antt =====
-- What a stop leaves as it is, where the calls that it makes leave it.
use artesca_vss_console.Common.{
  String, Bool, true, false, List, [], ◌∷◌, refl, Try, value, thrown, Leaves, Leaves-bind,
  Leaves-catch, truthy,
}
use artesca_vss_console.Footage.{Answered, Ingestion, RunDeps, switched}
use artesca_vss_console.Footage.Rules.{set_paused_sensors, paused_sensors}
use artesca_vss_console.Footage.Rules.Marker.{paused_sensors-Leaves}
use artesca_vss_console.Footage.Stop.{
  StopRequest, attempt, tear_down_with, tear_down, tear_down_each, runs_of, listed_sensors,
  resume_each, resume_unless, restore_cameras, stop_run, uuid_of,
}

module _ {W X : Type 0} (deps : RunDeps W) (read : W → X)
    (set-Leaves : (i : Ingestion) → Leaves read (deps.set_ingestion i)) where
  pub resume_each-Leaves : (ids : List String) → Leaves read (resume_each deps ids)
  unfolding resume_each
  resume_each-Leaves [] w = refl
  resume_each-Leaves (id ∷ ids) w =
      Leaves-bind read (deps.set_ingestion _) _ (set-Leaves _)
        (λ res. Leaves-bind read (resume_each deps ids) _ (resume_each-Leaves ids) (λ rest v. refl))
        w

  pub resume_unless-Leaves : (b : Bool) (ids : List String) → Leaves read (resume_unless deps b ids)
  resume_unless-Leaves true ids w = refl
  resume_unless-Leaves false ids w = resume_each-Leaves ids w

  module _ (delete-Leaves : (uuid : String) → Leaves read (deps.delete_sensor uuid)) where
    tear_down_with-Leaves :
        (name uuid : String) (ing : Try Answered) → Leaves read (tear_down_with deps name uuid ing)
    tear_down_with-Leaves name uuid (thrown e) w = refl
    tear_down_with-Leaves name uuid (value ing) w = delete-Leaves uuid w

    tear_down-Leaves : (t : String × String) → Leaves read (tear_down deps t)
    unfolding tear_down
    tear_down-Leaves (name, stream_id) =
        Leaves-bind read (attempt (deps.set_ingestion (switched name false)))
          (tear_down_with deps name (uuid_of stream_id name)) (set-Leaves _)
          (tear_down_with-Leaves name (uuid_of stream_id name))

    pub tear_down_each-Leaves : (ts : List (String × String)) → Leaves read (tear_down_each deps ts)
    unfolding tear_down_each
    tear_down_each-Leaves [] w = refl
    tear_down_each-Leaves (t ∷ ts) w =
        Leaves-bind read (tear_down deps t) _ (tear_down-Leaves t)
          (λ one.
            Leaves-bind read (tear_down_each deps ts) _ (tear_down_each-Leaves ts) (λ rest v. refl))
          w

  module _
      (set_paused-Leaves : (sensors : List String) → Leaves read (set_paused_sensors deps sensors))
      (exists-Leaves : Leaves read deps.deployment_exists) where
    pub restore_cameras-Leaves : (ids : List String) → Leaves read (restore_cameras deps ids)
    unfolding restore_cameras
    restore_cameras-Leaves ids =
        Leaves-bind read (set_paused_sensors deps []) _ (set_paused-Leaves []) λ clear.
          Leaves-bind read deps.deployment_exists _ exists-Leaves λ b.
            Leaves-bind read (resume_unless deps b ids) _ (resume_unless-Leaves b ids)
              (λ rest w. refl)

module _ {W X : Type 0} (deps : RunDeps W) (read : W → X)
    (set_paused-Leaves : (sensors : List String) → Leaves read (set_paused_sensors deps sensors))
    (exists-Leaves : Leaves read deps.deployment_exists)
    (set-Leaves : (i : Ingestion) → Leaves read (deps.set_ingestion i))
    (list-Leaves : Leaves read deps.list_sensors)
    (delete-Leaves : (uuid : String) → Leaves read (deps.delete_sensor uuid))
    (read-Leaves : Leaves read deps.read_rules) where
  pub stop_run-Leaves : (input : StopRequest) → Leaves read (stop_run deps input)
  unfolding stop_run
  stop_run-Leaves input =
      Leaves-bind read (listed_sensors deps) _ (Leaves-catch read _ _ list-Leaves) λ sensors.
        Leaves-bind read (tear_down_each deps (runs_of (truthy input.camera_id) sensors)) _
          (tear_down_each-Leaves deps read set-Leaves delete-Leaves _)
          λ torn.
            Leaves-bind read (paused_sensors deps) _ (paused_sensors-Leaves deps read read-Leaves)
              λ marks.
                Leaves-bind read (restore_cameras deps _) _
                  (restore_cameras-Leaves deps read set-Leaves set_paused-Leaves exists-Leaves _)
                  (λ ws w. refl)
