-- ===== src/Footage/Stop/Clears.antt =====
-- A stop resumes the cameras: however the tear-downs go, no camera stays marked as paused.
use artesca_vss_console.Common.{
  String, Bool, true, false, Option, List, [], ◌∷◌, ◌≡◌, refl, sym, ap, ◌∙◌, Try, value, thrown,
  try_catch-Returns, Leaves, Leaves-bind, Returns, Returns-bind, Returns-pure, state-bind, truthy,
}
use artesca_vss_console.Footage.{Answered, absent, RulesDoc, Ingestion, RunDeps, switched}
use artesca_vss_console.Footage.Rules.{set_paused_sensors}
use artesca_vss_console.Footage.Rules.Marker.{
  MarkLaws, set_paused_sensors-marks, set_paused_sensors-Returns, paused_sensors-reads,
}
use artesca_vss_console.Footage.Stop.Frame.{resume_unless-Leaves}
use artesca_vss_console.Footage.Stop.{
  StopRequest, tear_down_with, tear_down, tear_down_each, runs_of, resume_each, resume_unless,
  restore_cameras, stop_run, uuid_of,
}

-- The calls that a stop makes leave the mark.
pub record StopLaws {W : Type 0} {deps : RunDeps W} (laws : MarkLaws deps) : Type 0 where
  pub deployment_exists-Leaves : Leaves laws.mark deps.deployment_exists
  pub set_ingestion-Leaves : (i : Ingestion) → Leaves laws.mark (deps.set_ingestion i)
  pub list_sensors-Leaves : Leaves laws.mark deps.list_sensors
  pub delete_sensor-Leaves : (uuid : String) → Leaves laws.mark (deps.delete_sensor uuid)

module _ {W : Type 0} (deps : RunDeps W) where
  tear_down_with-Returns :
      (name uuid : String) (ing : Try Answered) → Returns (tear_down_with deps name uuid ing)
  tear_down_with-Returns name uuid (thrown e) w = (_, _, refl)
  tear_down_with-Returns name uuid (value ing) w = (_, _, refl)

  tear_down-Returns : (t : String × String) → Returns (tear_down deps t)
  unfolding tear_down
  tear_down-Returns (name, stream_id) w = tear_down_with-Returns name (uuid_of stream_id name) _ _

  -- The loop over the runs never throws.
  pub tear_down_each-Returns : (ts : List (String × String)) → Returns (tear_down_each deps ts)
  unfolding tear_down_each
  tear_down_each-Returns [] w = (_, _, refl)
  tear_down_each-Returns (t ∷ ts) w =
      Returns-bind (tear_down deps t) _ (tear_down-Returns t)
        (λ one.
          Returns-bind (tear_down_each deps ts) _ (tear_down_each-Returns ts)
            (λ rest. Returns-pure _))
        w

  resume_each-Returns :
      ((id : String) → Returns (deps.set_ingestion (switched id true)))
      → (ids : List String) → Returns (resume_each deps ids)
  unfolding resume_each
  resume_each-Returns h [] w = (_, _, refl)
  resume_each-Returns h (id ∷ ids) w =
      Returns-bind (deps.set_ingestion _) _ (h _)
        (λ res.
          Returns-bind (resume_each deps ids) _ (resume_each-Returns h ids)
            (λ rest. Returns-pure _))
        w

  resume_unless-Returns :
      ((id : String) → Returns (deps.set_ingestion (switched id true)))
      → (b : Bool) (ids : List String) → Returns (resume_unless deps b ids)
  resume_unless-Returns h true ids w = (_, _, refl)
  resume_unless-Returns h false ids w = resume_each-Returns h ids w

  pub restore_cameras-Returns :
      Returns deps.deployment_exists
      → ((id : String) → Returns (deps.set_ingestion (switched id true)))
      → (ids : List String) → Returns (restore_cameras deps ids)
  unfolding restore_cameras
  restore_cameras-Returns h k ids =
      Returns-bind (set_paused_sensors deps []) _ (set_paused_sensors-Returns deps []) (λ clear.
        Returns-bind deps.deployment_exists _ h (λ b.
          Returns-bind (resume_unless deps b ids) _ (resume_unless-Returns k b ids)
            (λ rest. Returns-pure _)))

module _ {W : Type 0} {deps : RunDeps W} {laws : MarkLaws deps} (stop : StopLaws laws)
    (readable : Returns deps.read_rules)
    (patchable : (d : RulesDoc) (v : Option String) → Returns (deps.patch_rules d v)) where
  pub restore_cameras-clears :
      (ids : List String) (w : W) → laws.mark (restore_cameras deps ids w).1 ≡ absent
  unfolding restore_cameras
  restore_cameras-clears ids w =
      let (clear, w1, e) = set_paused_sensors-Returns deps [] w in
      let marked : laws.mark w1 ≡ absent =
        sym (ap (λ t. laws.mark t.1) e) ∙ set_paused_sensors-marks laws readable patchable [] w in
      rw e (
        Leaves-bind laws.mark deps.deployment_exists _ stop.deployment_exists-Leaves
          (λ b.
            Leaves-bind laws.mark (resume_unless deps b ids) _
              (resume_unless-Leaves deps laws.mark stop.set_ingestion-Leaves b ids)
              (λ rest v. refl))
          w1
        ∙ marked)

  -- Where the rules document can be read and patched, no camera is marked as paused after a stop,
  -- whether it answers or throws.
  pub stop_run-clears : (input : StopRequest) (w : W) → laws.mark (stop_run deps input w).1 ≡ absent
  unfolding stop_run
  stop_run-clears input w =
      let (sensors, w1, e) = try_catch-Returns deps.list_sensors (λ _. []) w in
      let (torn, w2, f) =
        tear_down_each-Returns deps (runs_of (truthy input.camera_id) sensors) w1 in
      let (w3, g) = paused_sensors-reads laws readable patchable w2 in
      rw (e, f, g)
        (state-bind (λ v. laws.mark v ≡ absent) (restore_cameras deps _) _ w3
          (restore_cameras-clears _ w3) (λ ws w4 h. h))
