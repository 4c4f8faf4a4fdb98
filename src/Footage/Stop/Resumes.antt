-- ===== src/Footage/Stop/Resumes.antt =====
-- What a stop resumes: the cameras of the request and those that are marked, but no test camera.
use artesca_vss_console.Common.{
  String, true, not, ◌&&◌, ◌||◌, Option, List, [], ◌∷◌, ◌++◌, ◌≡◌, refl, sym, ap, ◌∙◌, arith, value,
  try_catch-Returns, Leaves-catch, Returns, truthy, includes, add, add-includes, includes-append,
  filter-includes,
}
use artesca_vss_console.Footage.{absent, RulesDoc, RunDeps, switched}
use artesca_vss_console.Footage.Names.{is_footage_camera}
use artesca_vss_console.Footage.Rules.{sensors_in, distinct_from, live_only}
use artesca_vss_console.Footage.Rules.Marker.{MarkLaws, paused_sensors-reads}
use artesca_vss_console.Footage.Stop.{StopRequest, StopResult, runs_of, stop_run}
use artesca_vss_console.Footage.Stop.Frame.{tear_down_each-Leaves}
use artesca_vss_console.Footage.Stop.Clears.{
  StopLaws, tear_down_each-Returns, restore_cameras-Returns, stop_run-clears,
}

distinct_from-includes :
    (seen ss : List String) (id : String)
    → includes (distinct_from seen ss) id ≡ (includes seen id || includes ss id)
distinct_from-includes seen [] id = ground arith
distinct_from-includes seen (s ∷ ss) id =
    ground (arith, distinct_from-includes (add seen s) ss id, add-includes seen s id)

resumed-includes :
    (asked marks : List String) (id : String)
    → includes (live_only (distinct_from [] (asked ++ marks))) id
      ≡ ((includes asked id || includes marks id) && not (is_footage_camera id))
resumed-includes asked marks id =
    rw
      (
        filter-includes (λ i. not (is_footage_camera i)) (distinct_from [] (asked ++ marks)) id,
        distinct_from-includes [] (asked ++ marks) id,
        includes-append asked marks id,
      )
      refl

module _ {W : Type 0} {deps : RunDeps W} {laws : MarkLaws deps} (stop : StopLaws laws)
    (readable : Returns deps.read_rules)
    (patchable : (d : RulesDoc) (v : Option String) → Returns (deps.patch_rules d v)) where
  -- Where the rules document can be read and patched, the reconciler's deployment can be looked up and
  -- turning an analysis on never throws, a stop comes to a result however listing the sensors,
  -- deleting them and turning an analysis off go. It leaves no camera marked as paused, and it names as resumed exactly the
  -- cameras of the request and those that were marked, but for test cameras.
  pub stop_run-resumes :
      Returns deps.deployment_exists
      → ((id : String) → Returns (deps.set_ingestion (switched id true)))
      → (input : StopRequest) (w : W)
      → (r : StopResult) × (w' : W) × (stop_run deps input w ≡ (value r, w'))
        × (laws.mark w' ≡ absent)
        × ((id : String)
            → includes r.resumed id ≡ (
                (includes input.resume id || includes (sensors_in (laws.mark w)) id)
                && not (is_footage_camera id)))
  unfolding stop_run
  stop_run-resumes exists settable input w =
      let (sensors, w1, e) = try_catch-Returns deps.list_sensors (λ _. []) w in
      let targets = runs_of (truthy input.camera_id) sensors in
      let (torn, w2, f) = tear_down_each-Returns deps targets w1 in
      let (w3, g) = paused_sensors-reads laws readable patchable w2 in
      let same : laws.mark w2 ≡ laws.mark w =
        sym (ap (λ t. laws.mark t.1) f)
        ∙ tear_down_each-Leaves deps laws.mark stop.set_ingestion-Leaves stop.delete_sensor-Leaves
            targets w1
        ∙ sym (ap (λ t. laws.mark t.1) e)
        ∙ Leaves-catch laws.mark deps.list_sensors (λ _. []) stop.list_sensors-Leaves w in
      let resume = live_only (distinct_from [] (input.resume ++ sensors_in (laws.mark w2))) in
      let (ws, w4, h) = restore_cameras-Returns deps exists settable resume w3 in
      let run : stop_run deps input w ≡ (
        value (record { stopped = torn.stopped; resumed = resume; warnings = torn.warnings ++ ws }),
        w4,
      ) =
        rw (e, f, g, h) refl in
      (
        _,
        w4,
        run,
        sym (ap (λ t. laws.mark t.1) run) ∙ stop_run-clears stop readable patchable input w,
        λ id. rw (sym same) (resumed-includes input.resume (sensors_in (laws.mark w2)) id),
      )
