-- ===== src/Footage/Run/Restored.antt =====
-- A start that fails puts the live cameras back.
use artesca_vss_console.Common.{
  String, Bool, true, false, Option, none, some, List, [], ◌∷◌, ◌≡◌, refl, Effect, value,
  try_catch-Returns, Returns, Returns-bind, Returns-pure, OnThrown, OnThrown-bind, OnThrown-throw,
  Bool-cases, inl, inr,
}
use artesca_vss_console.Footage.{
  Answered, Quiesced, absent, RulesDoc, Ingestion, Registration, Registered, RunDeps,
}
use artesca_vss_console.Footage.Names.{sanitise_filename, footage_camera_id}
use artesca_vss_console.Footage.Rules.{
  set_paused_sensors, desired_live_cameras, live_ingesting_cameras,
}
use artesca_vss_console.Footage.Rules.Marker.{MarkLaws, set_paused_sensors-Returns}
use artesca_vss_console.Footage.Rules.Desired.{
  live_ingesting_cameras-Returns, desired_live_cameras-Returns,
}
use artesca_vss_console.Footage.Stop.{restore_cameras, stop_run}
use artesca_vss_console.Footage.Stop.Clears.{StopLaws, restore_cameras-clears, stop_run-clears}
use artesca_vss_console.Footage.Run.{
  RunRequest, Pause, with_finally, quiesced_reconciler, scale_back, pause_each, repause_each,
  pause_scaled, pause_live_cameras, pause_if, remove_existing_run, request_for, analysed, begin,
  start_named, start_run,
}

-- The calls that answer with a warning in place of throwing.
pub record FailSoft {W : Type 0} (deps : RunDeps W) : Type 0 where
  pub list_ingesting-Returns : Returns deps.list_ingesting
  pub suspend_ingestion-Returns : (id : String) → Returns (deps.suspend_ingestion id)
  pub set_ingestion-Returns : (i : Ingestion) → Returns (deps.set_ingestion i)
  pub register-Returns : (r : Registration) → Returns (deps.register r)

module _ {W A B : Type 0} where
  with_finally-Returns :
      (m : Effect W A) (n : Effect W B) → Returns m → Returns n → Returns (with_finally m n)
  with_finally-Returns m n h k w =
      let (a, w1, e) = h w in let (b, w2, f) = k w1 in ((a, b), w2, rw (e, f) refl)

module _ {W : Type 0} {deps : RunDeps W} (soft : FailSoft deps) where
  pause_each-Returns : (ids : List String) → Returns (pause_each deps ids)
  unfolding pause_each
  pause_each-Returns [] w = (_, _, refl)
  pause_each-Returns (id ∷ ids) w =
      Returns-bind (deps.suspend_ingestion id) _ (soft.suspend_ingestion-Returns id)
        (λ res.
          Returns-bind (pause_each deps ids) _ (pause_each-Returns ids) (λ rest. Returns-pure _))
        w

  repause_each-Returns : (ids : List String) → Returns (repause_each deps ids)
  unfolding repause_each
  repause_each-Returns [] w = (_, _, refl)
  repause_each-Returns (id ∷ ids) w =
      Returns-bind (deps.suspend_ingestion id) _ (soft.suspend_ingestion-Returns id)
        (λ res.
          Returns-bind (repause_each deps ids) _ (repause_each-Returns ids)
            (λ rest. Returns-pure _))
        w

  scale_back-Returns : (q : Option Quiesced) → Returns (scale_back deps q)
  unfolding scale_back
  scale_back-Returns none = Returns-pure []
  scale_back-Returns (some q) = try_catch-Returns _ _

  quiesced_reconciler-Returns : Returns (quiesced_reconciler deps)
  unfolding quiesced_reconciler
  quiesced_reconciler-Returns = try_catch-Returns _ _

  pause_scaled-Returns : (live : List String) → Returns (pause_scaled deps live)
  unfolding pause_scaled
  pause_scaled-Returns live =
      Returns-bind (quiesced_reconciler deps) _ quiesced_reconciler-Returns λ (q, ws).
        Returns-bind (with_finally (pause_each deps live) (scale_back deps q)) _
          (with_finally-Returns _ _ (pause_each-Returns live) (scale_back-Returns q))
          (λ r. Returns-pure _)

  pause_live_cameras-Returns : Returns (pause_live_cameras deps)
  unfolding pause_live_cameras
  pause_live_cameras-Returns =
      Returns-bind (desired_live_cameras deps) _
        (desired_live_cameras-Returns deps soft.list_ingesting-Returns)
        λ live.
          Returns-bind (set_paused_sensors deps live) _ (set_paused_sensors-Returns deps live)
            λ mark. Returns-bind (pause_scaled deps live) _ (pause_scaled-Returns live) λ r.
              Returns-bind (live_ingesting_cameras deps) _
                (live_ingesting_cameras-Returns deps soft.list_ingesting-Returns)
                λ still.
                  Returns-bind (repause_each deps _) _ (repause_each-Returns _)
                    (λ again. Returns-pure _)

  pause_if-Returns : (b : Bool) → Returns (pause_if deps b)
  pause_if-Returns true w = pause_live_cameras-Returns w
  pause_if-Returns false w = (_, _, refl)

module _ {W : Type 0} {deps : RunDeps W} {laws : MarkLaws deps} (stop : StopLaws laws)
    (readable : Returns deps.read_rules)
    (patchable : (d : RulesDoc) (v : Option String) → Returns (deps.patch_rules d v))
    (soft : FailSoft deps) where
  abbrev Cleared : W → Type 0
  Cleared w = laws.mark w ≡ absent

  analysed-restored :
      (req : RunRequest) (id url : String) (pause : Pause) (ws : List String) (ing : Answered)
      (w : W)
      → OnThrown Cleared (analysed deps req id url pause ws ing w)
  analysed-restored req id url pause ws ing w = elim (Bool-cases ing.ok) [
    | inl e ↦ rw e tt
    | inr e ↦ rw e (
        OnThrown-throw _ Cleared (stop_run deps _) _ w
          (stop_run-clears stop readable patchable _ w))
  ]

  begin-restored :
      (req : RunRequest) (id url : String) (pause : Pause) (ws : List String) (reg : Registered)
      (w : W)
      → OnThrown Cleared (begin deps req id url pause ws reg w)
  unfolding begin
  begin-restored req id url pause ws reg w = elim (Bool-cases reg.ok) [
    | inl e ↦ rw e (
        OnThrown-bind Cleared (deps.set_ingestion (request_for deps req id url)) _ w
          (soft.set_ingestion-Returns _) (λ ing w1. analysed-restored req id url pause _ ing w1))
    | inr e ↦ rw e (
        OnThrown-throw _ Cleared (restore_cameras deps _) _ w
          (restore_cameras-clears stop readable patchable _ w))
  ]

  start_named-restored :
      (req : RunRequest) (name url : String) (w : W)
      → OnThrown Cleared (start_named deps req name url w)
  unfolding start_named remove_existing_run
  start_named-restored req name url w =
      OnThrown-bind Cleared (pause_if deps req.pause_live) _ w
        (pause_if-Returns soft req.pause_live)
        λ pause w1.
          OnThrown-bind Cleared (remove_existing_run deps (footage_camera_id name)) _ w1
            (try_catch-Returns _ _)
            λ removed w2.
              OnThrown-bind Cleared (deps.register _) _ w2 (soft.register-Returns _)
                (λ reg w3. begin-restored req (footage_camera_id name) url pause _ reg w3)

  -- Where the rules document can be read and patched, and the calls on VST and the alert bridge answer
  -- with a warning in place of throwing, a start that throws, once the file name is accepted, leaves no
  -- camera marked as paused.
  pub start_run-restored :
      (host port : String) (req : RunRequest) (name : String)
      → sanitise_filename req.file_name ≡ value name
      → (w : W) → OnThrown (λ w1. laws.mark w1 ≡ absent) (start_run deps host port req w)
  unfolding start_run
  start_run-restored host port req name e w = rw e (start_named-restored req name _ w)
