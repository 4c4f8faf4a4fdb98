-- ===== src/Footage/Run/Scaled.antt =====
-- The reconciler that a start scales to zero is scaled back, whatever is thrown in between.
use artesca_vss_console.Common.{
  ℕ, String, Bool, true, false, Option, none, some, List, [], ◌∷◌, ◌≡◌, refl, sym, ap, ◌∙◌, ◌≢◌,
  arith, Effect, Try, value, thrown, pure, ◌>>=◌, caught, continue, OnValue, OnThrown, OnValue-at,
  Returns, state-bind,
}
use artesca_vss_console.Footage.{Quiesced, RunDeps}
use artesca_vss_console.Footage.Names.{sanitise_filename, footage_rtsp_url, footage_camera_id}
use artesca_vss_console.Footage.Rules.{
  set_paused_sensors, desired_live_cameras, live_ingesting_cameras,
}
use artesca_vss_console.Footage.Rules.Desired.{
  live_ingesting_cameras-Leaves, desired_live_cameras-Leaves,
}
use artesca_vss_console.Footage.Run.Frame.{
  ScaleLaws, Same, set_paused-Same, begin-Same, remove_existing_run-Same, pause_each-Same,
  repause_each-Same,
}
use artesca_vss_console.Footage.Run.{
  quiesce_warning, stop_failed, RunRequest, or_one, with_finally, finally_with, quiesced_reconciler,
  scale_back, pause_each, repause_each, pause_scaled, pause_live_cameras, pause_if,
  remove_existing_run, begin, start_named, start_run,
}

with_finally-state :
    {W A B : Type 0} (P : W → Type 0) (m : Effect W A) (n : Effect W B) (w : W)
    → ((v : W) → v ≡ (m w).1 → P (n v).1)
    → P (with_finally m n w).1
with_finally-state {W} {A} {B} P m n w h = go (m w) (h (m w).1 refl)
  where
    go : (t : Try A × W) → P (n t.1).1 → P (finally_with n t.0 t.1).1
    go (value a, v) p = state-bind P n _ v p (λ b v1 q. q)
    go (thrown e, v) p = state-bind P n _ v p (λ b v1 q. q)

or_one-same : (n : ℕ) → n ≢ 0 → or_one n ≡ n
or_one-same n h = ground arith

module _ {W : Type 0} {deps : RunDeps W} (laws : ScaleLaws deps)
    (scalable : (n : ℕ) → Returns (deps.scale n)) where
  -- What is known where the reconciler has been quiesced, or has not.
  abbrev Ready : ℕ → Option Quiesced → W → Type 0
  Ready n none w = laws.replicas w ≡ n
  Ready n (some q) w = q.previous_replicas ≡ n

  quiesced-Ready :
      (w : W)
      → (r : Option Quiesced × List String) × (w1 : W) × (quiesced_reconciler deps w
          ≡ (value r, w1))
        × Ready (laws.replicas w) r.0 w1
  unfolding quiesced_reconciler
  quiesced-Ready w = go (deps.quiesce w) (laws.quiesce-previous w) (laws.quiesce-thrown w)
    where
      go :
          (t : Try Quiesced × W)
          → OnValue (λ q w1. q.previous_replicas ≡ laws.replicas w) t
          → OnThrown (λ w1. laws.replicas w1 ≡ laws.replicas w) t
          → (r : Option Quiesced × List String) × (w1 : W) × (caught
                (λ e. (none, stop_failed e ∷ []))
                (continue t.0 (λ q. pure (some q, quiesce_warning q)) t.1)
              ≡ (value r, w1))
            × Ready (laws.replicas w) r.0 w1
      go (value q, w1) h k = (_, w1, refl, h)
      go (thrown e, w1) h k = (_, w1, refl, k)

  scale_back-restores :
      (n : ℕ) (o : Option Quiesced) (w1 w2 : W)
      → n ≢ 0
      → Ready n o w1
      → laws.replicas w2 ≡ laws.replicas w1
      → laws.replicas (scale_back deps o w2).1 ≡ n
  unfolding scale_back
  scale_back-restores n none w1 w2 nonzero h e = e ∙ h
  scale_back-restores n (some q) w1 w2 nonzero h e =
      let (u, w3, f) = scalable (or_one q.previous_replicas) w2 in
      rw f (
        OnValue-at _ _ (laws.scale-sets (or_one q.previous_replicas) w2) u w3 f
        ∙ ap or_one h
        ∙ or_one-same n nonzero)

  -- However suspending the cameras goes, the replicas are what they were.
  pause_scaled-Same :
      (live : List String) (w : W)
      → laws.replicas w ≢ 0
      → laws.replicas (pause_scaled deps live w).1 ≡ laws.replicas w
  unfolding pause_scaled
  pause_scaled-Same live w nonzero =
      let ((o, ws), w1, e, ready) = quiesced-Ready w in
      rw e (
        state-bind (λ v. laws.replicas v ≡ laws.replicas w)
          (with_finally (pause_each deps live) (scale_back deps o)) _ w1
          (with_finally-state (λ v. laws.replicas v ≡ laws.replicas w) (pause_each deps live)
            (scale_back deps o) w1
            (λ v e1.
              scale_back-restores (laws.replicas w) o w1 v nonzero ready
                (ap laws.replicas e1 ∙ pause_each-Same laws live w1)))
          (λ r w2 h. h))

  -- The call leaves the replicas, where there are some.
  abbrev Keeps : {A : Type 0} → Effect W A → Type 0
  Keeps m = (w : W) → laws.replicas w ≢ 0 → laws.replicas (m w).1 ≡ laws.replicas w

  Keeps-bind :
      {A B : Type 0} (m : Effect W A) (f : A → Effect W B)
      → Keeps m
      → ((a : A) → Keeps (f a))
      → Keeps (m >>= f)
  Keeps-bind m f h k w nonzero =
      state-bind (λ v. laws.replicas v ≡ laws.replicas w) m f w (h w nonzero)
        (λ a w1 e. k a w1 (λ z. nonzero (sym e ∙ z)) ∙ e)

  Keeps-Leaves : {A : Type 0} (m : Effect W A) → Same laws m → Keeps m
  Keeps-Leaves m h w nonzero = h w

  pause_live_cameras-Keeps : Keeps (pause_live_cameras deps)
  unfolding pause_live_cameras
  pause_live_cameras-Keeps =
      Keeps-bind (desired_live_cameras deps) _
        (Keeps-Leaves (desired_live_cameras deps) (
          desired_live_cameras-Leaves deps laws.replicas laws.list_ingesting-Leaves
            laws.read_rules-Leaves))
        λ live.
          Keeps-bind (set_paused_sensors deps live) _
            (Keeps-Leaves (set_paused_sensors deps live) (set_paused-Same laws live))
            λ mark. Keeps-bind (pause_scaled deps live) _ (pause_scaled-Same live) λ r.
              Keeps-bind (live_ingesting_cameras deps) _
                (Keeps-Leaves (live_ingesting_cameras deps)
                  (live_ingesting_cameras-Leaves deps laws.replicas laws.list_ingesting-Leaves))
                λ still.
                  Keeps-bind (repause_each deps _) _
                    (Keeps-Leaves (repause_each deps _) (repause_each-Same laws _))
                    (λ again w nonzero. refl)

  pause_if-Keeps : (b : Bool) → Keeps (pause_if deps b)
  pause_if-Keeps true w nonzero = pause_live_cameras-Keeps w nonzero
  pause_if-Keeps false w nonzero = refl

  start_named-Keeps : (req : RunRequest) (name url : String) → Keeps (start_named deps req name url)
  unfolding start_named
  start_named-Keeps req name url =
      Keeps-bind (pause_if deps req.pause_live) _ (pause_if-Keeps req.pause_live) λ pause.
        Keeps-bind (remove_existing_run deps (footage_camera_id name)) _
          (Keeps-Leaves (remove_existing_run deps _) (remove_existing_run-Same laws _))
          λ removed.
            Keeps-bind (deps.register _) _ (Keeps-Leaves (deps.register _) (laws.register-Leaves _))
              (λ reg.
                Keeps-Leaves (begin deps req (footage_camera_id name) url pause _ reg)
                  (begin-Same laws req (footage_camera_id name) url pause _ reg))

  -- Where scaling the reconciler's deployment never throws, and it asks for some replicas, it asks for
  -- as many after a start, whatever else the start throws.
  pub start_run-replicas :
      (host port : String) (req : RunRequest) (w : W)
      → laws.replicas w ≢ 0
      → laws.replicas (start_run deps host port req w).1 ≡ laws.replicas w
  unfolding start_run
  start_run-replicas host port req =
      Keeps-bind (λ w. (sanitise_filename req.file_name, w)) _ (λ w nonzero. refl)
        (λ name. start_named-Keeps req name (footage_rtsp_url host port name req.mode))
