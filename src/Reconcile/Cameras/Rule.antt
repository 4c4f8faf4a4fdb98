-- ===== src/Reconcile/Cameras/Rule.antt =====
-- The rules for what holds of the value of a round over a desired camera and over a live sensor.
use artesca_vss_console.Common.{
  String, Bool, true, false, Option, none, some, List, [], ◌∷◌, ◌++◌, ◌≡◌, refl, Effect, Try,
  if_rule, value, thrown, OnValue, OnValue-bind, pure, ◌>>=◌, is_some, ◌&&◌,
}
use artesca_vss_console.Common.Maps.{Map, lookup}
use artesca_vss_console.Reconcile.{CameraEntry, AdapterSensor, Answer, ClusterAdapter}
use artesca_vss_console.Reconcile.Cameras.{
  CameraReconcileResult, is_parked, is_extra, park, ensure, converge_camera, prune_with,
  visit_extra, extra_note, after_park, after_add, after_prune, remove_key,
}

-- Nothing is asked of the answer.
pub any_value :
    {W A : Type 0} (Q : A → W → Type 0) (t : Try A × W) → ((a : A) (w : W) → Q a w) → OnValue Q t
any_value Q (value a, w) h = h a w
any_value Q (thrown e, w) h = tt

-- The result where the sensor is noted as an extra one.
abbrev pub noted : CameraReconcileResult → AdapterSensor → CameraReconcileResult
noted r s = record r { drift = r.drift ++ extra_note s.name ∷ [] }

abbrev pub found : CameraReconcileResult → CameraEntry → CameraReconcileResult
found r cam = record r { already_present = r.already_present ++ cam.id ∷ [] }

module _ {W : Type 0} (adapter : ClusterAdapter W) (Q : CameraReconcileResult → W → Type 0) where
  -- The map from an answer, with the state after it, to what `Q` asks of the result made from it.
  after_call :
      (m : Effect W Answer) (f : Answer → CameraReconcileResult) (w : W)
      → OnValue (λ a w'. Q (f a) w') (m w)
      → OnValue Q ((m >>= λ a. pure (f a)) w)
  after_call m f w h = OnValue-bind (λ a w'. Q (f a) w') Q m (λ a. pure (f a)) w h (λ a w' q. q)

  park_rule :
      (r : CameraReconcileResult) (id : String) (o : Option AdapterSensor)
      (rm : Option (String → Effect W Answer)) (w : W)
      → Q r w
      → ((s : AdapterSensor) (remove : String → Effect W Answer)
          → OnValue (λ a w'. Q (after_park r id a) w') (remove (remove_key s) w))
      → OnValue Q (park adapter r id o rm w)
  unfolding park
  park_rule r id none rm w skip k = skip
  park_rule r id (some s) none w skip k = skip
  park_rule r id (some s) (some remove) w skip k =
      after_call (remove (remove_key s)) (after_park r id) w (k s remove)

  ensure_rule :
      (r : CameraReconcileResult) (cam : CameraEntry) (o : Option AdapterSensor) (w : W)
      → (is_some o ≡ true → Q (found r cam) w)
      → OnValue
          (λ a w'. Q (after_add r cam.id a) w')
          (adapter.add_sensor cam.id cam.rtsp_url cam.description w)
      → OnValue Q (ensure adapter r cam o w)
  unfolding ensure
  ensure_rule r cam (some s) w p a = p refl
  ensure_rule r cam none w p a =
      after_call (adapter.add_sensor cam.id cam.rtsp_url cam.description) (after_add r cam.id) w a

  pub camera_rule :
      (live : Map AdapterSensor) (r : CameraReconcileResult) (cam : CameraEntry) (w : W)
      → (is_parked cam ≡ true → Q r w)
      → (is_parked cam ≡ true
          → (s : AdapterSensor) (remove : String → Effect W Answer)
          → OnValue (λ a w'. Q (after_park r cam.id a) w') (remove (remove_key s) w))
      → (is_parked cam ≡ false → is_some (lookup cam.id live) ≡ true → Q (found r cam) w)
      → (is_parked cam ≡ false
          → OnValue
              (λ a w'. Q (after_add r cam.id a) w')
              (adapter.add_sensor cam.id cam.rtsp_url cam.description w))
      → OnValue Q (converge_camera adapter live r cam w)
  unfolding converge_camera
  camera_rule live r cam w skip parks present adds =
      if_rule (λ (m : Effect W CameraReconcileResult). OnValue Q (m w)) (is_parked cam)
        (λ e. park_rule r cam.id (lookup cam.id live) adapter.remove_sensor w (skip e) (parks e))
        (λ e. ensure_rule r cam (lookup cam.id live) w (present e) (adds e))

  prune_rule :
      (r : CameraReconcileResult) (s : AdapterSensor) (b : Bool)
      (rm : Option (String → Effect W Answer)) (w : W)
      → ((b && is_some rm) ≡ false → Q r w)
      → ((remove : String → Effect W Answer)
          → (b && is_some rm) ≡ true
          → OnValue (λ a w'. Q (after_prune r s.name a) w') (remove (remove_key s) w))
      → OnValue Q (prune_with adapter r s b rm w)
  unfolding prune_with
  prune_rule r s true none w keep k = keep refl
  prune_rule r s true (some remove) w keep k =
      after_call (remove (remove_key s)) (after_prune r s.name) w (k remove refl)
  prune_rule r s false rm w keep k = keep refl

  pub extra_rule :
      (b : Bool) (desired : List String) (r : CameraReconcileResult) (s : AdapterSensor) (w : W)
      → (is_extra desired s ≡ false → Q r w)
      → (is_extra desired s ≡ true → (b && is_some adapter.remove_sensor) ≡ false → Q (noted r s) w)
      → (is_extra desired s ≡ true
          → (b && is_some adapter.remove_sensor) ≡ true
          → (remove : String → Effect W Answer)
          → OnValue (λ a w'. Q (after_prune (noted r s) s.name a) w') (remove (remove_key s) w))
      → OnValue Q (visit_extra adapter b desired r s w)
  unfolding visit_extra
  extra_rule b desired r s w passed keep prunes =
      if_rule (λ (m : Effect W CameraReconcileResult). OnValue Q (m w)) (is_extra desired s)
        (λ e.
          prune_rule (noted r s) s b adapter.remove_sensor w (keep e)
            (λ remove p. prunes e p remove))
        (λ e. passed e)
