-- ===== src/Reconcile/Cameras/Converge.antt =====
-- What a pass over the cameras reaches.
use mathlib.Core.List.{append-nil, append_assoc}
use artesca_vss_console.Common.{
  String, Bool, true, false, Option, none, some, List, [], ◌∷◌, ◌++◌, ◌≡◌, refl, sym, ap, ◌∙◌, ◌≢◌,
  subst, All, value, ◌⊎◌, inl, inr, Bool-cases, is_text, OnValue, OnValue-bind, OnValue-at,
  OnValue-map, is_some, if_rule,
}
use artesca_vss_console.Common.Maps.{Map, lookup}
use artesca_vss_console.Reconcile.{CameraEntry, AdapterSensor, Answer, ClusterAdapter}
use artesca_vss_console.Reconcile.Cameras.Rule.{camera_rule, extra_rule, found}
use artesca_vss_console.Reconcile.Cameras.{
  CameraReconcileResult, empty_result, is_parked, is_extra, by_name, ids_of, ensure,
  converge_camera, converge_cameras, visit_extra, visit_extras, reconcile_cameras, after_add,
}

-- A sensor that is listed with the status "removed": the service of the sensors goes on listing
-- what it has removed.
abbrev pub is_tombstone : AdapterSensor → Bool
is_tombstone s = is_text s.status "removed"

-- The last sensor that is listed with the name is one that was removed.
abbrev pub is_removed : List AdapterSensor → String → Bool
is_removed live name = elim (lookup name (by_name live)) [ none ↦ false | some s ↦ is_tombstone s ]

-- A sensor with the name is listed.
abbrev pub is_listed : List AdapterSensor → String → Bool
is_listed live name = is_some (lookup name (by_name live))

module _ {W : Type 0} (adapter : ClusterAdapter W) where
  abbrev found_to : CameraReconcileResult → List String → CameraReconcileResult
  found_to r ids = record r { already_present = r.already_present ++ ids }

  ensure-listed :
      (r : CameraReconcileResult) (cam : CameraEntry) (o : Option AdapterSensor) (w : W)
      → is_some o ≡ true
      → ensure adapter r cam o w ≡ (value (found r cam), w)
  unfolding ensure
  ensure-listed r cam none w e = cc
  ensure-listed r cam (some s) w e = refl

  converge_cameras-settled :
      (live : Map AdapterSensor) (r : CameraReconcileResult) (cams : List CameraEntry) (w : W)
      → All (λ cam. is_parked cam ≡ false) cams
      → All (λ cam. is_some (lookup cam.id live) ≡ true) cams
      → converge_cameras adapter live r cams w ≡ (value (found_to r (ids_of cams)), w)
  unfolding converge_cameras converge_camera
  converge_cameras-settled live r [] w us ps =
      ap (λ l. (value (record r { already_present = l }), w)) (sym (append-nil r.already_present))
  converge_cameras-settled live r (cam ∷ cams) w (unparked, us) (present, ps) =
      rw (unparked, ensure-listed r cam (lookup cam.id live) w present)
        (converge_cameras-settled live (found r cam) cams w us ps
          ∙ ap (λ l. (value (record r { already_present = l }), w))
              (append_assoc r.already_present (cam.id ∷ []) (ids_of cams)))

  visit_extras-settled :
      (b : Bool) (desired : List String) (r : CameraReconcileResult) (ss : List AdapterSensor)
      (w : W)
      → All (λ s. is_extra desired s ≡ false) ss
      → visit_extras adapter b desired r ss w ≡ (value r, w)
  unfolding visit_extras visit_extra
  visit_extras-settled b desired r [] w h = refl
  visit_extras-settled b desired r (s ∷ ss) w (e, h) =
      rw e (visit_extras-settled b desired r ss w h)

  -- Where no desired camera is disabled, every one is listed by name, and no sensor is an extra one,
  -- a pass makes no call after the listing and reports every camera as present, and nothing else.
  pub settled :
      (desired : List CameraEntry) (b : Bool) (live : List AdapterSensor) (w w1 : W)
      → adapter.list_sensors w ≡ (value live, w1)
      → All (λ cam. is_parked cam ≡ false) desired
      → All (λ cam. is_listed live cam.id ≡ true) desired
      → All (λ s. is_extra (ids_of desired) s ≡ false) live
      → reconcile_cameras adapter desired b w
        ≡ (value (record empty_result { already_present = ids_of desired }), w1)
  unfolding reconcile_cameras
  settled desired b live w w1 e us ps xs =
      rw (e, converge_cameras-settled (by_name live) empty_result desired w1 us ps)
        (visit_extras-settled b (ids_of desired) _ live w1 xs)

append-ne-nil : {A : Type 0} (xs : List A) (x : A) → xs ++ x ∷ [] ≢ []
append-ne-nil [] x e = cc
append-ne-nil (y ∷ ys) x e = cc

-- After an answer that is ok the sensor of that name is known to the cluster, and the call ends no
-- sensor.
abbrev pub AddsKnown : {W : Type 0} → ClusterAdapter W → (String → W → Type 0) → Type 0
AddsKnown adapter IsKnown =
    (name url : String) (d : Option String) (w : _)
    → OnValue
        (λ (a : Answer) w'.
          (a.ok ≡ true → IsKnown name w') × ((other : String) → IsKnown other w → IsKnown other w'))
        (adapter.add_sensor name url d w)

-- What the cluster promises: a name whose last listed sensor is not a removed one is known, and
-- adding makes a name known.
pub record Registers {W : Type 0} (adapter : ClusterAdapter W) (IsKnown : String → W → Type 0)
    : Type 0 where
  pub at_list :
      (w : W)
      → OnValue
          (λ live w'.
            (name : String)
            → is_listed live name ≡ true
            → is_removed live name ≡ false
            → IsKnown name w')
          (adapter.list_sensors w)
  pub at_add : AddsKnown adapter IsKnown

module _ {W : Type 0} (adapter : ClusterAdapter W) (IsKnown : String → W → Type 0)
    (adds : AddsKnown adapter IsKnown) where
  -- From `r` and `w` the pass over `cams` has come to `r'` and `w'`.
  abbrev Converged :
      CameraReconcileResult → W → List CameraEntry → CameraReconcileResult → W → Type 0
  Converged r w cams r' w' =
      (r'.failed ≡ [] → (r.failed ≡ []) × All (λ cam. IsKnown cam.id w') cams)
      × ((other : String) → IsKnown other w → IsKnown other w')

  added :
      (r : CameraReconcileResult) (cam : CameraEntry) (w : W) (a : Answer)
      → (a.ok ≡ true → IsKnown cam.id w)
      → (after_add r cam.id a).failed ≡ []
      → (r.failed ≡ []) × All (λ c. IsKnown c.id w) (cam ∷ [])
  added r cam w a ok =
      if_rule
        (λ (r' : CameraReconcileResult).
          r'.failed ≡ [] → (r.failed ≡ []) × All (λ c. IsKnown c.id w) (cam ∷ []))
        a.ok (λ e f. (f, (ok e, tt))) (λ _ f. absurd (append-ne-nil r.failed _ f))

  camera-Converged :
      (live : Map AdapterSensor) (r : CameraReconcileResult) (cam : CameraEntry) (w : W)
      → is_parked cam ≡ false
      → (is_some (lookup cam.id live) ≡ true → IsKnown cam.id w)
      → OnValue (Converged r w (cam ∷ [])) (converge_camera adapter live r cam w)
  camera-Converged live r cam w unparked known =
      camera_rule adapter (Converged r w (cam ∷ [])) live r cam w (λ e. cc) (λ e _ _. cc)
        (λ _ p. ((λ e. (e, (known p, tt))), λ other h. h))
        (λ _.
          OnValue-map _ (λ a w'. Converged r w (cam ∷ []) (after_add r cam.id a) w') _
            (adds cam.id cam.rtsp_url cam.description w)
            (λ a w' (ok, keep). (added r cam w' a ok, keep)))

  visit_extras-kept :
      (desired : List String) (r : CameraReconcileResult) (ss : List AdapterSensor) (w : W)
      → OnValue
          (λ r' w'. (r'.failed ≡ r.failed) × (w' ≡ w))
          (visit_extras adapter false desired r ss w)
  unfolding visit_extras
  visit_extras-kept desired r [] w = (refl, refl)
  visit_extras-kept desired r (s ∷ ss) w =
      let Same : CameraReconcileResult → W → Type 0 = λ r' w'. (r'.failed ≡ r.failed) × (w' ≡ w) in
      OnValue-bind Same Same (visit_extra adapter false desired r s) _ w
        (extra_rule adapter Same false desired r s w (λ _. (refl, refl)) (λ _ _. (refl, refl))
          (λ _ p _. cc))
        (λ r1 w1 (f1, e1).
          OnValue-map _ Same _ (visit_extras-kept desired r1 ss w1)
            (λ r2 w2 (f2, e2). (f2 ∙ f1, e2 ∙ e1)))

  converge_cameras-Converged :
      (live : Map AdapterSensor) (r : CameraReconcileResult) (cams : List CameraEntry) (w : W)
      → All (λ cam. is_parked cam ≡ false) cams
      → ((name : String) → is_some (lookup name live) ≡ true → IsKnown name w)
      → OnValue (Converged r w cams) (converge_cameras adapter live r cams w)
  unfolding converge_cameras
  converge_cameras-Converged live r [] w us known = ((λ e. (e, tt)), λ other h. h)
  converge_cameras-Converged live r (cam ∷ cams) w (unparked, us) known =
      OnValue-bind (Converged r w (cam ∷ [])) _ (converge_camera adapter live r cam) _ w
        (camera-Converged live r cam w unparked (known cam.id))
        (λ r1 w1 (ok1, keep1).
          OnValue-map (Converged r1 w1 cams) (Converged r w (cam ∷ cams)) _
            (converge_cameras-Converged live r1 cams w1 us (λ name p. keep1 name (known name p)))
            (λ r2 w2 (ok2, keep2). (
              (λ f.
                  let (f1, later) = ok2 f in
                  let (f0, (here, _)) = ok1 f1 in (f0, (keep2 cam.id here, later))),
              λ other h. keep2 other (keep1 other h),
            )))

  pass-Converged :
      (desired : List CameraEntry) (live : List AdapterSensor) (w w1 : W)
      → adapter.list_sensors w ≡ (value live, w1)
      → All (λ cam. is_parked cam ≡ false) desired
      → ((name : String) → is_listed live name ≡ true → IsKnown name w1)
      → OnValue
          (λ r w'. r.failed ≡ [] → All (λ cam. IsKnown cam.id w') desired)
          (reconcile_cameras adapter desired false w)
  unfolding reconcile_cameras
  pass-Converged desired live w w1 e us known = rw e (
      OnValue-bind (Converged empty_result w1 desired) _
        (converge_cameras adapter (by_name live) empty_result desired) _ w1
        (converge_cameras-Converged (by_name live) empty_result desired w1 us known)
        (λ r w2 (ok, keep).
          OnValue-map (λ r' w'. (r'.failed ≡ r.failed) × (w' ≡ w2)) _ _
            (visit_extras-kept (ids_of desired) r live w2)
            (λ r' w' (same, at) f.
              subst (λ v. All (λ cam. IsKnown cam.id v) desired) (sym at) (ok (sym same ∙ f)).1)))

-- Known to the cluster, or the name of a sensor that was listed as removed.
abbrev pub IsSettled :
    {W : Type 0} → (String → W → Type 0) → List AdapterSensor → String → W → Type 0
IsSettled IsKnown live name w = IsKnown name w ⊎ (is_removed live name ≡ true)

module _ {W : Type 0} (adapter : ClusterAdapter W) (IsKnown : String → W → Type 0)
    (c : Registers adapter IsKnown) where
  adds-IsSettled : (live : List AdapterSensor) → AddsKnown adapter (IsSettled IsKnown live)
  adds-IsSettled live name url d w =
      OnValue-map
        (λ (a : Answer) w'.
          (a.ok ≡ true → IsKnown name w') × ((other : String) → IsKnown other w → IsKnown other w'))
        (λ (a : Answer) w'.
          (a.ok ≡ true → IsSettled IsKnown live name w')
          × ((other : String) → IsSettled IsKnown live other w → IsSettled IsKnown live other w'))
        _ (c.at_add name url d w)
        (λ a w' (ok, keep).
          (λ e. inl (ok e), λ other h. elim h [ inl k ↦ inl (keep other k) | inr t ↦ inr t ]))

  listed-IsSettled :
      (live : List AdapterSensor) (w w1 : W)
      → adapter.list_sensors w ≡ (value live, w1)
      → (name : String) → is_listed live name ≡ true
      → IsSettled IsKnown live name w1
  listed-IsSettled live w w1 e name present = elim (Bool-cases (is_removed live name)) [
    | inl dead ↦ inr dead
    | inr alive ↦ inl (
        OnValue-at
          (λ live w'.
            (name : String)
            → is_listed live name ≡ true
            → is_removed live name ≡ false
            → IsKnown name w')
          (adapter.list_sensors w) (c.at_list w) live w1 e name present alive)
  ]

  -- Without `prune`, where no desired camera is disabled, where a name whose last listed sensor is
  -- not a removed one is known to the cluster, and where adding a sensor makes it known: a pass that
  -- reports no failure ends with every desired camera known, but for those whose name the listing
  -- gave to a removed sensor.
  pub converges :
      (desired : List CameraEntry) (live : List AdapterSensor) (w w1 : W)
      → adapter.list_sensors w ≡ (value live, w1)
      → All (λ cam. is_parked cam ≡ false) desired
      → (r : CameraReconcileResult) (w' : W)
      → reconcile_cameras adapter desired false w ≡ (value r, w')
      → r.failed ≡ []
      → All (λ cam. IsSettled IsKnown live cam.id w') desired
  converges desired live w w1 e us =
      OnValue-at (λ r w'. r.failed ≡ [] → All (λ cam. IsSettled IsKnown live cam.id w') desired)
        (reconcile_cameras adapter desired false w)
        (pass-Converged adapter (IsSettled IsKnown live) (adds-IsSettled live) desired live w w1 e
          us (listed-IsSettled live w w1 e))
