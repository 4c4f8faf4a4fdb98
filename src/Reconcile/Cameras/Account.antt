-- ===== src/Reconcile/Cameras/Account.antt =====
-- What the result of a pass over the cameras reports.
use mathlib.Core.List.{append-nil, append_assoc, map-append}
use artesca_vss_console.Common.{
  String, Bool, false, ◌&&◌, List, [], ◌∷◌, ◌++◌, map, ◌≡◌, refl, sym, ap, ◌∙◌, ℕ, ◌+◌, All,
  if_rule, value, OnValue, OnValue-bind, OnValue-at, if◌then◌else◌, length, length-append, arith,
  is_some,
}
use artesca_vss_console.Common.Maps.{Map}
use artesca_vss_console.Reconcile.{CameraEntry, AdapterSensor, Answer, ClusterAdapter}
use artesca_vss_console.Reconcile.Cameras.Rule.{camera_rule, extra_rule, any_value, noted}
use artesca_vss_console.Reconcile.Cameras.{
  CameraReconcileResult, empty_result, is_parked, is_extra, by_name, ids_of, converge_camera,
  converge_cameras, visit_extra, visit_extras, reconcile_cameras, parked_note, extra_note,
  after_park, after_add, after_prune,
}

abbrev pub extra_of : List String → AdapterSensor → List String
extra_of desired s = if is_extra desired s then s.name ∷ [] else []

-- The names of the live sensors that the desired cameras do not explain.
abbrev pub extras : List String → List AdapterSensor → List String
extras desired [] = []
extras desired (s ∷ ss) = extra_of desired s ++ extras desired ss

abbrev IsNoted : CameraReconcileResult → Type 0
IsNoted r = r.drift ≡ map parked_note r.parked

-- The entries of the result, each of which a sensor or a camera made.
abbrev pub accounted : CameraReconcileResult → ℕ
accounted r =
    length r.added + length r.already_present + length r.failed + length r.pruned + length r.parked

module _ {W : Type 0} (adapter : ClusterAdapter W) where
  after_park-IsNoted :
      (r : CameraReconcileResult) (id : String) (res : Answer)
      → IsNoted r
      → IsNoted (after_park r id res)
  after_park-IsNoted r id res h =
      if_rule IsNoted res.ok
        (λ _.
          ap (λ l. l ++ parked_note id ∷ []) h ∙ sym (map-append parked_note r.parked (id ∷ [])))
        (λ _. h)

  converge_cameras-IsNoted :
      (live : Map AdapterSensor) (r : CameraReconcileResult) (cams : List CameraEntry) (w : W)
      → IsNoted r
      → OnValue (λ r' w'. IsNoted r') (converge_cameras adapter live r cams w)
  unfolding converge_cameras
  converge_cameras-IsNoted live r [] w h = h
  converge_cameras-IsNoted live r (cam ∷ cams) w h =
      OnValue-bind (λ r' w'. IsNoted r') _ (converge_camera adapter live r cam) _ w
        (camera_rule adapter (λ r' w'. IsNoted r') live r cam w (λ _. h)
          (λ _ s remove. any_value _ _ (λ a w'. after_park-IsNoted r cam.id a h)) (λ _ _. h)
          (λ _. any_value _ _ (λ a w'. if_rule IsNoted a.ok (λ _. h) (λ _. h))))
        (λ r' w' h'. converge_cameras-IsNoted live r' cams w' h')

  -- What is noted is the parked cameras, and then the extra sensors `es` so far.
  abbrev IsNotedTo : List String → CameraReconcileResult → Type 0
  IsNotedTo es r = r.drift ≡ map parked_note r.parked ++ map extra_note es

  noted-IsNotedTo :
      (es : List String) (r : CameraReconcileResult) (s : AdapterSensor)
      → IsNotedTo es r
      → IsNotedTo (es ++ s.name ∷ []) (noted r s)
  noted-IsNotedTo es r s h = simp (h, map-append, append_assoc)

  visit_extras-IsNotedTo :
      (b : Bool) (desired es : List String) (r : CameraReconcileResult) (ss : List AdapterSensor)
      (w : W)
      → IsNotedTo es r
      → OnValue
          (λ r' w'. IsNotedTo (es ++ extras desired ss) r')
          (visit_extras adapter b desired r ss w)
  unfolding visit_extras
  visit_extras-IsNotedTo b desired es r [] w h = rw append-nil h
  visit_extras-IsNotedTo b desired es r (s ∷ ss) w h =
      OnValue-bind (λ r' w'. IsNotedTo (es ++ extra_of desired s) r') _
        (visit_extra adapter b desired r s) _ w
        (extra_rule adapter (λ r' w'. IsNotedTo (es ++ extra_of desired s) r') b desired r s w
          (λ e. rw (e, append-nil) h) (λ e _. rw e (noted-IsNotedTo es r s h))
          (λ e _ remove.
            any_value
              (λ a w'. IsNotedTo (es ++ extra_of desired s) (after_prune (noted r s) s.name a)) _
              (λ a w'. rw e (
                if_rule (IsNotedTo (es ++ s.name ∷ [])) a.ok (λ _. noted-IsNotedTo es r s h)
                  (λ _. noted-IsNotedTo es r s h)))))
        (λ r' w' h'.
          rw (← append_assoc es (extra_of desired s) (extras desired ss))
            (visit_extras-IsNotedTo b desired (es ++ extra_of desired s) r' ss w' h'))

  after_add-accounted :
      (r : CameraReconcileResult) (id : String) (res : Answer)
      → accounted (after_add r id res) ≡ accounted r + 1
  after_add-accounted r id res = ground (
    arith,
    length-append r.added (id ∷ []),
    length-append r.failed (record { id = id; warning = res.warning } ∷ []),
  )

  after_prune-accounted :
      (r : CameraReconcileResult) (name : String) (res : Answer)
      → accounted (after_prune r name res) ≡ accounted r + 1
  after_prune-accounted r name res = ground (
    arith,
    length-append r.pruned (name ∷ []),
    length-append r.failed (record { id = name; warning = res.warning } ∷ []),
  )

  converge_cameras-accounted :
      (live : Map AdapterSensor) (n : ℕ) (r : CameraReconcileResult) (cams : List CameraEntry)
      (w : W)
      → accounted r + length cams ≡ n
      → All (λ cam. is_parked cam ≡ false) cams
      → OnValue (λ r' w'. accounted r' ≡ n) (converge_cameras adapter live r cams w)
  unfolding converge_cameras
  converge_cameras-accounted live n r [] w h _ = omega arith
  converge_cameras-accounted live n r (cam ∷ cams) w h (unparked, us) =
      let Q : CameraReconcileResult → W → Type 0 = λ r' w'. accounted r' + length cams ≡ n in
      OnValue-bind Q (λ r' w'. accounted r' ≡ n) (converge_camera adapter live r cam) _ w
        (camera_rule adapter Q live r cam w (λ e. cc) (λ e _ _. cc)
          (λ _ _. omega (arith, length-append r.already_present (cam.id ∷ [])))
          (λ _.
            any_value (λ a w'. Q (after_add r cam.id a) w') _
              (λ a w'. omega (arith, after_add-accounted r cam.id a))))
        (λ r' w' h'. converge_cameras-accounted live n r' cams w' h' us)

  -- The removals that the extra sensors ask for.
  abbrev pub prunes : Bool → List String → List AdapterSensor → ℕ
  prunes b desired ss = if b && is_some adapter.remove_sensor then length (extras desired ss) else 0

  visit_extras-accounted :
      (b : Bool) (desired : List String) (n : ℕ) (r : CameraReconcileResult)
      (ss : List AdapterSensor) (w : W)
      → accounted r + prunes b desired ss ≡ n
      → OnValue (λ r' w'. accounted r' ≡ n) (visit_extras adapter b desired r ss w)
  unfolding visit_extras
  visit_extras-accounted b desired n r [] w h = ground arith
  visit_extras-accounted b desired n r (s ∷ ss) w h =
      let Q : CameraReconcileResult → W → Type 0 =
        λ r' w'. accounted r' + prunes b desired ss ≡ n in
      OnValue-bind Q (λ r' w'. accounted r' ≡ n) (visit_extra adapter b desired r s) _ w
        (extra_rule adapter Q b desired r s w
          (λ e. ground (arith, length-append (extra_of desired s) (extras desired ss)))
          (λ e p. ground (arith, length-append (extra_of desired s) (extras desired ss)))
          (λ e p remove.
            any_value (λ a w'. Q (after_prune (noted r s) s.name a) w') _
              (λ a w'. ground (
                arith,
                length-append (extra_of desired s) (extras desired ss),
                after_prune-accounted (noted r s) s.name a,
              ))))
        (λ r' w' h'. visit_extras-accounted b desired n r' ss w' h')

  -- Where the listing answers, the drift of a pass that ends is a note for every camera it parked and then
  -- one for every live sensor that no desired camera explains, in the order of the listing.
  pub drift-exact :
      (desired : List CameraEntry) (b : Bool) (live : List AdapterSensor) (w w1 : W)
      → adapter.list_sensors w ≡ (value live, w1)
      → (r : CameraReconcileResult) (w' : W) → reconcile_cameras adapter desired b w ≡ (value r, w')
      → r.drift ≡ map parked_note r.parked ++ map extra_note (extras (ids_of desired) live)
  unfolding reconcile_cameras
  drift-exact desired b live w w1 e =
      OnValue-at
        (λ r w'.
          r.drift ≡ map parked_note r.parked ++ map extra_note (extras (ids_of desired) live))
        (reconcile_cameras adapter desired b w)
        (rw e (
          OnValue-bind (λ r w'. IsNoted r) _
            (converge_cameras adapter (by_name live) empty_result desired) _ w1
            (converge_cameras-IsNoted (by_name live) empty_result desired w1 refl)
            (λ r w2 h.
              visit_extras-IsNotedTo b (ids_of desired) [] r live w2 (h ∙ sym (append-nil _)))))

  -- Where the listing answers and no desired camera is disabled, a pass that ends reports as many
  -- entries as there are desired cameras, plus one for each extra live sensor where it prunes and the
  -- cluster can remove a sensor.
  pub reports-exact :
      (desired : List CameraEntry) (b : Bool) (live : List AdapterSensor) (w w1 : W)
      → adapter.list_sensors w ≡ (value live, w1)
      → All (λ cam. is_parked cam ≡ false) desired
      → (r : CameraReconcileResult) (w' : W) → reconcile_cameras adapter desired b w ≡ (value r, w')
      → accounted r ≡ length desired + prunes b (ids_of desired) live
  unfolding reconcile_cameras
  reports-exact desired b live w w1 e us =
      OnValue-at (λ r w'. accounted r ≡ length desired + prunes b (ids_of desired) live)
        (reconcile_cameras adapter desired b w)
        (rw e (
          OnValue-bind (λ r w'. accounted r ≡ length desired) _
            (converge_cameras adapter (by_name live) empty_result desired) _ w1
            (converge_cameras-accounted (by_name live) (length desired) empty_result desired w1
              (omega arith) us)
            (λ r w2 h. visit_extras-accounted b (ids_of desired) _ r live w2 (omega arith))))
