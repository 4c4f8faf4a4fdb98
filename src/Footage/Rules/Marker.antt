-- ===== src/Footage/Rules/Marker.antt =====
-- What the set of the paused cameras comes to: the mark that is written is the one that is read.
use artesca_vss_console.Common.{
  String, Option, none, some, List, [], ◌∷◌, ◌≡◌, refl, sym, ap, ◌∙◌, value, OnValue, OnValue-at,
  pure, ◌>>◌, try_catch, try_catch-state, try_catch-Returns, Leaves, Leaves-bind, Leaves-then,
  Leaves-catch, Returns,
}
use artesca_vss_console.Footage.{PausedField, RulesDoc, RunDeps}
use artesca_vss_console.Footage.Rules.{
  field_of, sensors_in, marked, mark_failed, mark_document, roll, restarted, set_paused_sensors,
  paused_sensors,
}

-- The mark that the rules document has is read and patched, and the reconciler's restart leaves it.
pub record MarkLaws {W : Type 0} (deps : RunDeps W) : Type 0 where
  pub mark : W → PausedField
  pub read_rules-reads :
      (w : W)
      → OnValue
          (λ (r : RulesDoc × Option String) w1. r.0.paused_sensors ≡ mark w)
          (deps.read_rules w)
  pub read_rules-Leaves : Leaves mark deps.read_rules
  pub patch_rules-marks :
      (d : RulesDoc) (v : Option String) (w : W)
      → OnValue (λ _ w1. mark w1 ≡ d.paused_sensors) (deps.patch_rules d v w)
  pub rollout_restart-Leaves : Leaves mark deps.rollout_restart
  pub wait_for_rollout-Leaves : Leaves mark deps.wait_for_rollout

pub set_paused_sensors-Returns :
    {W : Type 0} (deps : RunDeps W) (sensors : List String)
    → Returns (set_paused_sensors deps sensors)
unfolding set_paused_sensors
set_paused_sensors-Returns deps sensors = try_catch-Returns _ _

module _ {W X : Type 0} (deps : RunDeps W) (read : W → X) where
  roll-Leaves :
      Leaves read deps.wait_for_rollout
      → (warning : Option String) → Leaves read (roll deps warning)
  roll-Leaves h (some m) w = refl
  roll-Leaves h none w = Leaves-bind read deps.wait_for_rollout _ h (λ rolled w. refl) w

  pub restarted-Leaves :
      Leaves read deps.rollout_restart
      → Leaves read deps.wait_for_rollout
      → Leaves read (restarted deps)
  restarted-Leaves restart-Leaves wait-Leaves =
      Leaves-bind read (try_catch (deps.rollout_restart >> pure none) _) (roll deps)
        (Leaves-catch read _ _ (Leaves-then read _ _ restart-Leaves (λ w. refl)))
        (roll-Leaves wait-Leaves)

  pub paused_sensors-Leaves : Leaves read deps.read_rules → Leaves read (paused_sensors deps)
  unfolding paused_sensors
  paused_sensors-Leaves h = Leaves-catch read _ _ (Leaves-bind read _ _ h (λ r w. refl))

  pub set_paused_sensors-Leaves :
      (sensors : List String)
      → Leaves read deps.read_rules
      → ((d : RulesDoc) (v : Option String) → Leaves read (deps.patch_rules d v))
      → Leaves read (restarted deps)
      → Leaves read (set_paused_sensors deps sensors)
  unfolding set_paused_sensors
  set_paused_sensors-Leaves sensors h k restart = Leaves-catch read _ _ (
      Leaves-bind read deps.read_rules _ h (λ r.
        Leaves-bind read (deps.patch_rules (marked r.0 sensors) r.1) _ (k _ _) (λ _. restart)))

module _ {W : Type 0} {deps : RunDeps W} (laws : MarkLaws deps) (readable : Returns deps.read_rules)
    (patchable : (d : RulesDoc) (v : Option String) → Returns (deps.patch_rules d v)) where
  -- The mark is set, however the restart of the reconciler goes.
  pub set_paused_sensors-marks :
      (sensors : List String) (w : W)
      → laws.mark (set_paused_sensors deps sensors w).1 ≡ field_of sensors
  unfolding set_paused_sensors
  set_paused_sensors-marks sensors w =
      let (r, w1, e) = readable w in
      let (u, w2, f) = patchable (marked r.0 sensors) r.1 w1 in
      ap laws.mark (try_catch-state (mark_document deps sensors) (λ e. some (mark_failed e)) w)
      ∙ rw (e, f)
          (restarted-Leaves deps laws.mark laws.rollout_restart-Leaves laws.wait_for_rollout-Leaves
              w2
            ∙ OnValue-at _ _ (laws.patch_rules-marks _ _ w1) u w2 f)

  pub paused_sensors-reads :
      (w : W) → (w1 : W) × (paused_sensors deps w ≡ (value (sensors_in (laws.mark w)), w1))
  unfolding paused_sensors
  paused_sensors-reads w =
      let (r, w1, e) = readable w in
      (w1, rw (e, sym (OnValue-at _ _ (laws.read_rules-reads w) r w1 e)) refl)

  sensors_in-field_of : (sensors : List String) → sensors_in (field_of sensors) ≡ sensors
  sensors_in-field_of [] = refl
  sensors_in-field_of (s ∷ ss) = refl

  -- Where the rules document can be read and patched, the cameras that are marked as paused are read
  -- back, however the restart of the reconciler goes.
  pub paused_sensors-set_paused_sensors :
      (sensors : List String) (w : W)
      → (w1 : W) × ((set_paused_sensors deps sensors >> paused_sensors deps) w
          ≡ (value sensors, w1))
  paused_sensors-set_paused_sensors sensors w =
      let (u, w1, e) = set_paused_sensors-Returns deps sensors w in
      let (w2, f) = paused_sensors-reads w1 in
      (
        w2,
        rw
            (
              e,
              f,
              sym (ap (λ t. laws.mark t.1) e),
              set_paused_sensors-marks sensors w,
              sensors_in-field_of,
            )
            refl,
      )
