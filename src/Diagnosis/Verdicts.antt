-- ===== src/Diagnosis/Verdicts.antt =====
-- What the diagnosis as a whole says: when a camera is healthy, and what a blocked link means.
use artesca_vss_console.Common.{
  Bool, true, false, not, ◌&&◌, ◌||◌, Option, none, some, List, [], ◌∷◌, any, filter, find?, ◌≡◌,
  refl, arith, is_some, truthy, Bool-cases, inl, inr,
}
use artesca_vss_console.Diagnosis.Links.{
  is_blocked, is_bad, is_silent, is_sole, source_step-bad, sensor_step-bad, stream_step-bad,
  recording_step-bad, rule_step-bad, scenario_step-bad, sensor_step-fail, source_step-blocked,
  sensor_step-blocked, stream_step-blocked, stream_step-fail, recording_step-blocked,
  rule_step-blocked, scenario_step-blocked,
}
use artesca_vss_console.Diagnosis.{
  ChainStep, ChainInput, is_fail, is_warn, first_bad, verdict_of, rules_of, is_bound, steps_of,
  build_camera_chain,
}

-- A link that is blocked stands behind one that fails; `seen` says whether one has failed before.
abbrev pub are_explained : Bool → List ChainStep → Bool
are_explained seen [] = true
are_explained seen (s ∷ ss) = (not (is_blocked s) || seen) && are_explained (seen || is_fail s) ss

-- The camera has a URL, a registered sensor and an armed stream, the storage is up, the probe has
-- not found it silent, it has one rule that agrees with the served model, and a scenario covers it.
abbrev pub is_healthy : ChainInput → Bool
is_healthy i =
    is_some (truthy i.camera.rtsp_url)
    && i.registered
    && is_some (truthy i.stream_id)
    && i.storage_ok
    && not (is_silent i.recording)
    && is_sole (truthy i.live_model) (rules_of i.camera.id i.rules)
    && any (is_bound i.camera.id) i.scenarios

first_bad-some : (o : Option ChainStep) (s : ChainStep) → is_some (first_bad o (some s)) ≡ true
first_bad-some none s = refl
first_bad-some (some r) s = refl

verdict_of-bad : (steps : List ChainStep) → is_some (verdict_of steps) ≡ any is_bad steps
unfolding verdict_of
verdict_of-bad [] = refl
verdict_of-bad (s ∷ ss) = elim (Bool-cases (is_fail s)) [
  | inl e ↦ rw e refl
  | inr e ↦ rw e (elim (Bool-cases (is_warn s)) [
    | inl f ↦ rw f (first_bad-some (find? is_fail ss) s)
    | inr f ↦ rw f (verdict_of-bad ss)
  ])
]

any-filter : {A : Type 0} (p : A → Bool) (xs : List A) → any (λ _. true) (filter p xs) ≡ any p xs
any-filter p [] = refl
any-filter p (x ∷ xs) = elim (Bool-cases (p x)) [
  | inl e ↦ rw e refl
  | inr e ↦ rw e (any-filter p xs)
]

-- A chain has no verdict exactly where the camera is healthy, by the conditions on what was observed.
pub verdict-is_healthy :
    (i : ChainInput) → is_some (build_camera_chain i).verdict ≡ not (is_healthy i)
unfolding build_camera_chain steps_of
verdict-is_healthy i =
    rw
      (
        verdict_of-bad, source_step-bad, sensor_step-bad, stream_step-bad, recording_step-bad,
        rule_step-bad, scenario_step-bad, any-filter,
      )
      (ground arith)

-- A link is reported as blocked only behind a link that fails.
pub steps-are_explained : (i : ChainInput) → are_explained false (build_camera_chain i).steps ≡ true
unfolding build_camera_chain steps_of
steps-are_explained i =
    rw
      (
        source_step-blocked, sensor_step-blocked, sensor_step-fail, stream_step-blocked,
        stream_step-fail, recording_step-blocked, rule_step-blocked, scenario_step-blocked,
      )
      (ground arith)
