-- ===== src/Diagnosis/Links.antt =====
-- What the links of the chain report, against conditions on what was observed.
use artesca_vss_console.Common.{
  String, Bool, true, false, not, ◌&&◌, ◌||◌, Option, none, some, List, [], ◌∷◌, any, ◌≡◌, refl,
  is_some, Bool-cases, inl, inr,
}
use artesca_vss_console.Recovery.{RecordingStatus}
use artesca_vss_console.Diagnosis.{
  blocked, ChainStep, RealtimeRule, ScenarioBinding, source_step, sensor_step, stream_step,
  probed_step, recording_step, is_drifted, drifted, drifted_step, duplicated_step, present_step,
  rule_step, scenario_step, is_fail, is_warn,
}

abbrev pub is_blocked : ChainStep → Bool
is_blocked s = elim s.state [ blocked ↦ true | _ ↦ false ]

abbrev pub is_bad : ChainStep → Bool
is_bad s = is_fail s || is_warn s

-- What is wrong with a link, in the order of the links.
abbrev pub is_silent : RecordingStatus → Bool
is_silent RecordingStatus.not_recording = true
is_silent _ = false

abbrev pub agrees : Option String → RealtimeRule → Bool
agrees none r = true
agrees (some live) r = not (is_drifted live r)

-- There is exactly one rule, and it names no model but the served one.
abbrev pub is_sole : Option String → List RealtimeRule → Bool
is_sole live [] = false
is_sole live (r ∷ []) = agrees live r
is_sole live (r ∷ s ∷ rs) = false

pub source_step-bad : (o : Option String) → is_bad (source_step o) ≡ not (is_some o)
unfolding source_step
source_step-bad none = refl
source_step-bad (some url) = refl

pub sensor_step-bad : (b : Bool) (o : Option String) → is_bad (sensor_step b o) ≡ not b
unfolding sensor_step
sensor_step-bad true o = refl
sensor_step-bad false o = refl

pub stream_step-bad :
    (b : Bool) (o : Option String) → is_bad (stream_step b o) ≡ (b && not (is_some o))
unfolding stream_step
stream_step-bad true none = refl
stream_step-bad true (some sid) = refl
stream_step-bad false o = refl

pub recording_step-bad :
    (up : Bool) (reason : Option String) (armed : Bool) (status : RecordingStatus)
    → is_bad (recording_step up reason armed status) ≡ (not up || armed && is_silent status)
unfolding recording_step probed_step
recording_step-bad false reason armed status = refl
recording_step-bad true reason false status = refl
recording_step-bad true reason true RecordingStatus.recording = refl
recording_step-bad true reason true RecordingStatus.not_recording = refl
recording_step-bad true reason true RecordingStatus.unknown = refl

pub present_step-bad :
    (o : Option RealtimeRule) (live : String) (first second : RealtimeRule)
    (others : List RealtimeRule)
    → is_bad (present_step o live first (second ∷ others)) ≡ true
unfolding present_step drifted_step duplicated_step
present_step-bad none live first second others = refl
present_step-bad (some r) live first second others = refl

pub rule_step-bad :
    (live : Option String) (mine : List RealtimeRule)
    → is_bad (rule_step live mine) ≡ not (is_sole live mine)
unfolding rule_step drifted present_step drifted_step
rule_step-bad live [] = refl
rule_step-bad none (r ∷ []) = refl
rule_step-bad (some l) (r ∷ []) = elim (Bool-cases (is_drifted l r)) [
  | inl e ↦ rw e refl
  | inr e ↦ rw e refl
]
rule_step-bad live (r ∷ s ∷ rs) = present_step-bad (drifted live (r ∷ s ∷ rs)) _ r s rs

pub scenario_step-bad :
    (ss : List ScenarioBinding) → is_bad (scenario_step ss) ≡ not (any (λ _. true) ss)
unfolding scenario_step
scenario_step-bad [] = refl
scenario_step-bad (s ∷ ss) = refl

pub stream_step-blocked : (b : Bool) (o : Option String) → is_blocked (stream_step b o) ≡ not b
unfolding stream_step
stream_step-blocked true none = refl
stream_step-blocked true (some sid) = refl
stream_step-blocked false o = refl

pub stream_step-fail :
    (b : Bool) (o : Option String) → is_fail (stream_step b o) ≡ (b && not (is_some o))
unfolding stream_step
stream_step-fail true none = refl
stream_step-fail true (some sid) = refl
stream_step-fail false o = refl

pub recording_step-blocked :
    (up : Bool) (reason : Option String) (armed : Bool) (status : RecordingStatus)
    → is_blocked (recording_step up reason armed status) ≡ (up && not armed)
unfolding recording_step probed_step
recording_step-blocked false reason armed status = refl
recording_step-blocked true reason false status = refl
recording_step-blocked true reason true RecordingStatus.recording = refl
recording_step-blocked true reason true RecordingStatus.not_recording = refl
recording_step-blocked true reason true RecordingStatus.unknown = refl

pub present_step-blocked :
    (o : Option RealtimeRule) (live : String) (first : RealtimeRule) (others : List RealtimeRule)
    → is_blocked (present_step o live first others) ≡ false
unfolding present_step drifted_step duplicated_step
present_step-blocked (some r) live first others = refl
present_step-blocked none live first [] = refl
present_step-blocked none live first (second ∷ others) = refl

pub rule_step-blocked :
    (live : Option String) (mine : List RealtimeRule) → is_blocked (rule_step live mine) ≡ false
unfolding rule_step
rule_step-blocked live [] = refl
rule_step-blocked live (r ∷ rs) = present_step-blocked (drifted live (r ∷ rs)) _ r rs

pub scenario_step-blocked : (ss : List ScenarioBinding) → is_blocked (scenario_step ss) ≡ false
unfolding scenario_step
scenario_step-blocked [] = refl
scenario_step-blocked (s ∷ ss) = refl

pub sensor_step-fail : (b : Bool) (o : Option String) → is_fail (sensor_step b o) ≡ not b
unfolding sensor_step
sensor_step-fail true o = refl
sensor_step-fail false o = refl

pub source_step-blocked : (o : Option String) → is_blocked (source_step o) ≡ false
unfolding source_step
source_step-blocked none = refl
source_step-blocked (some url) = refl

pub sensor_step-blocked : (b : Bool) (o : Option String) → is_blocked (sensor_step b o) ≡ false
unfolding sensor_step
sensor_step-blocked true o = refl
sensor_step-blocked false o = refl
