-- ===== src/Footage/Rules/Profiles.antt =====
-- Which profiles are offered: those that the live cameras' entries have.
use artesca_vss_console.Common.{
  String, Bool, not, ◌&&◌, ◌||◌, Option, none, some, List, [], ◌∷◌, any, ◌≡◌, refl, ap, ◌∙◌, arith,
  value, OnValue, get_or, truthy, ◌==◌, includes, includes-append, eq_iff, Bool-cases, inl, inr,
  is_some, is_text,
}
use artesca_vss_console.Footage.{RuleEntry, RulesDoc, RunDeps}
use artesca_vss_console.Footage.Names.{is_footage_camera}
use artesca_vss_console.Footage.Rules.{
  AlertProfile, default_profile, add_profile, profile_from, profiles_from, or_default,
  list_alert_profiles,
}

-- Is it the profile of an alert type, with the camera?
abbrev pub lists : String → String → AlertProfile → Bool
lists kind camera p = p.alert_type == kind && includes p.cameras camera

abbrev offers_with : String → String → Option String → Option String → Option String → Bool
offers_with kind camera k prompt sensor =
    is_text k kind && is_some prompt && is_text sensor camera && not (is_footage_camera camera)

-- Is it an entry of the camera, with the alert type and a prompt, that is no test camera's?
abbrev pub offers : String → String → RuleEntry → Bool
offers kind camera r =
    offers_with kind camera (truthy r.alert_type) (truthy r.prompt) (truthy r.sensor)

add_profile-lists :
    (kind camera k prompt : String) (cameras : List String) (ps : List AlertProfile)
    → any (lists kind camera) (add_profile k prompt cameras ps)
      ≡ (any (lists kind camera) ps || k == kind && includes cameras camera)
unfolding add_profile
add_profile-lists kind camera k prompt cameras [] = ground arith
add_profile-lists kind camera k prompt cameras (p ∷ ps) = ground (
  arith,
  add_profile-lists kind camera k prompt cameras ps,
  includes-append p.cameras cameras camera,
  eq_iff p.alert_type k,
  eq_iff p.alert_type kind,
  eq_iff k kind,
)

profile_from-lists :
    (kind camera : String) (k prompt sensor : Option String) (ps : List AlertProfile)
    → any (lists kind camera) (profile_from k prompt sensor ps)
      ≡ (any (lists kind camera) ps || offers_with kind camera k prompt sensor)
profile_from-lists kind camera none prompt sensor ps = ground arith
profile_from-lists kind camera (some k) none sensor ps = ground arith
profile_from-lists kind camera (some k) (some prompt) none ps =
    add_profile-lists kind camera k prompt [] ps ∙ ground arith
profile_from-lists kind camera (some k) (some prompt) (some s) ps =
    elim (Bool-cases (s == camera)) [
      | inl e ↦ ground (
        arith,
        add_profile-lists kind camera k prompt (s ∷ []) ps,
        ap is_footage_camera ((eq_iff s camera).0 e),
      )
      | inr e ↦ ground (arith, add_profile-lists kind camera k prompt (s ∷ []) ps)
    ]

profiles_from-lists :
    (kind camera : String) (ps : List AlertProfile) (rs : List RuleEntry)
    → any (lists kind camera) (profiles_from ps rs)
      ≡ (any (lists kind camera) ps || any (offers kind camera) rs)
unfolding profiles_from
profiles_from-lists kind camera ps [] = ground arith
profiles_from-lists kind camera ps (r ∷ rs) = ground (
  arith,
  profiles_from-lists kind camera
      (profile_from (truthy r.alert_type) (truthy r.prompt) (truthy r.sensor) ps) rs,
  profile_from-lists kind camera (truthy r.alert_type) (truthy r.prompt) (truthy r.sensor) ps,
)

or_default-lists :
    (kind camera : String) (ps : List AlertProfile)
    → any (lists kind camera) (or_default ps) ≡ any (lists kind camera) ps
unfolding default_profile
or_default-lists kind camera [] = ground arith
or_default-lists kind camera (p ∷ ps) = refl

-- Where the rules document is read, a profile of an alert type with a camera is offered exactly where
-- the document has an entry of that camera, which is no test camera, with that alert type and a prompt.
pub list_alert_profiles-exact :
    {W : Type 0} (deps : RunDeps W) (kind camera : String) (doc : RulesDoc)
    (version : Option String) (w w1 : W)
    → deps.read_rules w ≡ (value (doc, version), w1)
    → OnValue
        (λ ps w2. any (lists kind camera) ps ≡ any (offers kind camera) (get_or doc.rules []))
        (list_alert_profiles deps w)
unfolding list_alert_profiles
list_alert_profiles-exact deps kind camera doc version w w1 e = rw e (
    or_default-lists kind camera (profiles_from [] (get_or doc.rules []))
    ∙ profiles_from-lists kind camera [] (get_or doc.rules []))
