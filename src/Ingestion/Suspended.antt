-- ===== src/Ingestion/Suspended.antt =====
-- What a suspension deletes: the live rules of the camera, and no other.
use artesca_vss_console.Common.{
  String, Bool, true, false, not, ◌&&◌, ◌||◌, Option, none, some, List, [], ◌∷◌, ◌++◌, filter,
  includes, ◌≡◌, refl, ap, ◌∙◌, arith, OnValue, OnValue-bind, truthy, is_text, ◌==◌, eq_iff,
  Bool-cases, inl, inr,
}
use artesca_vss_console.Footage.{Answered, warned}
use artesca_vss_console.Footage.Stop.{warning_list}
use artesca_vss_console.Ingestion.{LiveRule, IngestionDeps, id_if, rule_ids, answer_from}
use artesca_vss_console.Ingestion.Switch.{delete_each, suspend_listed, suspend_ingestion}

abbrev pub without : String → List LiveRule → List LiveRule
without id rules = filter (λ r. not (is_text r.id id)) rules

-- The live rules of the alert bridge: a listing without a warning gives them, and a deletion without a
-- warning takes the rule.
pub record RuleLaws {W : Type 0} (deps : IngestionDeps W) : Type 0 where
  pub live : W → List LiveRule
  pub list_realtime_rules-lists :
      (w : W)
      → OnValue
          (λ (r : List LiveRule × Option String) w1.
            truthy r.1 ≡ none → (r.0 ≡ live w) × (live w1 ≡ live w))
          (deps.list_realtime_rules w)
  pub delete_realtime_rule-deletes :
      (id : String) (w : W)
      → OnValue
          (λ res w1. warned res ≡ none → live w1 ≡ without id (live w))
          (deps.delete_realtime_rule id w)

id_if-includes :
    (b : Bool) (o : Option String) (ids : List String) (x : String)
    → includes (id_if b o ids) x ≡ (b && is_text o x || includes ids x)
id_if-includes true none ids x = refl
id_if-includes true (some y) ids x = refl
id_if-includes false o ids x = refl

truthy-same :
    (o : Option String) (id x : String)
    → is_text o id ≡ true
    → (is_text (truthy o) x && not (id == x)) ≡ false
truthy-same none id x e = refl
truthy-same (some y) id x e = elim (Bool-cases (y == "")) [
  | inl empty ↦ rw empty refl
  | inr full ↦ rw full (ground (arith, eq_iff y id, eq_iff y x, eq_iff id x))
]

truthy-other :
    (o : Option String) (id x : String)
    → is_text o id ≡ false
    → (is_text (truthy o) x && id == x) ≡ false
truthy-other none id x e = refl
truthy-other (some y) id x e = elim (Bool-cases (y == "")) [
  | inl empty ↦ rw empty refl
  | inr full ↦ rw full (ground (arith, eq_iff y id, eq_iff y x, eq_iff id x))
]

rule_ids-without :
    (camera id : String) (rules : List LiveRule) (x : String)
    → includes (rule_ids camera (without id rules)) x
      ≡ (includes (rule_ids camera rules) x && not (id == x))
unfolding rule_ids
rule_ids-without camera id [] x = refl
rule_ids-without camera id (r ∷ rs) x = elim (Bool-cases (is_text r.id id)) [
  | inl e ↦
      rw
        (
          e,
          id_if-includes (is_text r.sensor_name camera) (truthy r.id) (rule_ids camera rs) x,
          rule_ids-without camera id rs x,
        )
        (ground (arith, truthy-same r.id id x e))
  | inr e ↦
      rw
        (
          e,
          id_if-includes (is_text r.sensor_name camera) (truthy r.id)
              (rule_ids camera (without id rs)) x,
          id_if-includes (is_text r.sensor_name camera) (truthy r.id) (rule_ids camera rs) x,
          rule_ids-without camera id rs x,
        )
        (ground (arith, truthy-other r.id id x e))
]

abbrev without_all : List String → List LiveRule → List LiveRule
without_all [] rules = rules
without_all (id ∷ ids) rules = without_all ids (without id rules)

rule_ids-without_all :
    (camera : String) (ids : List String) (rules : List LiveRule) (x : String)
    → includes (rule_ids camera (without_all ids rules)) x
      ≡ (includes (rule_ids camera rules) x && not (includes ids x))
rule_ids-without_all camera [] rules x = ground arith
rule_ids-without_all camera (id ∷ ids) rules x = ground (
  arith,
  rule_ids-without_all camera ids (without id rules) x,
  rule_ids-without camera id rules x,
)

module _ {W : Type 0} {deps : IngestionDeps W} (laws : RuleLaws deps) where
  delete_each-without_all :
      (ids : List String) (w : W)
      → OnValue
          (λ ws w1. ws ≡ [] → laws.live w1 ≡ without_all ids (laws.live w))
          (delete_each deps ids w)
  unfolding delete_each
  delete_each-without_all [] w = λ e. refl
  delete_each-without_all (id ∷ ids) w =
      OnValue-bind (λ res w1. warned res ≡ none → laws.live w1 ≡ without id (laws.live w))
        (λ ws w1. ws ≡ [] → laws.live w1 ≡ without_all (id ∷ ids) (laws.live w))
        (deps.delete_realtime_rule id) _ w (laws.delete_realtime_rule-deletes id w)
        λ res w1 gone.
          OnValue-bind (λ ws w2. ws ≡ [] → laws.live w2 ≡ without_all ids (laws.live w1))
            (λ ws w2. ws ≡ [] → laws.live w2 ≡ without_all (id ∷ ids) (laws.live w))
            (delete_each deps ids) _ w1 (delete_each-without_all ids w1)
            (λ rest w2 more e. split_warnings w w1 w2 (warned res) rest e gone more)
    where
      split_warnings :
          (w0 w1 w2 : W) (o : Option String) (rest : List String)
          → warning_list o ++ rest ≡ []
          → (o ≡ none → laws.live w1 ≡ without id (laws.live w0))
          → (rest ≡ [] → laws.live w2 ≡ without_all ids (laws.live w1))
          → laws.live w2 ≡ without_all (id ∷ ids) (laws.live w0)
      split_warnings w0 w1 w2 none rest e gone more = more e ∙ ap (without_all ids) (gone refl)
      split_warnings w0 w1 w2 (some x) rest e gone more = cc

  answered_ok : (ws : List String) → (answer_from ws).ok ≡ true → ws ≡ []
  answered_ok [] e = refl
  answered_ok (x ∷ xs) e = cc

  -- Where a listing or a deletion that comes without a warning has done what it was asked for, a
  -- suspension that answers that all is well has deleted the live rules of the camera, as far as they
  -- have identifiers, and those only.
  pub suspend_ingestion-deletes :
      (camera : String) (w : W)
      → OnValue
          (λ (res : Answered) w1.
            res.ok ≡ true
            → (other id : String)
            → includes (rule_ids other (laws.live w1)) id ≡ (
                includes (rule_ids other (laws.live w)) id
                && not (includes (rule_ids camera (laws.live w)) id)))
          (suspend_ingestion deps camera w)
  unfolding suspend_ingestion
  suspend_ingestion-deletes camera w =
      OnValue-bind (λ r w1. truthy r.1 ≡ none → (r.0 ≡ laws.live w) × (laws.live w1 ≡ laws.live w))
        Deleted deps.list_realtime_rules _ w (laws.list_realtime_rules-lists w)
        (λ (rules, warning) w1 h. suspended (truthy warning) rules w1 h)
    where
      Deleted : Answered → W → Type 0
      Deleted res w1 =
          res.ok ≡ true
          → (other id : String)
          → includes (rule_ids other (laws.live w1)) id ≡ (
              includes (rule_ids other (laws.live w)) id
              && not (includes (rule_ids camera (laws.live w)) id))

      suspended :
          (o : Option String) (rules : List LiveRule) (w1 : W)
          → (o ≡ none → (rules ≡ laws.live w) × (laws.live w1 ≡ laws.live w))
          → OnValue Deleted (suspend_listed deps camera o rules w1)
      suspended (some warning) rules w1 h = λ e. cc
      suspended none rules w1 h =
          OnValue-bind
            (λ ws w2. ws ≡ [] → laws.live w2 ≡ without_all (rule_ids camera rules) (laws.live w1))
            Deleted (delete_each deps (rule_ids camera rules)) _ w1
            (delete_each-without_all (rule_ids camera rules) w1)
            (λ ws w2 k e other id.
              rw (k (answered_ok ws e), (h refl).1, (h refl).0)
                (rule_ids-without_all other (rule_ids camera (laws.live w)) (laws.live w) id))
