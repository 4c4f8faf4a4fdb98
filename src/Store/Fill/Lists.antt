-- ===== src/Store/Fill/Lists.antt =====
-- The document after a fill, against a description list by list; and that one fill is enough.
use mathlib.Core.Option.{some-injective}
use artesca_vss_console.Common.{
  String, Bool, true, false, not, ◌&&◌, Option, none, some, List, [], ◌∷◌, ◌++◌, map, ◌≡◌, refl,
  arith, ◌∙◌, if_rule, if◌then◌else◌, subst, inl, inr, Bool-cases,
}
use artesca_vss_console.Reconcile.{CameraEntry, PromptSet, ScenarioEntry}
use artesca_vss_console.Store.{Stamp, Stored, ConfigDoc, stamped}
use artesca_vss_console.Store.Fill.Plan.{fills, to_restore, restored-exact}
use artesca_vss_console.Store.Fill.{
  FillList, cameras, scenarios, prompt_sets, same_list, names_list, FillSource, FillPlan, is_empty,
  visit_list, visit_cameras, visit_scenarios, visit_prompt_sets, activate, plan_fill, next_or,
  apply_plan, fill_empty,
}

-- A list after the fill: what it held, or the copy's where it was empty.
abbrev pub filled : {A : Type 0} → Stamp → List (Stored A) → List A → List (Stored A)
filled s stored copy = if is_empty stored then map (stamped s) copy else stored

-- A part of the plan that the names of the lists do not change.
module _ {X : Type 0} (part : FillPlan → X)
    (at_kept : (p : FillPlan) (keys : List FillList) → part (record p { kept = keys }) ≡ part p)
    (at_restored : (p : FillPlan) (keys : List FillList)
      → part (record p { restored = keys }) ≡ part p) where
  pub visit_list-part :
      (key : FillList) (a b : Bool) (q p : FillPlan)
      → part (visit_list key a b q p) ≡ (if b && not a then part q else part p)
  unfolding visit_list
  visit_list-part key true true q p = refl
  visit_list-part key true false q p = refl
  visit_list-part key false true q p = at_restored q (p.restored ++ key ∷ [])
  visit_list-part key false false q p = at_kept p (p.kept ++ key ∷ [])

pub activate-part :
    {X : Type 0} (part : FillPlan → X) (doc : ConfigDoc) (src : FillSource) (o : Option String)
    (p : FillPlan)
    → ((p : FillPlan) (a : Option String) → part (record p { next_active = a }) ≡ part p)
    → part (activate doc src o p) ≡ part p
unfolding activate
activate-part part doc src none p h = refl
activate-part part doc src (some id) p h =
    if_rule (λ q. part q ≡ part p) _ (λ _. h p (some id)) (λ _. refl)

pub next_or-filled :
    {A : Type 0} (s : Stamp) (stored : List (Stored A)) (copy : List A)
    → next_or s (if fills stored copy then some copy else none) stored ≡ filled s stored copy
next_or-filled s [] [] = refl
next_or-filled s [] (x ∷ copy) = refl
next_or-filled s (e ∷ stored) copy = refl

module _ (s : Stamp) (src : FillSource) (doc : ConfigDoc) where
  next_cameras :
      (plan_fill doc src).next_cameras
      ≡ (if fills doc.cameras src.cameras then some src.cameras else none)
  unfolding plan_fill visit_cameras visit_scenarios visit_prompt_sets
  next_cameras =
      let f : FillPlan → Option (List CameraEntry) = λ p. p.next_cameras in
      let step = visit_list-part f (λ p k. refl) (λ p k. refl) in
      activate-part f doc src _ _ (λ p a. refl) ∙ rw (step, step, step) (ground arith)

  next_scenarios :
      (plan_fill doc src).next_scenarios
      ≡ (if fills doc.scenarios src.scenarios then some src.scenarios else none)
  unfolding plan_fill visit_cameras visit_scenarios visit_prompt_sets
  next_scenarios =
      let f : FillPlan → Option (List ScenarioEntry) = λ p. p.next_scenarios in
      let step = visit_list-part f (λ p k. refl) (λ p k. refl) in
      activate-part f doc src _ _ (λ p a. refl) ∙ rw (step, step, step) (ground arith)

  next_prompt_sets :
      (plan_fill doc src).next_prompt_sets
      ≡ (if fills doc.prompt_sets src.prompt_sets then some src.prompt_sets else none)
  unfolding plan_fill visit_cameras visit_scenarios visit_prompt_sets
  next_prompt_sets =
      let f : FillPlan → Option (List PromptSet) = λ p. p.next_prompt_sets in
      let step = visit_list-part f (λ p k. refl) (λ p k. refl) in
      activate-part f doc src _ _ (λ p a. refl) ∙ rw (step, step, step) (ground arith)

  -- Each list of the document with the plan in place is what it held, or the copy's where it was empty.
  apply_plan-lists :
      ((apply_plan s (plan_fill doc src) doc).cameras ≡ filled s doc.cameras src.cameras)
      × ((apply_plan s (plan_fill doc src) doc).scenarios ≡ filled s doc.scenarios src.scenarios)
      × ((apply_plan s (plan_fill doc src) doc).prompt_sets
          ≡ filled s doc.prompt_sets src.prompt_sets)
  unfolding apply_plan
  apply_plan-lists = (
    rw next_cameras (next_or-filled s doc.cameras src.cameras),
    rw next_scenarios (next_or-filled s doc.scenarios src.scenarios),
    rw next_prompt_sets (next_or-filled s doc.prompt_sets src.prompt_sets),
  )

  pub fill_empty-some :
      (doc' : ConfigDoc)
      → fill_empty s src doc ≡ some doc'
      → apply_plan s (plan_fill doc src) doc ≡ doc'
  unfolding fill_empty
  fill_empty-some doc' e = elim (Bool-cases (is_empty (plan_fill doc src).restored)) [
    | inl h ↦ cc
    | inr h ↦ some-injective _ _ (rw h at e)
  ]

  -- Where a fill writes, every list of what it writes is what it was, or the copy's, stamped, where
  -- it was empty: a list that holds anything is never written over.
  pub fill_empty-lists :
      (doc' : ConfigDoc)
      → fill_empty s src doc ≡ some doc'
      → (doc'.cameras ≡ filled s doc.cameras src.cameras)
        × (doc'.scenarios ≡ filled s doc.scenarios src.scenarios)
        × (doc'.prompt_sets ≡ filled s doc.prompt_sets src.prompt_sets)
  fill_empty-lists doc' e =
      subst
        (λ (d : ConfigDoc).
          (d.cameras ≡ filled s doc.cameras src.cameras)
          × (d.scenarios ≡ filled s doc.scenarios src.scenarios)
          × (d.prompt_sets ≡ filled s doc.prompt_sets src.prompt_sets))
        (fill_empty-some doc' e) apply_plan-lists

same_list_refl : (key : FillList) → same_list key key ≡ true
same_list_refl cameras = refl
same_list_refl scenarios = refl
same_list_refl prompt_sets = refl

none_named :
    (keys : List FillList) → ((key : FillList) → names_list keys key ≡ false) → is_empty keys ≡ true
none_named [] h = refl
none_named (k ∷ keys) h = ground (arith, h k, same_list_refl k)

filled-full :
    {A : Type 0} (s : Stamp) (stored : List (Stored A)) (copy : List A)
    → fills (filled s stored copy) copy ≡ false
filled-full s [] [] = refl
filled-full s [] (x ∷ copy) = refl
filled-full s (e ∷ stored) copy = refl

-- After a fill that wrote, a fill from the same copy restores nothing, and so writes nothing.
pub fill_empty-once :
    (s t : Stamp) (src : FillSource) (doc doc' : ConfigDoc)
    → fill_empty s src doc ≡ some doc'
    → fill_empty t src doc' ≡ none
unfolding fill_empty
fill_empty-once s t src doc doc' e =
    let (c, sc, ps) = fill_empty-lists s src doc doc' e in
    let full : (key : FillList) → to_restore doc' src key ≡ false = λ key.
      elim key as (λ k. to_restore doc' src k ≡ false) [
        | cameras ↦ rw c (filled-full s doc.cameras src.cameras)
        | scenarios ↦ rw sc (filled-full s doc.scenarios src.scenarios)
        | prompt_sets ↦ rw ps (filled-full s doc.prompt_sets src.prompt_sets)
      ] in
    rw (none_named (plan_fill doc' src).restored (λ key. restored-exact doc' src key ∙ full key))
      refl
