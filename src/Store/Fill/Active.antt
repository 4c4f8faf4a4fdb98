-- ===== src/Store/Fill/Active.antt =====
-- The active prompt after a fill.
use mathlib.Core.Option.{some-injective}
use artesca_vss_console.Common.{
  String, Bool, true, false, not, ◌&&◌, Option, none, some, List, [], ◌∷◌, map, any, is_some,
  truthy, ◌==◌, ◌≡◌, refl, arith, ◌∙◌, ◌⊎◌, inl, inr, sym, ap, Option-cases, if_rule,
}
use artesca_vss_console.Reconcile.{PromptSet}
use artesca_vss_console.Store.{Stamp, Stored, ConfigDoc, stamped, has_id}
use artesca_vss_console.Store.Fill.Plan.{fills, restored-exact, activate-restored}
use artesca_vss_console.Store.Fill.Lists.{
  visit_list-part, filled, fill_empty-some, fill_empty-lists,
}
use artesca_vss_console.Store.Fill.{
  prompt_sets, names_list, FillSource, FillPlan, no_plan, visit_cameras, visit_scenarios,
  visit_prompt_sets, holds_set, activate, plan_fill, apply_plan, fill_empty,
}

abbrev pub stores_set : String → List (Stored PromptSet) → Bool
stores_set id sets = any (has_id (λ (p : PromptSet). p.id) id) sets

any-stamped :
    (s : Stamp) (id : String) (sets : List PromptSet)
    → stores_set id (map (stamped s) sets) ≡ any (λ (p : PromptSet). p.id == id) sets
any-stamped s id [] = refl
any-stamped s id (p ∷ sets) = ground (arith, any-stamped s id sets)

fills-filled :
    {A : Type 0} (s : Stamp) (stored : List (Stored A)) (copy : List A)
    → fills stored copy ≡ true
    → filled s stored copy ≡ map (stamped s) copy
fills-filled s [] copy h = refl
fills-filled s (x ∷ stored) copy h = cc

-- A plan's active prompt is one of the restored sets, and none was active before.
abbrev Activates : ConfigDoc → FillSource → FillPlan → String → Type 0
Activates doc src p id =
    (names_list p.restored prompt_sets ≡ true)
    × (is_some (truthy doc.active_prompt_id) ≡ false)
    × (holds_set src id ≡ true)

activate-Activates :
    (doc : ConfigDoc) (src : FillSource) (o : Option String) (p : FillPlan) (id : String)
    → p.next_active ≡ none
    → (activate doc src o p).next_active ≡ some id
    → Activates doc src p id
unfolding activate
activate-Activates doc src none p id h = λ e. cc
activate-Activates doc src (some i) p id h =
    if_rule (λ (q : FillPlan). q.next_active ≡ some id → Activates doc src p id)
      (names_list p.restored prompt_sets
        && not (is_some (truthy doc.active_prompt_id))
        && holds_set src i)
      (λ b e.
        let same : i ≡ id = some-injective _ _ e in
        (ground arith, ground arith, rw (← same) (ground arith)))
      (λ b e. cc)

module _ (doc : ConfigDoc) (src : FillSource) where
  unset :
      (visit_prompt_sets doc src
        (visit_scenarios doc src (visit_cameras doc src no_plan))).next_active
      ≡ none
  unfolding visit_cameras visit_scenarios visit_prompt_sets
  unset =
      let f : FillPlan → Option String = λ p. p.next_active in
      let step = visit_list-part f (λ p k. refl) (λ p k. refl) in
      rw (step, step, step) (ground arith)

  visited : FillPlan
  visited = visit_prompt_sets doc src (visit_scenarios doc src (visit_cameras doc src no_plan))

  named :
      names_list (plan_fill doc src).restored prompt_sets ≡ names_list visited.restored prompt_sets
  unfolding plan_fill visited
  named = rw activate-restored refl

  -- The active prompt of the plan is held by the document after the fill.
  activated :
      (s : Stamp) (doc' : ConfigDoc) (id : String)
      → fill_empty s src doc ≡ some doc'
      → Activates doc src visited id
      → stores_set id doc'.prompt_sets ≡ true
  unfolding visited
  activated s doc' id e (restored, _, holds) =
      let fs : fills doc.prompt_sets src.prompt_sets ≡ true =
        sym (restored-exact doc src prompt_sets) ∙ named ∙ restored in
      let (_, _, sets) = fill_empty-lists s src doc doc' e in
      rw (sets, fills-filled s doc.prompt_sets src.prompt_sets fs, any-stamped s id src.prompt_sets)
        holds

  -- Where a fill writes, the active prompt is as it was, or none was active and it now is one of the
  -- prompt sets that are stored.
  pub fill_empty-active :
      (s : Stamp) (doc' : ConfigDoc)
      → fill_empty s src doc ≡ some doc'
      → (doc'.active_prompt_id ≡ doc.active_prompt_id)
        ⊎ ((id : String) × (doc'.active_prompt_id ≡ some id)
            × (is_some (truthy doc.active_prompt_id) ≡ false)
            × (stores_set id doc'.prompt_sets ≡ true))
  unfolding plan_fill apply_plan visited
  fill_empty-active s doc' e =
      let same = fill_empty-some s src doc doc' e in
      elim (Option-cases (plan_fill doc src).next_active) [
        | inl n ↦ inl (sym (ap (λ (d : ConfigDoc). d.active_prompt_id) same) ∙ rw n refl)
        | inr (id, n) ↦
            let h = activate-Activates doc src (truthy src.active_prompt_id) visited id unset n in
            inr (
              id,
              sym (ap (λ (d : ConfigDoc). d.active_prompt_id) same) ∙ rw n refl,
              h.1,
              activated s doc' id e h,
            )
      ]
