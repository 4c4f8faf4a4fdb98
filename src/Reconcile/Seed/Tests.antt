-- ===== src/Reconcile/Seed/Tests.antt =====
-- Seeding a store that holds one prompt set, none of them active.
use artesca_vss_console.Common.{
  String, true, Option, none, some, List, [], ◌∷◌, ◌≡◌, refl, value, eq_iff, arith,
}
use artesca_vss_console.Reconcile.{PromptSet}
use artesca_vss_console.Reconcile.Seed.{
  SeedStore, seed_default_prompt_set, is_valid, names_set, target,
}
use artesca_vss_console.Reconcile.Seed.Pointer.{HoldsSets, seeded-IsValid}

record Library : Type 0 where
  sets : List PromptSet
  active : Option String

abbrev store : SeedStore Library
store = record {
  read_prompt_sets = λ w. (value w.sets, w);
  read_prompt = λ w. (value none, w);
  read_active_prompt_id = λ w. (value w.active, w);
  upsert_prompt_set = λ set w. (value tt, record w { sets = set ∷ w.sets });
  set_active_prompt_id = λ id w. (value tt, record w { active = some id });
}

named : (set : PromptSet) (sets : List PromptSet) → names_set (set ∷ sets) set.id ≡ true
named set sets = ground (arith, eq_iff set.id set.id)

holds : HoldsSets store (λ w. w.sets) (λ w. w.active) (λ w. none)
holds = record {
  reads_sets = λ w. refl;
  reads_active = λ w. refl;
  reads_prompt = λ w. refl;
  stores = λ set w. (record w { sets = set ∷ w.sets }, refl, named set w.sets);
  activates = λ id w. (record w { active = some id }, refl, refl, refl);
}

abbrev till : PromptSet
till = record { id = "till"; name = "Till"; text = "watch"; model = none; alert_type = none }

abbrev unpointed : Library
unpointed = record { sets = till ∷ []; active = some "gone" }

seeded-IsValid_example :
    is_valid
      (seed_default_prompt_set store "watch" unpointed).1.sets
      (seed_default_prompt_set store "watch" unpointed).1.active
    ≡ true
unfolding target
seeded-IsValid_example =
    seeded-IsValid store (λ w. w.sets) (λ w. w.active) (λ w. none) holds "watch" unpointed refl
