-- ===== src/Store/Fill/Plan.antt =====
-- What filling does to the store: the lists that hold something are kept, the empty ones become the
-- copy's.
use mathlib.Core.List.{append-nil}
use artesca_vss_console.Common.{
  String, Bool, true, false, not, ◌&&◌, ◌||◌, sym, Option, none, some, List, [], ◌∷◌, ◌++◌, ◌≡◌,
  refl, arith, if◌then◌else◌,
}
use artesca_vss_console.Store.{Stored, ConfigDoc}
use artesca_vss_console.Store.Fill.{
  FillList, cameras, scenarios, prompt_sets, same_list, names_list, FillSource, FillPlan, is_empty,
  visit_list, visit_cameras, visit_scenarios, visit_prompt_sets, activate, plan_fill,
}

-- A list is filled where it is empty and the copy's is not.
abbrev pub fills : {A B : Type 0} → List (Stored A) → List B → Bool
fills stored copy = is_empty stored && not (is_empty copy)

-- The lists that a fill restores.
abbrev pub to_restore : ConfigDoc → FillSource → FillList → Bool
to_restore doc src cameras = fills doc.cameras src.cameras
to_restore doc src scenarios = fills doc.scenarios src.scenarios
to_restore doc src prompt_sets = fills doc.prompt_sets src.prompt_sets

pub activate-restored :
    (doc : ConfigDoc) (src : FillSource) (o : Option String) (p : FillPlan)
    → (activate doc src o p).restored ≡ p.restored
unfolding activate
activate-restored doc src none p = refl
activate-restored doc src (some id) p = ground arith

abbrev restored_of : FillList → Bool → List FillList
restored_of key b = if b then key ∷ [] else []

visit_list-restored :
    (key : FillList) (a b : Bool) (q p : FillPlan)
    → (visit_list key a b q p).restored ≡ p.restored ++ restored_of key (b && not a)
unfolding visit_list
visit_list-restored key true true q p = sym (append-nil p.restored)
visit_list-restored key true false q p = sym (append-nil p.restored)
visit_list-restored key false true q p = refl
visit_list-restored key false false q p = sym (append-nil p.restored)

names_list-append :
    (key other : FillList) (b : Bool) (keys : List FillList)
    → names_list (keys ++ restored_of other b) key
      ≡ (names_list keys key || (b && same_list key other))
names_list-append key other true [] = ground arith
names_list-append key other false [] = refl
names_list-append key other b (k ∷ keys) = ground (arith, names_list-append key other b keys)

names_list-visit :
    (key other : FillList) (a b : Bool) (q p : FillPlan)
    → names_list (visit_list other a b q p).restored key
      ≡ (names_list p.restored key || (b && not a) && same_list key other)
names_list-visit key other a b q p =
    rw visit_list-restored (names_list-append key other (b && not a) p.restored)

-- A list is named as restored exactly where it is empty and the copy's is not.
pub restored-exact :
    (doc : ConfigDoc) (src : FillSource) (key : FillList)
    → names_list (plan_fill doc src).restored key ≡ to_restore doc src key
unfolding plan_fill visit_prompt_sets visit_scenarios visit_cameras
restored-exact doc src cameras =
    rw (activate-restored, names_list-visit, names_list-visit, names_list-visit) (ground arith)
restored-exact doc src scenarios =
    rw (activate-restored, names_list-visit, names_list-visit, names_list-visit) (ground arith)
restored-exact doc src prompt_sets =
    rw (activate-restored, names_list-visit, names_list-visit, names_list-visit) (ground arith)
