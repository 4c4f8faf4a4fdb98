-- ===== src/Reconcile/Workloads/Held.antt =====
-- What converging the prompt of a paused box, and the scenarios, leaves alone.
use artesca_vss_console.Common.{
  String, Bool, true, false, Option, none, some, List, ◌≡◌, refl, Effect, Leaves, Leaves-bind,
  Leaves-catch, OnSome, is_some, is_text, truthy,
}
use artesca_vss_console.Reconcile.{PromptDoc, ScenarioEntry, ClusterAdapter}
use artesca_vss_console.Reconcile.Workloads.{
  PromptRefs, ScenarioRefs, write_prompt, write_scenarios, prompt_with, scenarios_with,
  reconcile_prompt, reconcile_scenarios,
}

module _ {W X : Type 0} (read : W → X) where
  write_prompt-held :
      (same : Bool) (paused : Option String) (write : Effect W Unit)
      → is_some paused ≡ true
      → Leaves read (write_prompt same paused write)
  unfolding write_prompt
  write_prompt-held true paused write h = λ w. refl
  write_prompt-held false (some reason) write h = λ w. refl
  write_prompt-held false none write h = λ w. cc

  prompt_with-held :
      (doc : PromptDoc) (refs : PromptRefs) (paused : Option String)
      (get : Option (String → String → String → Effect W (Option String)))
      (patch : Option (String → String → String → String → Effect W Unit))
      (restart : Option (String → String → Effect W Unit))
      → is_some (truthy paused) ≡ true
      → OnSome (λ g. (n d k : String) → Leaves read (g n d k)) get
      → Leaves read (prompt_with doc refs paused get patch restart)
  unfolding prompt_with
  prompt_with-held doc refs paused none patch restart h g = λ w. refl
  prompt_with-held doc refs paused (some get) none restart h g = λ w. refl
  prompt_with-held doc refs paused (some get) (some patch) none h g = λ w. refl
  prompt_with-held doc refs paused (some get) (some patch) (some restart) h g =
      Leaves-catch read _ _ (
        Leaves-bind read (get refs.ns refs.deployment refs.prompt_key) _
          (g refs.ns refs.deployment refs.prompt_key)
          (λ current. write_prompt-held (is_text current doc.prompt) (truthy paused) _ h))

  write_scenarios-Leaves :
      (same : Bool) (write : Effect W Unit)
      → Leaves read write
      → Leaves read (write_scenarios same write)
  unfolding write_scenarios
  write_scenarios-Leaves true write h = λ w. refl
  write_scenarios-Leaves false write h = Leaves-bind read write _ h (λ a w. refl)

  scenarios_with-Leaves :
      (want : String) (refs : ScenarioRefs)
      (get : Option (String → String → String → Effect W (Option String)))
      (patch : Option (String → String → String → String → Effect W Unit))
      (restart : Option (String → String → Effect W Unit))
      → OnSome (λ g. (n c k : String) → Leaves read (g n c k)) get
      → OnSome (λ p. (n c k v : String) → Leaves read (p n c k v)) patch
      → OnSome (λ r. Leaves read (r refs.ns refs.alert_worker_deployment)) restart
      → Leaves read (scenarios_with want refs get patch restart)
  unfolding scenarios_with
  scenarios_with-Leaves want refs none patch restart g p r = λ w. refl
  scenarios_with-Leaves want refs (some get) none restart g p r = λ w. refl
  scenarios_with-Leaves want refs (some get) (some patch) none g p r = λ w. refl
  scenarios_with-Leaves want refs (some get) (some patch) (some restart) g p r =
      Leaves-catch read _ _ (
        Leaves-bind read (get refs.ns refs.config_map refs.yaml_key) _
          (g refs.ns refs.config_map refs.yaml_key)
          (λ current. write_scenarios-Leaves (is_text current want) _ (
            Leaves-bind read (patch refs.ns refs.config_map refs.yaml_key want) _
              (p refs.ns refs.config_map refs.yaml_key want) (λ _. r))))

module _ {W X : Type 0} (adapter : ClusterAdapter W) (read : W → X) where
  -- Where the box is paused, converging the prompt changes no more than reading the live one does.
  pub reconcile_prompt-held :
      (desired : Option PromptDoc) (refs : PromptRefs) (paused : Option String)
      → is_some (truthy paused) ≡ true
      → OnSome (λ get. (n d k : String) → Leaves read (get n d k)) adapter.get_deployment_env
      → Leaves read (reconcile_prompt adapter desired refs paused)
  unfolding reconcile_prompt
  reconcile_prompt-held none refs paused h g = λ w. refl
  reconcile_prompt-held (some doc) refs paused h g =
      prompt_with-held read doc refs paused _ adapter.patch_deployment_env
        adapter.restart_deployment h g

  -- Converging the scenarios changes no more than the ConfigMap and the alert worker.
  pub reconcile_scenarios-Leaves :
      (serialize : List ScenarioEntry → String) (desired : List ScenarioEntry) (refs : ScenarioRefs)
      → OnSome (λ get. (n c k : String) → Leaves read (get n c k)) adapter.get_config_map_key
      → OnSome
          (λ patch. (n c k v : String) → Leaves read (patch n c k v))
          adapter.patch_config_map_key
      → OnSome
          (λ restart. Leaves read (restart refs.ns refs.alert_worker_deployment))
          adapter.restart_deployment
      → Leaves read (reconcile_scenarios adapter serialize desired refs)
  unfolding reconcile_scenarios
  reconcile_scenarios-Leaves serialize desired refs =
      scenarios_with-Leaves read (serialize desired) refs adapter.get_config_map_key
        adapter.patch_config_map_key adapter.restart_deployment
