-- ===== src/Reconcile/Workloads.antt =====
-- The system prompt of the VLM, its rollout strategy and the alert scenarios are converged
-- (src/lib/reconcile/prompt.ts, vlm-strategy.ts and scenarios.ts). Writing the scenarios as YAML is a
-- library's and a parameter here.
pub mod Held
mod Tests
mod Compare
pub mod Prompt
pub mod Scenarios
use artesca_vss_console.Common.{
  String, Bool, true, false, Option, none, some, List, Effect, pure, ◌>>=◌, ◌>>◌, try_catch,
  is_text, truthy, if◌then◌else◌,
}
use artesca_vss_console.Reconcile.{PromptDoc, ScenarioEntry, ClusterAdapter}

pub record PromptRefs : Type 0 where
  pub ns : String
  pub deployment : String
  pub prompt_key : String

pub record PromptReconcileResult : Type 0 where
  pub updated : Bool
  pub skipped : Option String
  pub error : Option String
  pub deferred : Bool

abbrev pub prompt_result : Bool → PromptReconcileResult
prompt_result updated = record { updated = updated; skipped = none; error = none; deferred = false }

abbrev pub prompt_skipped : String → PromptReconcileResult
prompt_skipped reason = record (prompt_result false) { skipped = some reason }

abbrev pub prompt_failed : String → PromptReconcileResult
prompt_failed e = record (prompt_result false) { error = some e }

abbrev pub prompt_deferred : String → PromptReconcileResult
prompt_deferred reason = record (prompt_skipped reason) { deferred = true }

pub record ScenarioRefs : Type 0 where
  pub ns : String
  pub config_map : String
  pub yaml_key : String
  pub alert_worker_deployment : String

pub record ScenarioReconcileResult : Type 0 where
  pub updated : Bool
  pub skipped : Option String
  pub error : Option String

pub record VlmStrategyResult : Type 0 where
  pub patched : Bool
  pub skipped : Option String
  pub error : Option String

module _ {W : Type 0} where
  -- A live value that is the desired one is left; a paused box defers the write.
  pub write_prompt : Bool → Option String → Effect W Unit → Effect W PromptReconcileResult
  write_prompt true paused write = pure (prompt_result false)
  write_prompt false (some reason) write = pure (prompt_deferred reason)
  write_prompt false none write = do write; pure (prompt_result true)

  pub write_scenarios : Bool → Effect W Unit → Effect W ScenarioReconcileResult
  write_scenarios true write = pure (record { updated = false; skipped = none; error = none })
  write_scenarios false write = do
    write
    pure (record { updated = true; skipped = none; error = none })

  pub prompt_with :
      PromptDoc
      → PromptRefs
      → Option String
      → Option (String → String → String → Effect W (Option String))
      → Option (String → String → String → String → Effect W Unit)
      → Option (String → String → Effect W Unit)
      → Effect W PromptReconcileResult
  prompt_with doc refs paused (some get_env) (some patch_env) (some restart) =
      try_catch
        (do
          current ← get_env refs.ns refs.deployment refs.prompt_key
          write_prompt (is_text current doc.prompt) (truthy paused) (
              patch_env refs.ns refs.deployment refs.prompt_key doc.prompt
              >> restart refs.ns refs.deployment))
        prompt_failed
  prompt_with doc refs paused _ _ _ = pure (prompt_skipped "adapter cannot patch deployment env")

  pub scenarios_with :
      String
      → ScenarioRefs
      → Option (String → String → String → Effect W (Option String))
      → Option (String → String → String → String → Effect W Unit)
      → Option (String → String → Effect W Unit)
      → Effect W ScenarioReconcileResult
  scenarios_with want refs (some get_key) (some patch_key) (some restart) =
      try_catch
        (do
          current ← get_key refs.ns refs.config_map refs.yaml_key
          write_scenarios (is_text current want) (
              patch_key refs.ns refs.config_map refs.yaml_key want
              >> restart refs.ns refs.alert_worker_deployment))
        (λ e. record { updated = false; skipped = none; error = some e })
  scenarios_with want refs _ _ _ =
      pure
        (record { updated = false; skipped = some "adapter cannot patch configmap"; error = none })

  pub strategy_with :
      Option (String → String → String → Effect W Bool)
      → String
      → String
      → Effect W VlmStrategyResult
  strategy_with none ns deployment =
      pure (record { patched = false; skipped = some "adapter cannot set strategy"; error = none })
  strategy_with (some ensure) ns deployment =
      try_catch
        (do
          patched ← ensure ns deployment "Recreate"
          pure (record { patched = patched; skipped = none; error = none }))
        (λ e. record { patched = false; skipped = none; error = some e })

module _ {W : Type 0} (adapter : ClusterAdapter W) where
  pub reconcile_prompt :
      Option PromptDoc → PromptRefs → Option String → Effect W PromptReconcileResult
  reconcile_prompt none refs paused = pure (prompt_skipped "no desired prompt")
  reconcile_prompt (some doc) refs paused =
      prompt_with doc refs paused adapter.get_deployment_env adapter.patch_deployment_env
        adapter.restart_deployment

  pub reconcile_scenarios :
      (List ScenarioEntry → String)
      → List ScenarioEntry
      → ScenarioRefs
      → Effect W ScenarioReconcileResult
  reconcile_scenarios serialize desired refs =
      scenarios_with (serialize desired) refs adapter.get_config_map_key
        adapter.patch_config_map_key adapter.restart_deployment

  pub reconcile_vlm_strategy : String → String → Effect W VlmStrategyResult
  reconcile_vlm_strategy ns deployment =
      strategy_with adapter.ensure_deployment_strategy ns deployment
