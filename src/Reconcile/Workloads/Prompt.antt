-- ===== src/Reconcile/Workloads/Prompt.antt =====
-- What converging the prompt reaches, and that it is then left.
use artesca_vss_console.Common.{
  String, Bool, true, false, Option, none, some, ◌≡◌, refl, Effect, value, ◌>>◌, OnValue,
  OnValue-bind, OnValue-at, truthy,
}
use artesca_vss_console.Reconcile.{PromptDoc, ClusterAdapter}
use artesca_vss_console.Reconcile.Workloads.{
  PromptRefs, PromptReconcileResult, prompt_result, prompt_failed, write_prompt, prompt_with,
  reconcile_prompt,
}
use artesca_vss_console.Reconcile.Workloads.Compare.{Stores, write-sets, compare_rule, compare-same}

module _ {W : Type 0} (at : W → Option String) (v : String) where
  write_prompt-applies :
      (same : Bool) (paused : Option String) (write : Effect W Unit) (w : W)
      → (same ≡ true → at w ≡ some v)
      → OnValue (λ _ w'. at w' ≡ some v) (write w)
      → OnValue
          (λ r w'. r.skipped ≡ none → r.error ≡ none → at w' ≡ some v)
          (write_prompt same paused write w)
  unfolding write_prompt
  write_prompt-applies true paused write w h k = λ _ _. h refl
  write_prompt-applies false (some reason) write w h k = λ s _. cc
  write_prompt-applies false none write w h k =
      OnValue-bind (λ _ w'. at w' ≡ some v) _ write _ w k (λ _ w' e _ _. e)

module _ {W : Type 0} (adapter : ClusterAdapter W) (refs : PromptRefs)
    (get : String → String → String → Effect W (Option String))
    (patch : String → String → String → String → Effect W Unit)
    (restart : String → String → Effect W Unit) (at : W → Option String)
    (c : Stores at
      (get refs.ns refs.deployment refs.prompt_key)
      (patch refs.ns refs.deployment refs.prompt_key)
      (restart refs.ns refs.deployment))
    (can_get : adapter.get_deployment_env ≡ some get)
    (can_patch : adapter.patch_deployment_env ≡ some patch)
    (can_restart : adapter.restart_deployment ≡ some restart) where
  abbrev compared : PromptDoc → Option String → Bool → Effect W PromptReconcileResult
  compared doc paused same =
      write_prompt same (truthy paused) (
        patch refs.ns refs.deployment refs.prompt_key doc.prompt >> restart refs.ns refs.deployment)

  pass-applies :
      (doc : PromptDoc) (paused : Option String) (w : W)
      → OnValue
          (λ r w'. r.skipped ≡ none → r.error ≡ none → at w' ≡ some doc.prompt)
          (reconcile_prompt adapter (some doc) refs paused w)
  unfolding reconcile_prompt prompt_with
  pass-applies doc paused w =
      rw (can_get, can_patch, can_restart)
        (compare_rule at _ _ _ c
          (λ r w'. r.skipped ≡ none → r.error ≡ none → at w' ≡ some doc.prompt)
          (compared doc paused) prompt_failed doc.prompt w
          (λ e.
            write_prompt-applies at doc.prompt true (truthy paused) _ w (λ _. e)
              (write-sets at _ _ _ c doc.prompt w))
          (write_prompt-applies at doc.prompt false (truthy paused) _ w (λ e. cc)
            (write-sets at _ _ _ c doc.prompt w))
          (λ e w' s f. cc))

  -- On a cluster that can patch and restart, a pass that neither skips the prompt nor fails ends
  -- with the desired prompt in the deployment.
  pub prompt-applied :
      (doc : PromptDoc) (paused : Option String) (w : W) (r : PromptReconcileResult) (w' : W)
      → reconcile_prompt adapter (some doc) refs paused w ≡ (value r, w')
      → r.skipped ≡ none
      → r.error ≡ none
      → at w' ≡ some doc.prompt
  prompt-applied doc paused w =
      OnValue-at (λ r w'. r.skipped ≡ none → r.error ≡ none → at w' ≡ some doc.prompt) _
        (pass-applies doc paused w)

  -- Where the deployment has the desired prompt, a pass reports no update and changes
  -- nothing, whether the box is paused or not.
  pub prompt-settled :
      (doc : PromptDoc) (paused : Option String) (w : W)
      → at w ≡ some doc.prompt
      → reconcile_prompt adapter (some doc) refs paused w ≡ (value (prompt_result false), w)
  unfolding reconcile_prompt prompt_with write_prompt
  prompt-settled doc paused w e =
      rw (can_get, can_patch, can_restart)
        (compare-same at _ _ _ c (compared doc paused) prompt_failed doc.prompt w e)
