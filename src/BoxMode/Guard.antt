-- ===== src/BoxMode/Guard.antt =====
-- What the guard of the switch's workloads refuses.
use artesca_vss_console.Common.{
  ℕ, String, Bool, true, false, not, ◌&&◌, ◌||◌, Option, none, some, List, [], ◌∷◌, ◌++◌, any,
  filter, ◌≡◌, refl, ap, ◌∙◌, arith, Bool-cases, inl, inr, truthy, get_or, is_some, OnSome, ◌==◌,
  if◌then◌else◌,
}
use artesca_vss_console.BoxMode.{
  BoxMode, Cached, ClusterRefs, Kind, deployment, stateful_set, listed, WorkloadRef, Refusal,
  is_switch_owned, switch_owned_workloads, is_box_paused, get_box_mode, ask,
  assert_workload_writable, answer_for, box_paused_response,
}

-- The workload of these names is the one that the two settings name, neither of which is empty.
abbrev names : Option String → Option String → WorkloadRef → Bool
names (some ns) (some n) w = ns == w.namespace_name && n == w.workload
names none _ w = false
names (some ns) none w = false

-- The workload is the VLM, the stream processing or vLLM, by the settings of the cluster.
abbrev pub is_scaled : ClusterRefs → WorkloadRef → Bool
is_scaled c w =
    names (truthy c.vlm_namespace) (truthy c.vlm_deployment) w
    || names (truthy c.vst_namespace) (truthy c.stream_processing) w
    || names (truthy c.vllm_namespace) (truthy c.vllm_deployment) w

any-append :
    {A : Type 0} (p : A → Bool) (xs ys : List A) → any p (xs ++ ys) ≡ (any p xs || any p ys)
any-append p [] ys = refl
any-append p (x ∷ xs) ys = ground (arith, any-append p xs ys)

listed-names :
    (k : Kind) (a b : Option String) (w : WorkloadRef)
    → any (λ o. o.namespace_name == w.namespace_name && o.workload == w.workload) (listed k a b)
      ≡ names a b w
listed-names k none b w = refl
listed-names k (some ns) none w = refl
listed-names k (some ns) (some n) w = ground arith

three_same : {x x' y y' z z' : Bool} → x ≡ x' → y ≡ y' → z ≡ z' → (x || y || z) ≡ (x' || y' || z')
three_same a b c = cc

is_switch_owned-scaled :
    (c : ClusterRefs) (w : WorkloadRef)
    → is_switch_owned c w.namespace_name w.workload ≡ is_scaled c w
unfolding switch_owned_workloads
is_switch_owned-scaled c w =
    let owns : WorkloadRef → Bool =
      λ o. o.namespace_name == w.namespace_name && o.workload == w.workload in
    let vlm = listed deployment (truthy c.vlm_namespace) (truthy c.vlm_deployment) in
    let streams =
      listed (get_or c.stream_processing_kind stateful_set) (truthy c.vst_namespace)
        (truthy c.stream_processing) in
    let vllm = listed deployment (truthy c.vllm_namespace) (truthy c.vllm_deployment) in
    any-append owns (vlm ++ streams) vllm
    ∙ ap (λ b. b || any owns vllm) (any-append owns vlm streams)
    ∙ three_same (listed-names deployment (truthy c.vlm_namespace) (truthy c.vlm_deployment) w)
        (listed-names (get_or c.stream_processing_kind stateful_set) (truthy c.vst_namespace)
          (truthy c.stream_processing) w)
        (listed-names deployment (truthy c.vllm_namespace) (truthy c.vllm_deployment) w)

filter_same :
    {A : Type 0} (p q : A → Bool)
    → ((a : A) → p a ≡ q a)
    → (xs : List A) → filter p xs ≡ filter q xs
filter_same p q h [] = refl
filter_same p q h (x ∷ xs) = rw (h x, filter_same p q h xs) refl

module _ {W : Type 0} (read : W → BoxMode × W) (clock : W → ℕ) where
  -- For one workload the routes' answer and the writers' guard refuse alike, with the same workloads
  -- and mode, and leave the same cache.
  pub response-assert :
      (c : ClusterRefs) (w : WorkloadRef) (s : Option Cached × W)
      → box_paused_response read clock c (w ∷ []) s ≡ assert_workload_writable read clock c w s
  unfolding box_paused_response assert_workload_writable answer_for
  response-assert c w s = elim (Bool-cases (is_switch_owned c w.namespace_name w.workload)) [
    | inl e ↦ rw e refl
    | inr e ↦ rw e refl
  ]

  -- What the answer is for the workloads that the switch owns.
  abbrev IsExact :
      (BoxMode × (Option Cached × W))
      → List WorkloadRef
      → Bool
      → Option Cached × W
      → Option Refusal × (Option Cached × W)
      → Type 0
  IsExact asked mine some_owned s answer =
      (is_some answer.0 ≡ (some_owned && not (asked.0.mode == "vss")))
      × OnSome (λ r. (r.workloads ≡ mine) × (r.box_mode ≡ asked.0)) answer.0
      × (answer.1 ≡ (if some_owned then asked.1 else s))

  ask-IsExact :
      (w : WorkloadRef) (ws : List WorkloadRef) (s : Option Cached × W)
      → IsExact (get_box_mode read clock s) (w ∷ ws) true s (ask read clock (w ∷ ws) s)
  unfolding ask
  ask-IsExact w ws s = elim (Bool-cases (is_box_paused (get_box_mode read clock s).0)) [
    | inl e ↦ rw e (refl, (refl, refl), refl)
    | inr e ↦ rw e (refl, tt, refl)
  ]

  answer_for-IsExact :
      (c : ClusterRefs) (ws : List WorkloadRef) (s : Option Cached × W)
      → IsExact
          (get_box_mode read clock s)
          (filter (is_scaled c) ws)
          (any (is_scaled c) ws)
          s
          (answer_for read clock (filter (is_scaled c) ws) s)
  unfolding answer_for
  answer_for-IsExact c [] s = (refl, tt, refl)
  answer_for-IsExact c (w ∷ ws) s = elim (Bool-cases (is_scaled c w)) [
    | inl e ↦ rw e (ask-IsExact w (filter (is_scaled c) ws) s)
    | inr e ↦ rw e (answer_for-IsExact c ws s)
  ]

  -- A route is refused exactly where the mode that the writers are given is not the default one and
  -- one of its workloads is the VLM, the stream processing or vLLM of the settings. The refusal names
  -- those of the workloads, in their order, and carries that mode. Where there is none of them, the
  -- cached mode is left alone and the record is not read.
  pub response-exact :
      (c : ClusterRefs) (ws : List WorkloadRef) (s : Option Cached × W)
      → (is_some (box_paused_response read clock c ws s).0
          ≡ (any (is_scaled c) ws && not ((get_box_mode read clock s).0.mode == "vss")))
        × OnSome
            (λ r.
              (r.workloads ≡ filter (is_scaled c) ws)
              × (r.box_mode ≡ (get_box_mode read clock s).0))
            (box_paused_response read clock c ws s).0
        × ((box_paused_response read clock c ws s).1
            ≡ (if any (is_scaled c) ws then (get_box_mode read clock s).1 else s))
  unfolding box_paused_response
  response-exact c ws s =
      rw
        (filter_same (λ w. is_switch_owned c w.namespace_name w.workload) (is_scaled c)
          (is_switch_owned-scaled c) ws)
        (answer_for-IsExact c ws s)
