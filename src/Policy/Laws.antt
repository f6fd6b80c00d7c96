-- ===== src/Policy/Laws.antt =====
-- When tools/data-poc/src/sourcePolicy.ts lets a source act.
use crypto_edge_ai.Common.{
  String, ◌≡◌, ◌≢◌, ◌↔◌, refl, true, false, Option, none, some, List, arith, includes, ok, err,
  Bool-cases, Option-cases, inl, inr,
}
use crypto_edge_ai.Policy.{
  AccessStatus, UsageScope, SourceRegistrySource, RuntimePolicySource, RuntimePolicy,
  SourcePolicyRequest, is_source_action, is_source_environment, find_registered, find_entry, or_nil,
  normalize_source_environment, decide_registered, decide_listed, decision_of,
  get_source_policy_decision, assert_source_action_allowed,
}

module _ (registry : List SourceRegistrySource) (policy : RuntimePolicy) where
  -- What a source needs in order to act.
  pub record IsPermitted (request : SourcePolicyRequest) : Type 0 where
    pub known_action : is_source_action request.action ≡ true
    pub source : SourceRegistrySource
    pub registered : find_registered request.source_id registry ≡ some source
    pub approved : source.access_status ≢ AccessStatus.blocked_no_permission
    pub in_scope : source.usage_scope ≢ UsageScope.not_allowed
    pub runtime : RuntimePolicySource
    pub configured : find_entry request.source_id policy.sources ≡ some runtime
    pub environments : List String
    pub listed : find_entry request.action runtime.action_allowlist ≡ some environments
    pub here :
        includes environments (normalize_source_environment registry policy request.environment)
        ≡ true

  listed_of_allowed :
      (request : SourcePolicyRequest) (environment : String) (found : SourceRegistrySource)
      (entry : Option RuntimePolicySource)
      → (decide_listed registry policy request environment found entry).allowed ≡ true
      → (runtime : RuntimePolicySource) × (environments : List String) × (entry ≡ some runtime)
        × (find_entry request.action runtime.action_allowlist ≡ some environments)
        × (includes environments environment ≡ true)
  unfolding decide_listed decision_of includes
  listed_of_allowed request environment found none h = cc
  listed_of_allowed request environment found (some runtime) h =
      elim (Option-cases (find_entry request.action runtime.action_allowlist)) [
        | inl missing ↦ absurd (ground arith)
        | inr (environments, listed) ↦
            (runtime, environments, refl, listed, (rw (listed, or_nil) at h))
      ]

  registered_of_allowed :
      (request : SourcePolicyRequest) (environment : String) (entry : Option SourceRegistrySource)
      → (decide_registered registry policy request environment entry).allowed ≡ true
      → (source : SourceRegistrySource) × (entry ≡ some source)
        × (source.access_status ≢ AccessStatus.blocked_no_permission)
        × (source.usage_scope ≢ UsageScope.not_allowed)
        × ((decide_listed registry policy request environment source
              (find_entry request.source_id policy.sources)).allowed
            ≡ true)
  unfolding decide_registered decision_of
  registered_of_allowed request environment none h = cc
  registered_of_allowed request environment (some source) h =
      (source, refl, ground arith, ground arith, ground arith)

  allowed-known :
      (request : SourcePolicyRequest)
      → (get_source_policy_decision registry policy request).allowed ≡ true
      → is_source_action request.action ≡ true
  unfolding get_source_policy_decision decision_of
  allowed-known request h = elim (Bool-cases (is_source_action request.action)) [
    | inl known ↦ known
    | inr unknown ↦ cc (rw unknown at h)
  ]

  IsPermitted-of_allowed :
      (request : SourcePolicyRequest)
      → (get_source_policy_decision registry policy request).allowed ≡ true
      → IsPermitted request
  unfolding get_source_policy_decision decision_of
  IsPermitted-of_allowed request h =
      let environment = normalize_source_environment registry policy request.environment in
      let known = allowed-known request h in
      let (source, registered, approved, in_scope, h') =
        registered_of_allowed request environment (find_registered request.source_id registry)
          (rw known at h) in
      let (runtime, environments, configured, listed, here) =
        listed_of_allowed request environment source (find_entry request.source_id policy.sources)
          h' in
      record {
        known_action = known;
        source = source;
        registered = registered;
        approved = approved;
        in_scope = in_scope;
        runtime = runtime;
        configured = configured;
        environments = environments;
        listed = listed;
        here = here;
      }

  allowed_of_permitted :
      (request : SourcePolicyRequest)
      → IsPermitted request
      → (get_source_policy_decision registry policy request).allowed ≡ true
  unfolding get_source_policy_decision decide_registered decide_listed decision_of
  allowed_of_permitted request p = ground arith

  -- A source may act exactly when the action is known, the source is registered and blocked neither
  -- by its status nor by its scope, the runtime policy has an entry for it, and that entry lists the
  -- environment for the action.
  pub get_source_policy_decision_iff :
      (request : SourcePolicyRequest)
      → ((get_source_policy_decision registry policy request).allowed ≡ true) ↔ IsPermitted request
  get_source_policy_decision_iff request =
      (IsPermitted-of_allowed request, allowed_of_permitted request)

  -- The assertion returns the decision of a permitted request and throws the reason of any other.
  pub assert_source_action_allowed_iff :
      (request : SourcePolicyRequest)
      → let decision = get_source_policy_decision registry policy request in
        ((assert_source_action_allowed registry policy request ≡ ok decision) ↔ IsPermitted request)
        × ((assert_source_action_allowed registry policy request ≡ err decision.reason)
            ↔ (¬ IsPermitted request))
  unfolding assert_source_action_allowed
  assert_source_action_allowed_iff request =
      let d = get_source_policy_decision registry policy request in
      elim (Bool-cases d.allowed) [
        | inl allowed ↦ rw allowed (
          (λ _. IsPermitted-of_allowed request allowed, λ _. refl),
          (λ e. cc, λ no'. absurd (no' (IsPermitted-of_allowed request allowed))),
        )
        | inr denied ↦ rw denied (
          (λ e. cc, λ p. cc (allowed_of_permitted request p, denied)),
          (λ _ p. cc (allowed_of_permitted request p, denied), λ _. refl),
        )
      ]

  environment-default :
      (request : SourcePolicyRequest)
      → is_source_environment request.environment ≡ false
      → normalize_source_environment registry policy request.environment
        ≡ normalize_source_environment registry policy (some policy.safe_default_environment)
  unfolding normalize_source_environment
  environment-default request h = elim (Option-cases request.environment) [
    | inl missing ↦ ground arith
    | inr (value, given) ↦ ground arith
  ]

  -- A request from an environment that is not one of the five, or that names none, is judged as one
  -- from the policy's safe default.
  pub unknown_environment_default :
      (request : SourcePolicyRequest)
      → is_source_environment request.environment ≡ false
      → get_source_policy_decision registry policy request
        ≡ get_source_policy_decision registry policy
            (record request { environment = some policy.safe_default_environment })
  unfolding get_source_policy_decision normalize_source_environment
  unknown_environment_default request h = rw (environment-default request h)
