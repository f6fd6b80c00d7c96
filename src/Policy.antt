-- ===== src/Policy.antt =====
-- tools/data-poc/src/sourcePolicy.ts: whether a data source may perform an action in an environment.
-- The registry and the runtime policy are what is loaded from the two files of config and docs.
pub mod Laws
mod Tests
use crypto_edge_ai.Common.{
  ◌⧺◌, String, Bool, true, false, Option, none, some, List, [], ◌∷◌, ◌||◌, if◌then◌else◌, str_eq,
  includes, Result, ok, err,
}

pub data AccessStatus : Type 0 where
  approved_api approved_public_feed manual_only pending_terms_review blocked_no_permission :
      AccessStatus

pub data UsageScope : Type 0 where
  poc_only internal_beta public_beta commercial_pending commercial_allowed not_allowed : UsageScope

-- What is read of a source of the registry.
pub record SourceRegistrySource : Type 0 where
  pub source_id : String
  pub access_status : AccessStatus
  pub usage_scope : UsageScope

-- `action_allowlist`: the environments of each action.
pub record RuntimePolicySource : Type 0 where
  pub action_allowlist : List (String × List String)

pub record RuntimePolicy : Type 0 where
  pub safe_default_environment : String
  pub sources : List (String × RuntimePolicySource)

pub record SourcePolicyDecision : Type 0 where
  pub allowed : Bool
  pub source_id : String
  pub environment : String
  pub action : String
  pub access_status : Option AccessStatus
  pub usage_scope : Option UsageScope
  pub reason : String

pub record SourcePolicyRequest : Type 0 where
  pub source_id : String
  pub environment : Option String
  pub action : String

abbrev pub source_environments : List String
source_environments =
    "FIXTURE_ONLY" ∷ "LOCAL_POC" ∷ "INTERNAL_BETA" ∷ "PUBLIC_BETA" ∷ "COMMERCIAL" ∷ []

abbrev pub source_actions : List String
source_actions =
    "fixture_load" ∷ "live_fetch" ∷ "normalized_storage" ∷ "raw_storage" ∷ "user_display"
    ∷ "derived_score_display" ∷ []

unfoldable pub is_source_environment : Option String → Bool
unfolding includes
is_source_environment none = false
is_source_environment (some value) = includes source_environments value

unfoldable pub is_source_action : String → Bool
unfolding includes
is_source_action action = includes source_actions action

-- `new Map(sources.map(...)).get(id)`: the last source of that id.
unfoldable pub find_registered : String → List SourceRegistrySource → Option SourceRegistrySource
find_registered id [] = none
find_registered id (s ∷ rest) = elim (find_registered id rest) [
  | some later ↦ some later
  | none ↦ if str_eq s.source_id id then some s else none
]

unfoldable pub find_entry {ℓ} : {A : Type ℓ} → String → List (String × A) → Option A
find_entry key [] = none
find_entry key ((k, v) ∷ rest) = if str_eq k key then some v else find_entry key rest

abbrev pub or_nil : Option (List String) → List String
or_nil none = []
or_nil (some xs) = xs

abbrev pub is_blocked_status : AccessStatus → Bool
is_blocked_status AccessStatus.blocked_no_permission = true
is_blocked_status _ = false

abbrev pub is_blocked_scope : UsageScope → Bool
is_blocked_scope UsageScope.not_allowed = true
is_blocked_scope _ = false

module _ (registry : List SourceRegistrySource) (policy : RuntimePolicy) where
  unfoldable pub normalize_source_environment : Option String → String
  unfolding is_source_environment
  normalize_source_environment none = policy.safe_default_environment
  normalize_source_environment (some value) =
      if is_source_environment (some value) then value else policy.safe_default_environment

  abbrev pub status_part : Option SourceRegistrySource → Option AccessStatus
  status_part none = none
  status_part (some s) = some s.access_status

  abbrev pub scope_part : Option SourceRegistrySource → Option UsageScope
  scope_part none = none
  scope_part (some s) = some s.usage_scope

  decision_of :
      SourcePolicyRequest
      → String
      → Option SourceRegistrySource
      → Bool
      → String
      → SourcePolicyDecision
  decision_of request environment found allowed reason = record {
    allowed = allowed;
    source_id = request.source_id;
    environment = environment;
    action = request.action;
    access_status = status_part found;
    usage_scope = scope_part found;
    reason = reason;
  }

  -- The decision on a source that is registered and not blocked.
  decide_listed :
      SourcePolicyRequest
      → String
      → SourceRegistrySource
      → Option RuntimePolicySource
      → SourcePolicyDecision
  unfolding decision_of includes find_entry
  decide_listed request environment found none =
      decision_of request environment (some found) false
        ("Denied: source " ⧺ request.source_id ⧺ " has no explicit runtime policy")
  decide_listed request environment found (some runtime) =
      let allowed =
        includes (or_nil (find_entry request.action runtime.action_allowlist)) environment in
      decision_of request environment (some found) allowed (
        if allowed
        then "Allowed: " ⧺ request.source_id ⧺ " may perform " ⧺ request.action ⧺ " in "
          ⧺ environment
        else "Denied: " ⧺ request.source_id ⧺ " may not perform " ⧺ request.action ⧺ " in "
          ⧺ environment)

  decide_registered :
      SourcePolicyRequest → String → Option SourceRegistrySource → SourcePolicyDecision
  unfolding decide_listed
  decide_registered request environment none =
      decision_of request environment none false ("Denied: unknown source_id " ⧺ request.source_id)
  decide_registered request environment (some found) =
      if is_blocked_status found.access_status || is_blocked_scope found.usage_scope
      then decision_of request environment (some found) false
          ("Denied: source " ⧺ request.source_id ⧺ " is blocked by registry status")
      else decide_listed request environment found (find_entry request.source_id policy.sources)

  unfoldable pub get_source_policy_decision : SourcePolicyRequest → SourcePolicyDecision
  unfolding decide_registered normalize_source_environment is_source_action find_registered
  get_source_policy_decision request =
      let environment = normalize_source_environment request.environment in
      let found = find_registered request.source_id registry in
      if is_source_action request.action
      then decide_registered request environment found
      else decision_of request environment found false ("Denied: unknown action " ⧺ request.action)

  -- The error carries the decision's reason.
  pub assert_source_action_allowed : SourcePolicyRequest → Result SourcePolicyDecision
  assert_source_action_allowed request =
      let decision = get_source_policy_decision request in
      if decision.allowed then ok decision else err decision.reason
