-- ===== src/Policy/Tests.antt =====
-- Decisions of tools/data-poc/src/sourcePolicy.ts for one registered source.
use crypto_edge_ai.Common.{◌≡◌, ◌↔◌, refl, true, false, some, List, [], ◌∷◌, ok, err}
use crypto_edge_ai.Policy.{
  AccessStatus, UsageScope, SourceRegistrySource, RuntimePolicy, SourcePolicyRequest,
  get_source_policy_decision, assert_source_action_allowed,
}
use crypto_edge_ai.Policy.Laws.{
  IsPermitted, get_source_policy_decision_iff, assert_source_action_allowed_iff,
}

abbrev registry : List SourceRegistrySource
registry =
    record {
      source_id = "dexscreener";
      access_status = AccessStatus.approved_api;
      usage_scope = UsageScope.internal_beta;
    }
    ∷ []

abbrev policy : RuntimePolicy
policy = record {
  safe_default_environment = "FIXTURE_ONLY";
  sources =
      (
        "dexscreener",
        record {
          action_allowlist =
              ("live_fetch", "INTERNAL_BETA" ∷ []) ∷ ("fixture_load", "FIXTURE_ONLY" ∷ []) ∷ [];
        },
      )
      ∷ [];
}

abbrev fetch : SourcePolicyRequest
fetch = record {
  source_id = "dexscreener";
  environment = some "INTERNAL_BETA";
  action = "live_fetch";
}

-- From an unknown environment the fetch is judged in the safe default.
abbrev stray_fetch : SourcePolicyRequest
stray_fetch = record fetch { environment = some "PRODUCTION" }

fetch-allowed : (get_source_policy_decision registry policy fetch).allowed ≡ true
unfolding get_source_policy_decision
fetch-allowed = refl

stray_fetch-denied : (get_source_policy_decision registry policy stray_fetch).allowed ≡ false
unfolding get_source_policy_decision
stray_fetch-denied = refl

get_source_policy_decision_iff_example :
    ((get_source_policy_decision registry policy fetch).allowed ≡ true)
    ↔ IsPermitted registry policy fetch
get_source_policy_decision_iff_example = get_source_policy_decision_iff registry policy fetch

assert_source_action_allowed_iff_example :
    let decision = get_source_policy_decision registry policy stray_fetch in
    ((assert_source_action_allowed registry policy stray_fetch ≡ ok decision)
      ↔ IsPermitted registry policy stray_fetch)
    × ((assert_source_action_allowed registry policy stray_fetch ≡ err decision.reason)
        ↔ (¬ IsPermitted registry policy stray_fetch))
assert_source_action_allowed_iff_example =
    assert_source_action_allowed_iff registry policy stray_fetch
