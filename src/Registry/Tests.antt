-- ===== src/Registry/Tests.antt =====
-- A registry that tools/data-poc/src/sourceRegistryValidator.ts accepts.
use crypto_edge_ai.Common.{ℕ, String, ◌≡◌, ◌↔◌, refl, true}
use crypto_edge_ai.Json.{Value, str, arr, obj, nil, cons, end, field, property}
use crypto_edge_ai.Scanner.Fixtures.{ten_thousandths, never_blank}
use crypto_edge_ai.Registry.{validate_source_registry, as_items, filled_text}
use crypto_edge_ai.Registry.Valid.{IsRegistry}
use crypto_edge_ai.Registry.Laws.{validate_source_registry_iff}

abbrev show : ℕ → String
show i = "i"

abbrev source : String → Value ten_thousandths
source id = obj (
    field "source_id" (str id) (
      field "access_status" (str "APPROVED_API") (
        field "usage_scope" (str "POC_ONLY") (
          field "confidence" (str "HIGH") (
            field "approved_endpoints" (arr nil) (
              field "current_code_files" (arr nil) (
                field "implementation_changes_required" (arr nil)
                  (field "open_questions" (arr nil) end))))))))

abbrev registry : Value ten_thousandths → Value ten_thousandths
registry second = obj (
    field "registry_version" (str "v1") (
      field "reviewed_at" (str "2026-01-01") (
        field "sources" (arr (cons (source "dexscreener") (cons second nil))) (
          field "sources_ready_for_camp_beta" (arr (cons (str "dexscreener") nil))
            (field "sources_blocked_or_pending" (arr nil) end)))))

two_sources-valid :
    (validate_source_registry ten_thousandths never_blank show
      (registry (source "defillama_api"))).valid
    ≡ true
unfolding validate_source_registry as_items property filled_text
two_sources-valid = refl

validate_source_registry_iff_example :
    ((validate_source_registry ten_thousandths never_blank show
        (registry (source "defillama_api"))).valid
      ≡ true)
    ↔ IsRegistry ten_thousandths never_blank show (registry (source "defillama_api"))
validate_source_registry_iff_example =
    validate_source_registry_iff ten_thousandths never_blank show
      (registry (source "defillama_api"))
