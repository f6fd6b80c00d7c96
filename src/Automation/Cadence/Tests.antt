-- ===== src/Automation/Cadence/Tests.antt =====
-- Plans of tools/data-poc/src/automation/sourceCadence.ts.

use crypto_edge_ai.Common.{ℕ, ◌≤◌, ◌≡◌, ◌↔◌, ◌⊎◌, refl, true, some, ok}
use crypto_edge_ai.Date.{parse, max_time}
use crypto_edge_ai.Automation.Fixtures.{now, plan, recent}
use crypto_edge_ai.Automation.Cadence.{
  SourceCadencePlan, dexscreener_ms, alternative_me_ms, defillama_ms, plan_source_cadence,
}
use crypto_edge_ai.Automation.Cadence.Laws.{
  IsDue, IsUsable, plan_source_cadence_iff, plan_source_cadence_total,
}

planned : plan_source_cadence (some now) recent ≡ ok plan
unfolding plan_source_cadence parse
planned = refl

plan_source_cadence_iff_example :
    ((plan.requires_scanner_and_context ≡ true) ↔ IsDue now dexscreener_ms recent.dexscreener)
    × ((plan.requires_context_only ≡ true) ↔ (
        (¬ IsDue now dexscreener_ms recent.dexscreener)
        × (IsDue now alternative_me_ms recent.alternative_me_fng
            ⊎ IsDue now defillama_ms recent.defillama_api)))
plan_source_cadence_iff_example = plan_source_cadence_iff now recent plan planned

plan_source_cadence_total_example :
    ((p : SourceCadencePlan) × (plan_source_cadence (some now) recent ≡ ok p)) ↔ (
      ((t : ℕ) × (some now ≡ some t) × (t ≤ max_time))
      × IsUsable dexscreener_ms recent.dexscreener
      × IsUsable alternative_me_ms recent.alternative_me_fng
      × IsUsable defillama_ms recent.defillama_api)
plan_source_cadence_total_example = plan_source_cadence_total (some now) recent
