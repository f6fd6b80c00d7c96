-- ===== src/Scanner/Security/Tests.antt =====
-- Runs of the security rules (tools/data-poc/src/securityRules.ts).
use crypto_edge_ai.Common.{◌≡◌, ◌↔◌, refl, true, some}
use crypto_edge_ai.Scanner.Types.{NormalizedSecurity, SecurityLabel}
use crypto_edge_ai.Scanner.Security.{evaluate_security}
use crypto_edge_ai.Scanner.Security.Verdict.{IsCritical, IsDoubtful, evaluate_security_iff}
use crypto_edge_ai.Scanner.Fixtures.{ten_thousandths, good_security}

-- A proxy contract of one whale.
abbrev whale_security : NormalizedSecurity ten_thousandths
whale_security = record good_security { top_wallet_pct = some 400000; proxy_risk = some true }

whale_security-critical :
    (evaluate_security ten_thousandths whale_security).security_label ≡ SecurityLabel.critical_risk
unfolding evaluate_security
whale_security-critical = refl

evaluate_security_iff_example :
    let label = (evaluate_security ten_thousandths whale_security).security_label in
    ((label ≡ SecurityLabel.critical_risk) ↔ IsCritical ten_thousandths whale_security)
    × ((label ≡ SecurityLabel.needs_manual_verification) ↔ (
        (¬ IsCritical ten_thousandths whale_security) × IsDoubtful ten_thousandths whale_security))
    × ((label ≡ SecurityLabel.security_passed) ↔ (
        (¬ IsCritical ten_thousandths whale_security)
        × (¬ IsDoubtful ten_thousandths whale_security)))
evaluate_security_iff_example = evaluate_security_iff ten_thousandths whale_security
