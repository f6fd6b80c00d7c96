-- ===== src/Scanner/Normalize/Tests.antt =====
-- Runs of tools/data-poc/src/normalizeSecurity.ts.
use crypto_edge_ai.Common.{◌≡◌, ◌↔◌, ◌⊎◌, refl, true, none, some, []}
use crypto_edge_ai.Scanner.Types.{SecurityLabel, HoneypotStatus, OwnershipStatus}
use crypto_edge_ai.Scanner.Normalize.{missing_data_of, normalize_security}
use crypto_edge_ai.Scanner.Normalize.Laws.{
  IsComplete, goplus_says, honeypot_says, status_of, normalize_security-honeypot, missing_data-nil,
}
use crypto_edge_ai.Scanner.Fixtures.{
  good_security, ten_thousandths, goplus_answer, honeypot_answer, unchanged, never_blank,
}

normalize_security-honeypot_example :
    ((status_of ten_thousandths unchanged never_blank none
          (some goplus_answer)
          (some honeypot_answer)
        ≡ HoneypotStatus.failed)
      ↔ ((goplus_says ten_thousandths unchanged never_blank none (some goplus_answer) ≡ some true)
          ⊎ (honeypot_says ten_thousandths unchanged never_blank (some honeypot_answer)
              ≡ some true)))
    × ((status_of ten_thousandths unchanged never_blank none
            (some goplus_answer)
            (some honeypot_answer)
          ≡ HoneypotStatus.unknown)
        ↔ ((goplus_says ten_thousandths unchanged never_blank none (some goplus_answer) ≡ none)
            × (honeypot_says ten_thousandths unchanged never_blank (some honeypot_answer) ≡ none)))
    × (status_of ten_thousandths unchanged never_blank none
            (some goplus_answer)
            (some honeypot_answer)
          ≡ HoneypotStatus.failed
        → (normalize_security ten_thousandths unchanged never_blank none
            (some goplus_answer)
            (some honeypot_answer)).1.security_label
          ≡ SecurityLabel.critical_risk)
normalize_security-honeypot_example =
    normalize_security-honeypot ten_thousandths unchanged never_blank none (some goplus_answer)
      (some honeypot_answer)

missing_data-nil_example :
    let s =
      (normalize_security ten_thousandths unchanged never_blank
        (some "0xabc")
        (some goplus_answer)
        none).0 in
    (s.missing_data ≡ []) ↔ IsComplete ten_thousandths s
missing_data-nil_example =
    missing_data-nil ten_thousandths unchanged never_blank (some "0xabc") (some goplus_answer) none

-- An owner that is not known is not named as missing.
unknown_owner :
    missing_data_of ten_thousandths
      (record good_security { ownership_status = OwnershipStatus.unknown })
    ≡ []
unknown_owner = refl
