-- ===== src/Automation/Store/Accepted/Suspension.antt =====
-- The fields of the suspension that tools/data-poc/src/automation/automationState.ts accepts.
use crypto_edge_ai.Common.{
  ◌≢◌, ◌≡◌, refl, Option, none, some, Bool, true, false, ok, Bool-cases, inl, inr, String,
  ok_injective, bind-eq-ok,
}
use crypto_edge_ai.Number.{Number}
use crypto_edge_ai.Json.{property, Fields}
use crypto_edge_ai.Date.{DateText}
use crypto_edge_ai.Automation.State.{AutomationState}
use crypto_edge_ai.Automation.State.Coherence.{IsCoherent}
use crypto_edge_ai.Automation.Store.Values.{
  Format, optional_nullable_safe_text, optional_boolean, optional_nullable_iso,
}
use crypto_edge_ai.Automation.Store.Normalize.{is_incoherent, suspension_of, read_suspension}
use crypto_edge_ai.Automation.Store.Valid.{HasSuspension, IsId, Each, IsDate}
use crypto_edge_ai.Automation.Store.Valid.Read.{
  optional_nullable_safe_text-IsId, optional_nullable_iso-IsDate,
}

coherent_fields :
    (suspended required : Bool) (at : Option DateText) (reason : Option String)
    → is_incoherent suspended required at reason ≡ false
    → (required ≡ suspended)
      × (suspended ≡ true → at ≢ none)
      × (suspended ≡ true → reason ≢ none)
      × (suspended ≡ false → at ≡ none)
      × (suspended ≡ false → reason ≡ none)
unfolding is_incoherent
coherent_fields true true (some _) (some _) e = (refl, λ _ h. cc, λ _ h. cc, λ h. cc, λ h. cc)
coherent_fields false false none none e = (refl, λ h. cc, λ h. cc, λ _. refl, λ _. refl)
coherent_fields _ _ _ _ e = cc

pub IsCoherent-of_accepted :
    (s : AutomationState)
    → is_incoherent s.automation_suspended s.resume_required s.suspended_at s.suspended_reason
      ≡ false
    → IsCoherent s
IsCoherent-of_accepted s e =
    let (resume, dated, explained, undated, unexplained) =
      coherent_fields s.automation_suspended s.resume_required s.suspended_at s.suspended_reason
        e in
    record {
      resume = resume;
      dated = dated;
      explained = explained;
      undated = undated;
      unexplained = unexplained;
    }

module _ {n : Number} (f : Format n) where
  abbrev pub Passed : AutomationState → Type 0
  Passed s =
      (is_incoherent s.automation_suspended s.resume_required s.suspended_at s.suspended_reason
        ≡ false)
      × HasSuspension f s

  suspension_of-Passed :
      (s : AutomationState) (suspended required : Bool) (at : Option DateText)
      (reason : Option String) {s' : AutomationState}
      → Each (IsDate f) at
      → IsId reason
      → suspension_of s suspended required at reason ≡ ok s'
      → Passed s'
  unfolding suspension_of
  suspension_of-Passed s suspended required at reason h i e =
      elim (Bool-cases (is_incoherent suspended required at reason)) [
        | inl bad ↦ let wrong = rw bad at e in cc
        | inr good ↦ let here = ok_injective (rw good at e) in rw (← here) (good, (h, i))
      ]

  pub read_suspension-Passed :
      (fields : Fields n) (s : AutomationState) {s' : AutomationState}
      → read_suspension f fields s ≡ ok s'
      → Passed s'
  unfolding read_suspension
  read_suspension-Passed fields s e =
      let (suspended, _, rest) =
        bind-eq-ok (optional_boolean (property "automation_suspended" fields) false) _ e in
      let (at, dated, rest1) =
        bind-eq-ok (optional_nullable_iso f (property "suspended_at" fields)) _ rest in
      let (reason, explained, rest2) =
        bind-eq-ok (optional_nullable_safe_text (property "suspended_reason" fields)) _ rest1 in
      let (required, _, rest3) =
        bind-eq-ok (optional_boolean (property "resume_required" fields) suspended) _ rest2 in
      suspension_of-Passed s suspended required at reason
        (optional_nullable_iso-IsDate f (property "suspended_at" fields) dated)
        (optional_nullable_safe_text-IsId (property "suspended_reason" fields) explained) rest3
