-- ===== src/Registry/Required.antt =====
-- When a source of tools/data-poc/src/sourceRegistryValidator.ts has all its fields.
use crypto_edge_ai.Common.{
  ℕ, String, ◌≡◌, ◌↔◌, refl, Bool, List, [], ◌∷◌, ◌++◌, arith, includes, Bool-cases, Option-cases,
  inl, inr,
}
use crypto_edge_ai.Number.{Number}
use crypto_edge_ai.Json.{Fields, property}
use crypto_edge_ai.Registry.{
  access_status_values, usage_scope_values, confidence_values, issue, as_text, as_items,
  filled_text, require_string, require_enum, require_array, field_issues,
}
use crypto_edge_ai.Registry.Valid.{IsOneOf, IsArray, IsFilled, IsSource}

pub append-eq-nil {ℓ} : {A : Type ℓ} (xs ys : List A) → ((xs ++ ys) ≡ []) ↔ ((xs ≡ []) × (ys ≡ []))
append-eq-nil [] ys = (λ h. (refl, h), λ h. h.1)
append-eq-nil (x ∷ xs) ys = (λ h. cc, λ h. cc (h.0))

module _ (n : Number) (is_blank : String → Bool) (show : ℕ → String) where
  pub require_string-nil :
      (fields : Fields n) (key : String)
      → (require_string n is_blank show fields key ≡ [])
        ↔ ((s : String) × IsFilled n is_blank show (property key fields) s)
  unfolding require_string issue
  require_string-nil fields key =
      elim (Option-cases (filled_text n is_blank show (property key fields))) [
        | inl missing ↦ (λ h. absurd (ground arith), λ (s, e). absurd (ground arith))
        | inr (s, given) ↦ (λ _. (s, given), λ _. ground arith)
      ]

  require_enum-nil :
      (fields : Fields n) (key : String) (allowed : List String) (path : String)
      → (require_enum n is_blank show fields key allowed path ≡ [])
        ↔ IsOneOf allowed (property key fields)
  unfolding require_enum issue
  require_enum-nil fields key allowed path = elim (Option-cases (as_text (property key fields))) [
    | inl missing ↦ (λ h. absurd (ground arith), λ (s, e, _). absurd (ground arith))
    | inr (s, given) ↦ elim (Bool-cases (includes allowed s)) [
      | inl ok' ↦ (λ _. (s, given, ok'), λ _. ground arith)
      | inr bad ↦ (λ h. absurd (ground arith), λ (t, e, k). absurd (ground arith))
    ]
  ]

  require_array-nil :
      (fields : Fields n) (key path : String)
      → (require_array n is_blank show fields key path ≡ []) ↔ IsArray (property key fields)
  unfolding require_array issue
  require_array-nil fields key path = elim (Option-cases (as_items (property key fields))) [
    | inl missing ↦ (λ h. absurd (ground arith), λ (s, e). absurd (ground arith))
    | inr (s, given) ↦ (λ _. (s, given), λ _. ground arith)
  ]

  pub field_issues-nil :
      (source : Fields n) (id path : String)
      → IsFilled n is_blank show (property "source_id" source) id
      → (field_issues n is_blank show source path ≡ []) ↔ IsSource n is_blank show source id
  unfolding field_issues
  field_issues-nil source id path named' = (
    λ h.
        let (h₁, q) = (append-eq-nil _ _).0 h in
        let (h₂, g) = (append-eq-nil _ _).0 h₁ in
        let (h₃, f) = (append-eq-nil _ _).0 h₂ in
        let (h₄, e) = (append-eq-nil _ _).0 h₃ in
        let (h₅, c) = (append-eq-nil _ _).0 h₄ in
        let (a, u) = (append-eq-nil _ _).0 h₅ in
        record {
          named = named';
          access = (require_enum-nil source "access_status" access_status_values path).0 a;
          usage = (require_enum-nil source "usage_scope" usage_scope_values path).0 u;
          confidence = (require_enum-nil source "confidence" confidence_values path).0 c;
          endpoints = (require_array-nil source "approved_endpoints" path).0 e;
          code_files = (require_array-nil source "current_code_files" path).0 f;
          changes = (require_array-nil source "implementation_changes_required" path).0 g;
          questions = (require_array-nil source "open_questions" path).0 q;
        },
    λ s. rw (
      (require_enum-nil source "access_status" access_status_values path).1 s.access,
      (require_enum-nil source "usage_scope" usage_scope_values path).1 s.usage,
      (require_enum-nil source "confidence" confidence_values path).1 s.confidence,
      (require_array-nil source "approved_endpoints" path).1 s.endpoints,
      (require_array-nil source "current_code_files" path).1 s.code_files,
      (require_array-nil source "implementation_changes_required" path).1 s.changes,
      (require_array-nil source "open_questions" path).1 s.questions,
    ),
  )
