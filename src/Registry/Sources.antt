-- ===== src/Registry/Sources.antt =====
-- When the sources and the references of tools/data-poc/src/sourceRegistryValidator.ts have no issue.
use crypto_edge_ai.Common.{
  ℕ, ◌+◌, String, ◌≡◌, ◌↔◌, refl, sym, ap, ◌∙◌, Bool, true, false, Option, none, some, List, [],
  ◌∷◌, ◌++◌, arith, includes, append-nil, append_assoc, Bool-cases, Option-cases, inl, inr,
}
use crypto_edge_ai.Number.{Number}
use crypto_edge_ai.Json.{Value, Items, nil, cons, Fields, property, as_record}
use crypto_edge_ai.Registry.{
  Issue, issue, as_items, filled_text, check_id, source_path, check_source, check_sources,
  check_reference, check_references, validate_source_reference_array,
}
use crypto_edge_ai.Registry.Valid.{AreNew, IsFilled, IsSource, AreSources, empty, more, AreKnown}
use crypto_edge_ai.Registry.Required.{append-eq-nil, field_issues-nil}

module _ (n : Number) (is_blank : String → Bool) (show : ℕ → String) where
  check_id-nil :
      (ids : List String) (o : Option (Value n)) (path : String)
      → (check_id n is_blank show ids o path).1 ≡ []
      → (id : String) × IsFilled n is_blank show o id
        × (includes ids id ≡ false)
        × ((check_id n is_blank show ids o path).0 ≡ ids ++ id ∷ [])
  unfolding check_id issue
  check_id-nil ids o path h = elim (Option-cases (filled_text n is_blank show o)) [
    | inl missing ↦ absurd (ground arith)
    | inr (id, given) ↦ elim (Bool-cases (includes ids id)) [
      | inl known ↦ absurd (ground arith)
      | inr new ↦ (id, given, new, ground arith)
    ]
  ]

  check_id-new :
      (ids : List String) (o : Option (Value n)) (path id : String)
      → IsFilled n is_blank show o id
      → includes ids id ≡ false
      → check_id n is_blank show ids o path ≡ (ids ++ id ∷ [], [])
  unfolding check_id
  check_id-new ids o path id given new = ground arith

  check_source-nil :
      (ids : List String) (o : Option (Fields n)) (path : String)
      → (check_source n is_blank show ids o path).1 ≡ []
      → (fields : Fields n) × (id : String) × (o ≡ some fields)
        × IsSource n is_blank show fields id
        × (includes ids id ≡ false)
        × ((check_source n is_blank show ids o path).0 ≡ ids ++ id ∷ [])
  unfolding check_source issue
  check_source-nil ids none path h = cc
  check_source-nil ids (some source) path h =
      let (first, rest) = (append-eq-nil _ _).0 h in
      let (id, given, new, grown) = check_id-nil ids (property "source_id" source) path first in
      (source, id, refl, (field_issues-nil n is_blank show source id path given).0 rest, new, grown)

  check_source-new :
      (ids : List String) (fields : Fields n) (path id : String)
      → IsSource n is_blank show fields id
      → includes ids id ≡ false
      → check_source n is_blank show ids (some fields) path ≡ (ids ++ id ∷ [], [])
  unfolding check_source
  check_source-new ids fields path id s new = rw (
    check_id-new ids (property "source_id" fields) path id s.named new,
    (field_issues-nil n is_blank show fields id path s.named).1 s,
  )

  pub check_sources-nil :
      (index : ℕ) (seen : List String) (items : Items n)
      → (check_sources n is_blank show index seen items).1 ≡ []
      → (ids : List String) × AreSources n is_blank show items ids
        × AreNew seen ids
        × ((check_sources n is_blank show index seen items).0 ≡ seen ++ ids)
  unfolding check_sources
  check_sources-nil index seen nil h = ([], empty, tt, sym (append-nil seen))
  check_sources-nil index seen (cons v items) h =
      let (first, rest) = (append-eq-nil _ _).0 h in
      let (fields, id, object, source, new, grown) =
        check_source-nil seen (as_record (some v)) _ first in
      let (ids, sources, distinct, all') = check_sources-nil (index + 1) _ items rest in
      (
        id ∷ ids,
        more fields id object source sources,
        (new, rw (← grown) distinct),
        all' ∙ ap (λ s. s ++ ids) grown ∙ append_assoc seen (id ∷ []) ids,
      )

  check_sources-cons :
      (index : ℕ) (seen ids : List String) (v : Value n) (items : Items n) (issues : List Issue)
      → check_source n is_blank show seen (as_record (some v)) (source_path n is_blank show index)
        ≡ (ids, issues)
      → check_sources n is_blank show index seen (cons v items) ≡ (
        (check_sources n is_blank show (index + 1) ids items).0,
        issues ++ (check_sources n is_blank show (index + 1) ids items).1,
      )
  unfolding check_sources
  check_sources-cons index seen ids v items issues e =
      ap
        (λ p. (
          (check_sources n is_blank show (index + 1) p.0 items).0,
          p.1 ++ (check_sources n is_blank show (index + 1) p.0 items).1,
        ))
        e

  pub check_sources-new :
      (index : ℕ) (seen : List String) (items : Items n) (ids : List String)
      → AreSources n is_blank show items ids
      → AreNew seen ids
      → check_sources n is_blank show index seen items ≡ (seen ++ ids, [])
  check_sources-new index seen nil [] empty d =
      unfold check_sources in (ap (λ s. (s, [])) (sym (append-nil seen)))
  check_sources-new index seen nil (id ∷ ids) x d = elim x [ ]
  check_sources-new index seen (cons v items) [] x d = elim x [ ]
  check_sources-new index seen (cons v items) (id ∷ ids) (more fields id' object source sources)
        (new, d) =
      check_sources-cons index seen (seen ++ id ∷ []) v items []
        (rw object (check_source-new seen fields (source_path n is_blank show index) id source new))
      ∙ check_sources-new (index + 1) (seen ++ id ∷ []) items ids sources d
      ∙ ap (λ s. (s, [])) (append_assoc seen (id ∷ []) ids)

  check_reference-nil :
      (key : String) (ids : List String) (v : Value n) (index : ℕ)
      → (check_reference n is_blank show key ids v index ≡ [])
        ↔ ((id : String) × IsFilled n is_blank show (some v) id × (includes ids id ≡ true))
  unfolding check_reference issue
  check_reference-nil key ids v index = elim (Option-cases (filled_text n is_blank show (some v))) [
    | inl missing ↦ (λ h. absurd (ground arith), λ (s, e, _). absurd (ground arith))
    | inr (id, given) ↦ elim (Bool-cases (includes ids id)) [
      | inl known ↦ (λ _. (id, given, known), λ _. ground arith)
      | inr bad ↦ (λ h. absurd (ground arith), λ (t, e, k). absurd (ground arith))
    ]
  ]

  check_references-nil :
      (key : String) (ids : List String) (index : ℕ) (items : Items n)
      → (check_references n is_blank show key ids index items ≡ [])
        ↔ AreKnown n is_blank show ids items
  unfolding check_references
  check_references-nil key ids index nil = (λ _. tt, λ _. refl)
  check_references-nil key ids index (cons v items) =
      let one = check_reference-nil key ids v index in
      let rest = check_references-nil key ids (index + 1) items in
      (
        λ h. let (a, b) = (append-eq-nil _ _).0 h in (one.0 a, rest.0 b),
        λ (a, b). (append-eq-nil _ _).1 (one.1 a, rest.1 b),
      )

  pub reference_array-nil :
      (fields : Fields n) (key : String) (ids : List String)
      → (validate_source_reference_array n is_blank show fields key ids ≡ []) ↔ (
          (refs : Items n) × (as_items (property key fields) ≡ some refs)
          × AreKnown n is_blank show ids refs)
  unfolding validate_source_reference_array issue
  reference_array-nil fields key ids = elim (Option-cases (as_items (property key fields))) [
    | inl missing ↦ (λ h. absurd (ground arith), λ (r, e, _). absurd (ground arith))
    | inr (refs, given) ↦ (
      λ h. (refs, given, (check_references-nil key ids 0 refs).0 (ground arith)),
      λ (r, e, k).
          let same : r ≡ refs = ground arith in
          ground (arith, (check_references-nil key ids 0 refs).1 (rw same at k)),
    )
  ]
