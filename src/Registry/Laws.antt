-- ===== src/Registry/Laws.antt =====
-- Which registries tools/data-poc/src/sourceRegistryValidator.ts accepts.
use crypto_edge_ai.Common.{
  ℕ, String, ◌≡◌, ◌↔◌, refl, Bool, true, some, List, [], ◌∷◌, arith, is_empty, Option-cases, inl,
  inr,
}
use crypto_edge_ai.Number.{Number}
use crypto_edge_ai.Json.{Value, Items, Fields, property, as_record}
use crypto_edge_ai.Registry.{
  as_items, header_issues, validate_sources, validate_fields, validate_source_registry,
}
use crypto_edge_ai.Registry.Valid.{AreNew, IsFilled, AreSources, AreKnown, IsRegistry}
use crypto_edge_ai.Registry.Required.{append-eq-nil, require_string-nil}
use crypto_edge_ai.Registry.Sources.{check_sources-nil, check_sources-new, reference_array-nil}

is_empty-eq-nil {ℓ} : {A : Type ℓ} (xs : List A) → is_empty xs ≡ true → xs ≡ []
is_empty-eq-nil [] h = refl
is_empty-eq-nil (x ∷ xs) h = cc

module _ (n : Number) (is_blank : String → Bool) (show : ℕ → String) where
  -- What makes a registry with a list of sources valid.
  record IsSound (fields : Fields n) (items : Items n) : Type 0 where
    version : (s : String) × IsFilled n is_blank show (property "registry_version" fields) s
    reviewed : (s : String) × IsFilled n is_blank show (property "reviewed_at" fields) s
    ids : List String
    sources : AreSources n is_blank show items ids
    distinct : AreNew [] ids
    ready :
        (refs : Items n) × (as_items (property "sources_ready_for_camp_beta" fields) ≡ some refs)
        × AreKnown n is_blank show ids refs
    blocked :
        (refs : Items n) × (as_items (property "sources_blocked_or_pending" fields) ≡ some refs)
        × AreKnown n is_blank show ids refs

  IsSound-of_valid :
      (fields : Fields n) (items : Items n)
      → (validate_sources n is_blank show fields items).valid ≡ true
      → IsSound fields items
  unfolding validate_sources header_issues
  IsSound-of_valid fields items h =
      let (h₁, blocked) = (append-eq-nil _ _).0 (is_empty-eq-nil _ h) in
      let (h₂, ready) = (append-eq-nil _ _).0 h₁ in
      let (header, issues) = (append-eq-nil _ _).0 h₂ in
      let (version, reviewed) = (append-eq-nil _ _).0 header in
      let (ids, sources, distinct, grown) = check_sources-nil n is_blank show 0 [] items issues in
      record {
        version = (require_string-nil n is_blank show fields "registry_version").0 version;
        reviewed = (require_string-nil n is_blank show fields "reviewed_at").0 reviewed;
        ids = ids;
        sources = sources;
        distinct = distinct;
        ready =
            (reference_array-nil n is_blank show fields "sources_ready_for_camp_beta" ids).0
              (rw grown at ready);
        blocked =
            (reference_array-nil n is_blank show fields "sources_blocked_or_pending" ids).0
              (rw grown at blocked);
      }

  valid_of_sound :
      (fields : Fields n) (items : Items n)
      → IsSound fields items
      → (validate_sources n is_blank show fields items).valid ≡ true
  unfolding validate_sources header_issues
  valid_of_sound fields items s = rw (
    check_sources-new n is_blank show 0 [] items s.ids s.sources s.distinct,
    (require_string-nil n is_blank show fields "registry_version").1 s.version,
    (require_string-nil n is_blank show fields "reviewed_at").1 s.reviewed,
    (reference_array-nil n is_blank show fields "sources_ready_for_camp_beta" s.ids).1 s.ready,
    (reference_array-nil n is_blank show fields "sources_blocked_or_pending" s.ids).1 s.blocked,
  )

  -- The validation finds a value valid exactly when it is such a registry: an object with a version
  -- and a date of review, a list of complete sources whose ids are filled and differ from each other,
  -- and two lists that refer only to ids of its sources.
  pub validate_source_registry_iff :
      (value : Value n)
      → ((validate_source_registry n is_blank show value).valid ≡ true)
        ↔ IsRegistry n is_blank show value
  unfolding validate_source_registry validate_fields
  validate_source_registry_iff value = elim (Option-cases (as_record (some value))) [
    | inl other ↦ (λ h. absurd (ground arith), λ r. cc (r.object, other))
    | inr (fields, object) ↦ elim (Option-cases (as_items (property "sources" fields))) [
      | inl missing ↦ (λ h. absurd (ground arith), λ r. absurd (ground (arith, r.object, r.listed)))
      | inr (items, listed) ↦ (
        λ h.
            let s = IsSound-of_valid fields items (ground arith) in
            record {
              fields = fields;
              object = object;
              version = s.version;
              reviewed = s.reviewed;
              items = items;
              listed = listed;
              ids = s.ids;
              sources = s.sources;
              distinct = s.distinct;
              ready = s.ready;
              blocked = s.blocked;
            },
        λ r.
            let valid' = valid_of_sound r.fields r.items (record {
              version = r.version;
              reviewed = r.reviewed;
              ids = r.ids;
              sources = r.sources;
              distinct = r.distinct;
              ready = r.ready;
              blocked = r.blocked;
            }) in
            ground (arith, valid', r.object, r.listed),
      )
    ]
  ]
