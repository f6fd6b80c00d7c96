-- ===== src/Registry/Valid.antt =====
-- What a valid registry is, apart from tools/data-poc/src/sourceRegistryValidator.ts.
use crypto_edge_ai.Common.{
  ℕ, String, ◌≡◌, Bool, true, false, Option, some, List, [], ◌∷◌, ◌++◌, includes,
}
use crypto_edge_ai.Number.{Number}
use crypto_edge_ai.Json.{Value, Items, nil, cons, Fields, property, as_record}
use crypto_edge_ai.Registry.{
  access_status_values, usage_scope_values, confidence_values, as_text, as_items, filled_text,
}

-- None of the ids is among `seen` or the ids before it.
abbrev pub AreNew : List String → List String → Type 0
AreNew seen [] = Unit {0}
AreNew seen (id ∷ ids) = (includes seen id ≡ false) × AreNew (seen ++ id ∷ []) ids

abbrev pub IsOneOf : {n : Number} → List String → Option (Value n) → Type 0
IsOneOf allowed o = (s : String) × (as_text o ≡ some s) × (includes allowed s ≡ true)

abbrev pub IsArray : {n : Number} → Option (Value n) → Type 0
IsArray {n} o = (items : Items n) × (as_items o ≡ some items)

module _ (n : Number) (is_blank : String → Bool) (show : ℕ → String) where
  abbrev pub IsFilled : Option (Value n) → String → Type 0
  IsFilled o s = filled_text n is_blank show o ≡ some s

  -- A source with a filled id, its three enumerations and its four arrays.
  pub record IsSource (fields : Fields n) (id : String) : Type 0 where
    pub named : IsFilled (property "source_id" fields) id
    pub access : IsOneOf access_status_values (property "access_status" fields)
    pub usage : IsOneOf usage_scope_values (property "usage_scope" fields)
    pub confidence : IsOneOf confidence_values (property "confidence" fields)
    pub endpoints : IsArray (property "approved_endpoints" fields)
    pub code_files : IsArray (property "current_code_files" fields)
    pub changes : IsArray (property "implementation_changes_required" fields)
    pub questions : IsArray (property "open_questions" fields)

  -- The items are sources with these ids.
  pub data AreSources : Items n → List String → Type 0 where
    empty : AreSources nil []
    more :
        {v : Value n} {items : Items n} {ids : List String} (fields : Fields n) (id : String)
        → as_record (some v) ≡ some fields
        → IsSource fields id
        → AreSources items ids
        → AreSources (cons v items) (id ∷ ids)

  -- The items are texts among the ids.
  abbrev pub AreKnown : List String → Items n → Type 0
  AreKnown ids nil = Unit {0}
  AreKnown ids (cons v items) =
      ((id : String) × IsFilled (some v) id × (includes ids id ≡ true)) × AreKnown ids items

  -- A registry whose sources are complete and differ in their ids, and whose two lists refer to
  -- sources that it has.
  pub record IsRegistry (value : Value n) : Type 0 where
    pub fields : Fields n
    pub object : as_record (some value) ≡ some fields
    pub version : (s : String) × IsFilled (property "registry_version" fields) s
    pub reviewed : (s : String) × IsFilled (property "reviewed_at" fields) s
    pub items : Items n
    pub listed : as_items (property "sources" fields) ≡ some items
    pub ids : List String
    pub sources : AreSources items ids
    pub distinct : AreNew [] ids
    pub ready :
        (refs : Items n) × (as_items (property "sources_ready_for_camp_beta" fields) ≡ some refs)
        × AreKnown ids refs
    pub blocked :
        (refs : Items n) × (as_items (property "sources_blocked_or_pending" fields) ≡ some refs)
        × AreKnown ids refs
