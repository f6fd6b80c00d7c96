-- ===== src/Automation/Store/Valid/Read.antt =====
-- The readers of single values in tools/data-poc/src/automation/automationState.ts give only what
-- the state may hold.
use crypto_edge_ai.Common.{
  ◌≤◌, ℕ, ◌≡◌, refl, ◌∙◌, ap, sym, String, Bool, true, false, Option, none, some, List, ◌∷◌, All,
  arith, ok, Bool-cases, Option-cases, inl, inr, ok_injective, bind-eq-ok, ◌>>=◌,
}
use crypto_edge_ai.Number.{Number}
use crypto_edge_ai.Date.{DateText, iso, parse, parse-iso, max_time}
use crypto_edge_ai.Json.{Value, null, num, str, obj, Fields, end, field}
use crypto_edge_ai.Automation.State.{AutomationSourceStatus}
use crypto_edge_ai.Automation.ErrorCode.{is_safe_text, is_id_key}
use crypto_edge_ai.Automation.Store.Words.{source_word}
use crypto_edge_ai.Automation.Store.Values.{
  Format, when_date, natural_of, safe_count, when_valid, then_word, is_safe_description,
  nullable_safe_text, optional_nullable_safe_text, optional_nullable_safe_description,
  normalize_source_statuses, source_entries, entry_of, nullable_iso, optional_nullable_iso,
  optional_non_negative_integer, optional_nullable_non_negative_integer, count_entries, count_entry,
  normalize_request_counts, printed,
}
use crypto_edge_ai.Automation.Store.Valid.{
  Each, IsId, IsDescription, IsCount, HasKey, IsCountEntry, IsDate,
}

pub when_valid-eq-ok :
    (b : Bool) (s : String) {o : Option String} → when_valid b s ≡ ok o → (b ≡ true) × (some s ≡ o)
when_valid-eq-ok true s e = (refl, ok_injective e)
when_valid-eq-ok false s e = cc

entry_of-HasKey :
    (key : String) (status : Option AutomationSourceStatus)
    {entry : String × AutomationSourceStatus}
    → entry_of key status ≡ ok entry
    → HasKey entry
unfolding entry_of
entry_of-HasKey key none e = cc
entry_of-HasKey key (some status) {entry} e = elim (Bool-cases (is_id_key key)) [
  | inl safe ↦ let here : (key, status) ≡ entry = ok_injective (rw safe at e) in rw (← here) safe
  | inr bad ↦ let wrong = rw bad at e in cc
]

module _ {n : Number} where
  pub nullable_safe_text-IsId :
      (v : Option (Value n)) {s : Option String} → nullable_safe_text v ≡ ok s → IsId s
  unfolding nullable_safe_text
  nullable_safe_text-IsId (some null) e = let here = ok_injective e in rw (← here) tt
  nullable_safe_text-IsId (some (str s)) e =
      let (safe, here) = when_valid-eq-ok (is_safe_text s) s e in rw (← here) safe
  nullable_safe_text-IsId _ e = cc

  pub optional_nullable_safe_text-IsId :
      (v : Option (Value n)) {s : Option String} → optional_nullable_safe_text v ≡ ok s → IsId s
  unfolding optional_nullable_safe_text
  optional_nullable_safe_text-IsId none e = let here = ok_injective e in rw (← here) tt
  optional_nullable_safe_text-IsId (some v) e = nullable_safe_text-IsId (some v) e

  pub nullable_text-IsDescription :
      (v : Option (Value n)) {s : Option String}
      → optional_nullable_safe_description v ≡ ok s
      → IsDescription s
  unfolding optional_nullable_safe_description
  nullable_text-IsDescription none e = let here = ok_injective e in rw (← here) tt
  nullable_text-IsDescription (some null) e = let here = ok_injective e in rw (← here) tt
  nullable_text-IsDescription (some (str s)) e =
      let (safe, here) = when_valid-eq-ok (is_safe_description s) s e in rw (← here) safe
  nullable_text-IsDescription _ e = cc

  source_entries-HasKey :
      (fields : Fields n) {xs : List (String × AutomationSourceStatus)}
      → source_entries fields ≡ ok xs
      → All HasKey xs
  unfolding source_entries
  source_entries-HasKey end e = let here = ok_injective e in rw (← here) tt
  source_entries-HasKey (field key v rest) e =
      let (entry, first, e') =
        bind-eq-ok (entry_of key (then_word (printed v) source_word))
          (λ entry. source_entries rest >>= λ entries. ok (entry ∷ entries)) e in
      let (entries, later, e'') =
        bind-eq-ok (source_entries rest) (λ entries. ok (entry ∷ entries)) e' in
      let here = ok_injective e'' in
      rw (← here) (
        entry_of-HasKey key (then_word (printed v) source_word) first,
        source_entries-HasKey rest later,
      )

  pub source_statuses-HasKey :
      (v : Option (Value n)) {xs : List (String × AutomationSourceStatus)}
      → normalize_source_statuses v ≡ ok xs
      → All HasKey xs
  unfolding normalize_source_statuses
  source_statuses-HasKey none e = let here = ok_injective e in rw (← here) tt
  source_statuses-HasKey (some (obj fields)) e = source_entries-HasKey fields e
  source_statuses-HasKey _ e = cc

module _ {n : Number} (f : Format n) where
  pub iso-IsDate : (t : ℕ) → t ≤ max_time → IsDate f (iso t)
  iso-IsDate t h = (λ bad. let both = sym (parse-iso t h) ∙ bad in cc, f.date_of-iso_text t h)

  when_date-IsDate :
      (s : String) (t : Option ℕ) {d : Option DateText}
      → parse (f.date_of s) ≡ t
      → when_date f (f.date_of s) t ≡ ok d
      → Each (IsDate f) d
  when_date-IsDate s none p e = cc
  when_date-IsDate s (some t) p e =
      let here = ok_injective e in
      rw (← here) (λ bad. let both = sym p ∙ bad in cc, ap f.date_of (f.text_of-date_of s))

  pub nullable_iso-IsDate :
      (v : Option (Value n)) {d : Option DateText} → nullable_iso f v ≡ ok d → Each (IsDate f) d
  unfolding nullable_iso
  nullable_iso-IsDate (some null) e = let here = ok_injective e in rw (← here) tt
  nullable_iso-IsDate (some (str s)) e = when_date-IsDate s (parse (f.date_of s)) refl e
  nullable_iso-IsDate _ e = cc

  pub optional_nullable_iso-IsDate :
      (v : Option (Value n)) {d : Option DateText}
      → optional_nullable_iso f v ≡ ok d
      → Each (IsDate f) d
  unfolding optional_nullable_iso
  optional_nullable_iso-IsDate none e = let here = ok_injective e in rw (← here) tt
  optional_nullable_iso-IsDate (some v) e = nullable_iso-IsDate (some v) e

  natural_of-IsCount : (v : Value n) {k : ℕ} → safe_count (natural_of f v) ≡ ok k → IsCount k
  natural_of-IsCount (num x) {k} e = elim (Option-cases (f.natural x)) [
    | inl bad ↦ let wrong = rw bad at e in cc
    | inr (j, good) ↦
        let here : j ≡ k = ok_injective (rw good at e) in rw (← here) (f.natural-le x j good)
  ]
  natural_of-IsCount _ e = cc

  pub natural-IsCount :
      (v : Option (Value n)) {k : ℕ} → optional_non_negative_integer f v ≡ ok k → IsCount k
  unfolding optional_non_negative_integer
  natural-IsCount none e = let here = ok_injective e in rw (← here) (omega arith)
  natural-IsCount (some v) e = natural_of-IsCount v e

  some_count-IsCount :
      (v : Value n) {k : Option ℕ}
      → (safe_count (natural_of f v) >>= λ count. ok (some count)) ≡ ok k
      → Each IsCount k
  some_count-IsCount v e =
      let (count, first, e') =
        bind-eq-ok (safe_count (natural_of f v)) (λ count. ok (some count)) e in
      let here = ok_injective e' in rw (← here) (natural_of-IsCount v first)

  pub nullable_natural-IsCount :
      (v : Option (Value n)) {k : Option ℕ}
      → optional_nullable_non_negative_integer f v ≡ ok k
      → Each IsCount k
  unfolding optional_nullable_non_negative_integer
  nullable_natural-IsCount none e = let here = ok_injective e in rw (← here) tt
  nullable_natural-IsCount (some null) e = let here = ok_injective e in rw (← here) tt
  nullable_natural-IsCount (some (num x)) e = some_count-IsCount (num x) e
  nullable_natural-IsCount _ e = cc

  count_entry-IsCountEntry :
      (key : String) (v : Value n) {entry : String × ℕ}
      → count_entry key (natural_of f v) ≡ ok entry
      → IsCountEntry entry
  unfolding count_entry
  count_entry-IsCountEntry key (num x) {entry} e = elim (Option-cases (f.natural x)) [
    | inl bad ↦ let wrong = rw bad at e in cc
    | inr (k, good) ↦ elim (Bool-cases (is_id_key key)) [
      | inl safe ↦
          let here : (key, k) ≡ entry = ok_injective (rw (good, safe) at e) in
          rw (← here) (safe, f.natural-le x k good)
      | inr bad ↦ let wrong = rw (good, bad) at e in cc
    ]
  ]
  count_entry-IsCountEntry key _ e = cc

  count_entries-IsCountEntry :
      (fields : Fields n) {xs : List (String × ℕ)}
      → count_entries f fields ≡ ok xs
      → All IsCountEntry xs
  unfolding count_entries
  count_entries-IsCountEntry end e = let here = ok_injective e in rw (← here) tt
  count_entries-IsCountEntry (field key v rest) e =
      let (entry, first, e') =
        bind-eq-ok (count_entry key (natural_of f v))
          (λ entry. count_entries f rest >>= λ entries. ok (entry ∷ entries)) e in
      let (entries, later, e'') =
        bind-eq-ok (count_entries f rest) (λ entries. ok (entry ∷ entries)) e' in
      let here = ok_injective e'' in
      rw (← here) (count_entry-IsCountEntry key v first, count_entries-IsCountEntry rest later)

  pub request_counts-IsCountEntry :
      (v : Option (Value n)) {xs : List (String × ℕ)}
      → normalize_request_counts f v ≡ ok xs
      → All IsCountEntry xs
  unfolding normalize_request_counts
  request_counts-IsCountEntry (some (obj fields)) e = count_entries-IsCountEntry fields e
  request_counts-IsCountEntry _ e = cc
