-- ===== src/Automation/Store/Values.antt =====
-- The readers of single values in tools/data-poc/src/automation/automationState.ts. A value is what
-- `JSON.parse` gives, and `none` is `undefined`.
use Prim.Native.Char.{code}
use crypto_edge_ai.Common.{
  ℕ, ◌+◌, ◌≤◌, ◌≡◌, String, Bool, true, false, not, ◌&&◌, ◌||◌, Option, none, some, List, [], ◌∷◌,
  leb, ltb, ◌==◌, if◌then◌else◌, str_eq, Result, ok, err, ◌>>=◌,
}
use crypto_edge_ai.Number.{Number}
use crypto_edge_ai.Date.{DateText, iso, other, parse, max_time}
use crypto_edge_ai.Json.{Value, null, bool, num, str, obj, arr, nil, cons, Fields, end, field}
use crypto_edge_ai.Automation.State.{AutomationSourceStatus}
use crypto_edge_ai.Automation.ErrorCode.{is_safe_text, is_id_key}
use crypto_edge_ai.Automation.Store.Words.{source_word}

-- `Number.MAX_SAFE_INTEGER`.
abbrev pub max_safe_integer : ℕ
max_safe_integer = 9007199254740991

abbrev pub text_of : (ℕ → String) → DateText → String
text_of iso_text (iso t) = iso_text t
text_of iso_text (other text _) = text

-- What JavaScript says of numbers and dates: `natural x` is x if that is a safe integer and at least
-- 0, `number` is the number that a natural one is, `iso_text t` is `new Date(t).toISOString()`, and
-- `date_of` is how a text stands for a date.
pub record Format (n : Number) : Type 0 where
  pub natural : n.Num → Option ℕ
  pub number : ℕ → n.Num
  pub iso_text : ℕ → String
  pub date_of : String → DateText
  pub natural-number : (k : ℕ) → k ≤ max_safe_integer → natural (number k) ≡ some k
  pub natural-le : (x : n.Num) (k : ℕ) → natural x ≡ some k → k ≤ max_safe_integer
  pub date_of-iso_text : (t : ℕ) → t ≤ max_time → date_of (iso_text t) ≡ iso t
  pub text_of-date_of : (s : String) → text_of iso_text (date_of s) ≡ s

-- `invalidState()`.
abbrev pub invalid_state {ℓ} : {A : Type ℓ} → Result A
invalid_state = err "AUTOMATION_STATE_INVALID"

abbrev pub units : ℕ → ℕ
units c = if ltb c 0x10000 then 1 else 2

-- `value.length`, in UTF-16 units.
unfoldable pub utf16_length : String → ℕ
utf16_length String.[] = 0
utf16_length (String.◌∷◌ c s) = units (code c) + utf16_length s

-- `/[\r\n]/`.
unfoldable pub has_line_break : String → Bool
has_line_break String.[] = false
has_line_break (String.◌∷◌ c s) = code c == 10 || code c == 13 || has_line_break s

unfoldable pub is_safe_description : String → Bool
unfolding utf16_length has_line_break
is_safe_description s = ltb 0 (utf16_length s) && leb (utf16_length s) 240 && not (has_line_break s)

abbrev pub when_valid : Bool → String → Result (Option String)
when_valid true s = ok (some s)
when_valid false s = invalid_state

-- The word that a text stands for, or an error.
abbrev pub when_word {ℓ} : {A : Type ℓ} → Option A → Result (Option A)
when_word none = invalid_state
when_word (some a) = ok (some a)

abbrev pub then_word {ℓ} : {A : Type ℓ} → Option String → (String → Option A) → Option A
then_word none word = none
then_word (some s) word = word s

abbrev pub safe_count : Option ℕ → Result ℕ
safe_count none = invalid_state
safe_count (some k) = ok k

unfoldable pub entry_of :
    String → Option AutomationSourceStatus → Result (String × AutomationSourceStatus)
entry_of key none = invalid_state
entry_of key (some status) = if is_id_key key then ok (key, status) else invalid_state

unfoldable pub count_entry : String → Option ℕ → Result (String × ℕ)
count_entry key none = invalid_state
count_entry key (some count) = if is_id_key key then ok (key, count) else invalid_state

module _ {n : Number} where
  -- `value === word` holds for a text only.
  abbrev pub exact : Value n → Option String
  exact (str s) = some s
  exact _ = none

  -- `String(value)`, as far as it can be one of the words: a text, or an array that holds nothing
  -- but such a value. The code keeps the array itself, the model the word.
  unfoldable pub printed : Value n → Option String
  printed (str s) = some s
  printed (arr (cons v nil)) = printed v
  printed _ = none

  unfoldable pub nullable_word :
      {A : Type 0}
      → (Value n → Option String)
      → (String → Option A)
      → Option (Value n)
      → Result (Option A)
  nullable_word text word none = invalid_state
  nullable_word text word (some null) = ok none
  nullable_word text word (some v) = when_word (then_word (text v) word)

  -- The same where `undefined` is `null`.
  unfoldable pub optional_word :
      {A : Type 0}
      → (Value n → Option String)
      → (String → Option A)
      → Option (Value n)
      → Result (Option A)
  unfolding nullable_word
  optional_word text word none = ok none
  optional_word text word (some v) = nullable_word text word (some v)

  unfoldable pub nullable_safe_text : Option (Value n) → Result (Option String)
  nullable_safe_text (some null) = ok none
  nullable_safe_text (some (str s)) = when_valid (is_safe_text s) s
  nullable_safe_text _ = invalid_state

  unfoldable pub optional_nullable_safe_text : Option (Value n) → Result (Option String)
  unfolding nullable_safe_text
  optional_nullable_safe_text none = ok none
  optional_nullable_safe_text (some v) = nullable_safe_text (some v)

  unfoldable pub optional_nullable_safe_description : Option (Value n) → Result (Option String)
  optional_nullable_safe_description none = ok none
  optional_nullable_safe_description (some null) = ok none
  optional_nullable_safe_description (some (str s)) = when_valid (is_safe_description s) s
  optional_nullable_safe_description _ = invalid_state

  unfoldable pub optional_boolean : Option (Value n) → Bool → Result Bool
  optional_boolean none fallback = ok fallback
  optional_boolean (some (bool b)) fallback = ok b
  optional_boolean _ fallback = invalid_state

  -- The versions that the state and its scheduler part may name.
  unfoldable pub optional_scheduler_version : Option (Value n) → Result (Unit {0})
  optional_scheduler_version none = ok tt
  optional_scheduler_version (some (str s)) =
      if str_eq s "central_source_scheduler_v2" || str_eq s "central_source_scheduler_v1"
      then ok tt
      else invalid_state
  optional_scheduler_version _ = invalid_state

  unfoldable pub state_version : Option (Value n) → Result (Unit {0})
  state_version (some (str s)) =
      if str_eq s "central_automation_state_v2" || str_eq s "central_automation_state_v1"
      then ok tt
      else invalid_state
  state_version _ = invalid_state

  -- The loop of `normalizeSourceStatuses`.
  unfoldable pub source_entries : Fields n → Result (List (String × AutomationSourceStatus))
  unfolding entry_of printed
  source_entries end = ok []
  source_entries (field key v rest) = do
    entry ← entry_of key (then_word (printed v) source_word)
    entries ← source_entries rest
    ok (entry ∷ entries)

  -- `normalizeSourceStatuses`, on what `isRecord` finds.
  unfoldable pub normalize_source_statuses :
      Option (Value n) → Result (List (String × AutomationSourceStatus))
  unfolding source_entries
  normalize_source_statuses none = ok []
  normalize_source_statuses (some (obj fields)) = source_entries fields
  normalize_source_statuses _ = invalid_state

module _ {n : Number} (f : Format n) where
  open f use {natural, date_of}

  abbrev pub when_date : DateText → Option ℕ → Result (Option DateText)
  when_date text none = invalid_state
  when_date text (some _) = ok (some text)

  unfoldable pub nullable_iso : Option (Value n) → Result (Option DateText)
  nullable_iso (some null) = ok none
  nullable_iso (some (str s)) = when_date (date_of s) (parse (date_of s))
  nullable_iso _ = invalid_state

  unfoldable pub optional_nullable_iso : Option (Value n) → Result (Option DateText)
  unfolding nullable_iso
  optional_nullable_iso none = ok none
  optional_nullable_iso (some v) = nullable_iso (some v)

  abbrev pub natural_of : Value n → Option ℕ
  natural_of (num x) = natural x
  natural_of _ = none

  unfoldable pub optional_non_negative_integer : Option (Value n) → Result ℕ
  optional_non_negative_integer none = ok 0
  optional_non_negative_integer (some v) = safe_count (natural_of v)

  unfoldable pub optional_nullable_non_negative_integer : Option (Value n) → Result (Option ℕ)
  optional_nullable_non_negative_integer none = ok none
  optional_nullable_non_negative_integer (some null) = ok none
  optional_nullable_non_negative_integer (some v) = do
    count ← safe_count (natural_of v)
    ok (some count)

  -- The loop of `normalizeRequestCounts`.
  unfoldable pub count_entries : Fields n → Result (List (String × ℕ))
  unfolding count_entry
  count_entries end = ok []
  count_entries (field key v rest) = do
    entry ← count_entry key (natural_of v)
    entries ← count_entries rest
    ok (entry ∷ entries)

  unfoldable pub normalize_request_counts : Option (Value n) → Result (List (String × ℕ))
  unfolding count_entries
  normalize_request_counts (some (obj fields)) = count_entries fields
  normalize_request_counts _ = invalid_state
