-- ===== src/Automation/ErrorCode.antt =====
-- The texts of tools/data-poc/src/automation/centralAutomationCoordinator.ts: error codes, run ids,
-- and the class of a failure. A text is read by its code points, which agree with UTF-16 units on
-- all that the patterns accept.
pub mod Safe
pub mod Class
mod Tests
use Prim.Native.Char.{Char, code}
use Prim.Native.String.{String, [], ◌∷◌}
use crypto_edge_ai.Common.{
  ℕ, zero, suc, Bool, true, false, not, ◌&&◌, ◌||◌, Option, none, some, leb, ◌==◌, if◌then◌else◌,
  str_eq,
}
use crypto_edge_ai.Automation.State.{FailureClass, deterministic, transient}

abbrev pub is_upper : ℕ → Bool
is_upper c = leb b'A' c && leb c b'Z'

abbrev pub is_lower : ℕ → Bool
is_lower c = leb b'a' c && leb c b'z'

abbrev pub is_digit : ℕ → Bool
is_digit c = leb b'0' c && leb c b'9'

abbrev pub is_underscore : ℕ → Bool
is_underscore c = c == b'_'

-- `[A-Za-z0-9]` and `[A-Za-z0-9._-]`.
abbrev pub is_alphanumeric : ℕ → Bool
is_alphanumeric c = is_upper c || is_lower c || is_digit c

abbrev pub is_id_char : ℕ → Bool
is_id_char c = is_alphanumeric c || c == b'.' || is_underscore c || c == b'-'

-- `[A-Z0-9_]`.
abbrev pub is_code_char : ℕ → Bool
is_code_char c = is_upper c || is_digit c || is_underscore c

-- At most `room` characters, all of them of the ids'.
unfoldable pub is_id_tail : ℕ → String → Bool
is_id_tail room [] = true
is_id_tail zero (c ∷ s) = false
is_id_tail (suc room) (c ∷ s) = is_id_char (code c) && is_id_tail room s

-- `/^[A-Za-z0-9][A-Za-z0-9._-]{0,127}$/`.
unfoldable pub is_safe_text : String → Bool
unfolding is_id_tail
is_safe_text [] = false
is_safe_text (c ∷ s) = is_alphanumeric (code c) && is_id_tail 127 s

abbrev underscore : Char
underscore = "_"

-- `/^[A-Za-z0-9._-]{1,64}$/`.
unfoldable pub is_id_key : String → Bool
unfolding is_id_tail
is_id_key [] = false
is_id_key (c ∷ s) = is_id_tail 64 (c ∷ s)

-- `replace(/[^A-Z0-9_]+/g, "_")`; the flag tells that the run before was replaced already.
replace_runs : Bool → String → String
replace_runs in_run [] = ""
replace_runs in_run (c ∷ s) =
    let kept = c ∷ replace_runs false s in
    let skipped = replace_runs true s in
    if is_code_char (code c) then kept else if in_run then skipped else underscore ∷ skipped

-- `replace(/^_+|_+$/g, "")`.
strip_leading : String → String
strip_leading [] = ""
strip_leading (c ∷ s) = if is_underscore (code c) then strip_leading s else c ∷ s

abbrev is_empty_text : String → Bool
is_empty_text [] = true
is_empty_text (c ∷ s) = false

strip_trailing : String → String
strip_trailing [] = ""
strip_trailing (c ∷ s) =
    let rest = strip_trailing s in
    if is_empty_text rest && is_underscore (code c) then "" else c ∷ rest

-- `slice(0, n)`.
take_text : ℕ → String → String
take_text zero s = ""
take_text (suc n) [] = ""
take_text (suc n) (c ∷ s) = c ∷ take_text n s

-- What was thrown: an error with a `code`, another `Error` with its message, or anything else.
pub data Thrown : Type 0 where
  coded : String → Thrown
  plain : String → Thrown
  unknown : Thrown

abbrev candidate_code : Thrown → String
candidate_code (coded c) = c
candidate_code (plain message) = message
candidate_code unknown = "AUTOMATION_RUNNER_FAILED"

-- `upper` is `String.prototype.toUpperCase`.
unfoldable pub safe_error_code : (String → String) → Thrown → String
unfolding replace_runs strip_leading strip_trailing take_text
safe_error_code upper error =
    let candidate = upper (candidate_code error) in
    let normalized = take_text 96 (strip_trailing (strip_leading (replace_runs false candidate))) in
    if is_empty_text normalized then "AUTOMATION_RUNNER_FAILED" else normalized

-- The word stands at the front of the text and ends there or before an underscore.
has_word : String → String → Bool
has_word [] [] = true
has_word [] (c ∷ s) = is_underscore (code c)
has_word (w ∷ word) [] = false
has_word (w ∷ word) (c ∷ s) = code w == code c && has_word word s

-- `(?:SCHEMA|CONTRACT|LINEAGE|VERSION|PROVENANCE)(?:_|$)` at the front of the text.
abbrev has_marker : String → Bool
has_marker s =
    has_word "SCHEMA" s
    || has_word "CONTRACT" s
    || has_word "LINEAGE" s
    || has_word "VERSION" s
    || has_word "PROVENANCE" s

-- The same somewhere behind the start or an underscore; the flag tells that the front is such a
-- place.
find_marker : Bool → String → Bool
unfolding has_word
find_marker at_word [] = false
find_marker at_word (c ∷ s) =
    (at_word && has_marker (c ∷ s)) || find_marker (is_underscore (code c)) s

-- `/_METADATA_INVALID$/`.
ends_with : String → String → Bool
ends_with suffix [] = str_eq suffix ""
ends_with suffix (c ∷ s) = str_eq suffix (c ∷ s) || ends_with suffix s

unfoldable pub classify_automation_failure : String → FailureClass
unfolding find_marker ends_with
classify_automation_failure error_code =
    if str_eq error_code "SCANNER_METADATA_INVALID"
      || ends_with "_METADATA_INVALID" error_code
      || find_marker true error_code
    then deterministic
    else transient
