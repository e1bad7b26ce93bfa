-- ===== src/Scheduler/Metadata.antt =====
-- The checks of a request's texts: operation IDs and job metadata. Lengths and ranges are of code
-- points; white space and `\d` are the ASCII ones.
use Prim.Native.Char.{code}
use gpubk.Prelude.{
  ℕ, suc, String, Bool, true, not, Option, none, some, List, [], ◌∷◌, ◌++◌, ltb, leb, ◌==◌, ◌&&◌,
  ◌||◌, if◌then◌else◌, any, length, str_eq,
}
use gpubk.Errors.{
  Result, ok, err, ◌>>=◌, ◌>>◌, raise_if, operation_id_length, operation_id_characters,
  job_incomplete, job_spec_id_invalid, job_digest_invalid, job_aliases_count, job_alias_invalid,
  job_summary_length, job_summary_characters,
}

abbrev pub is_space : ℕ → Bool
is_space c = (leb 9 c && leb c 13) || (leb 28 c && leb c 32)

-- `text.lstrip()`
unfoldable pub lstrip : String → String
lstrip String.[] = ""
lstrip (String.◌∷◌ c s) = let rest = lstrip s in if is_space (code c) then rest else String.◌∷◌ c s

-- A character before a text that is stripped on the right.
abbrev pub keep_unless_space : Bool → String → String → String
keep_unless_space true whole String.[] = ""
keep_unless_space _ whole rest = whole

-- `text.rstrip()`
unfoldable pub rstrip : String → String
rstrip String.[] = ""
rstrip (String.◌∷◌ c s) = keep_unless_space (is_space (code c)) (String.◌∷◌ c (rstrip s)) (rstrip s)

unfoldable pub strip : String → String
unfolding lstrip rstrip
strip text = rstrip (lstrip text)

abbrev pub all_codes : (ℕ → Bool) → String → Bool
all_codes p String.[] = true
all_codes p (String.◌∷◌ c s) = p (code c) && all_codes p s

abbrev pub char_count : String → ℕ
char_count String.[] = 0
char_count (String.◌∷◌ c s) = suc (char_count s)

-- `[A-Za-z0-9._:-]`
abbrev pub is_operation_character : ℕ → Bool
is_operation_character c =
    (leb b'A' c && leb c b'Z')
    || ((leb b'a' c && leb c b'z')
        || ((leb b'0' c && leb c b'9') || (c == b'.' || (c == b'_' || (c == b':' || c == b'-')))))

-- `[0-9a-f]{64}`
abbrev pub is_digest : String → Bool
is_digest text =
    char_count text == 64
    && all_codes (λ c. (leb b'0' c && leb c b'9') || (leb b'a' c && leb c b'f')) text

unfoldable pub normalize_operation_id : Option String → Result (Option String)
unfolding strip
normalize_operation_id none = ok none
normalize_operation_id (some value) =
    let normalized = strip value in
    if char_count normalized == 0 || ltb 128 (char_count normalized)
    then err operation_id_length
    else if all_codes is_operation_character normalized
    then ok (some normalized)
    else err operation_id_characters

-- What the scheduler takes from the interpreter: `str.lower`, `str(uuid.UUID(text))` with `none`
-- for its error, the `uuid.uuid4()` that one write may
-- draw (for the ID of a reservation or notification, and for an operation), and the reading of the
-- clock in its line of the log.
pub record Runtime : Type 0 where
  pub lower : String → String
  pub uuid : String → Option String
  pub fresh_id : String
  pub fresh_op_id : String
  pub logged_at : ℕ

pub record JobIntent : Type 0 where
  pub digest : String
  pub summary : String

pub record JobMetadata : Type 0 where
  pub spec_id : String
  pub intent : JobIntent

-- With both the digest and the summary.
unfoldable pub checked_intent : Runtime → String → String → Result JobIntent
unfolding strip
checked_intent runtime digest summary =
    let normalized_digest = runtime.lower digest in
    let normalized_summary = strip summary in
    if not (is_digest normalized_digest)
    then err job_digest_invalid
    else if char_count normalized_summary == 0 || ltb 200 (char_count normalized_summary)
    then err job_summary_length
    else if all_codes (λ c. leb 32 c) normalized_summary
    then ok (record { digest = normalized_digest; summary = normalized_summary })
    else err job_summary_characters

unfoldable pub normalize_job_intent :
    Runtime → Option String → Option String → Result (Option JobIntent)
unfolding checked_intent
normalize_job_intent runtime none none = ok none
normalize_job_intent runtime (some digest) (some summary) = do
  intent ← checked_intent runtime digest summary
  ok (some intent)
normalize_job_intent runtime _ _ = err job_incomplete

unfoldable pub with_spec_id :
    Option String → Runtime → String → String → Result (Option JobMetadata)
unfolding checked_intent
with_spec_id none runtime digest summary = err job_spec_id_invalid
with_spec_id (some spec_id) runtime digest summary = do
  intent ← checked_intent runtime digest summary
  ok (some (record { spec_id = spec_id; intent = intent }))

unfoldable pub normalize_job_metadata :
    Runtime → Option String → Option String → Option String → Result (Option JobMetadata)
unfolding with_spec_id
normalize_job_metadata runtime none none none = ok none
normalize_job_metadata runtime (some spec_id) (some digest) (some summary) =
    with_spec_id (runtime.uuid spec_id) runtime digest summary
normalize_job_metadata runtime _ _ _ = err job_incomplete

-- The loop of `_normalize_job_digest_aliases`.
unfoldable pub aliases_loop : Runtime → List String → List String → Result (List String)
aliases_loop runtime [] normalized = ok normalized
aliases_loop runtime (value ∷ rest) normalized = do
  let digest = runtime.lower value
  raise_if (not (is_digest digest)) job_alias_invalid
  aliases_loop runtime rest
      (if any (str_eq digest) normalized then normalized else normalized ++ digest ∷ [])

unfoldable pub normalize_job_digest_aliases : Runtime → List String → Result (List String)
unfolding aliases_loop
normalize_job_digest_aliases runtime values = do
  raise_if (ltb 4 (length values)) job_aliases_count
  aliases_loop runtime values []
