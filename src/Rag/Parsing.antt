-- ===== src/Rag/Parsing.antt =====
-- src/ragbench/rag/citations.py `parse_generated_answer`. pydantic's `model_validate_json` of
-- `GeneratedAnswer` is a parameter, `none` where it raises. The pattern
-- \A```(?:json)?\s*\n(?P<body>.*)\n```\s*\Z is matched as `re` does: on a stripped text the last \s*
-- is empty, and the first \s* is greedy, so that the body begins after the last newline of the
-- whitespace that it can take.
use Prim.Native.Char.{Char, code}
use ragbench_kr_implementati.Prelude.{◌==◌, Bool, Option, none, some, String, if◌then◌else◌, str_eq}
use ragbench_kr_implementati.Prelude.Text.{is_space, strip}
use ragbench_kr_implementati.Prelude.Result.{Result, ok, err, generation_schema}
use ragbench_kr_implementati.Rag.{GeneratedAnswer}

-- What follows a prefix, and what stands before a suffix.
unfoldable pub after_prefix : String → String → Option String
after_prefix String.[] s = some s
after_prefix (String.◌∷◌ c prefix) String.[] = none
after_prefix (String.◌∷◌ c prefix) (String.◌∷◌ d s) =
    let rest = after_prefix prefix s in if code c == code d then rest else none

abbrev pub cons? : Char → Option String → Option String
cons? c none = none
cons? c (some s) = some (String.◌∷◌ c s)

unfoldable pub before_suffix : String → String → Option String
before_suffix suffix String.[] = if str_eq "" suffix then some "" else none
before_suffix suffix (String.◌∷◌ c s) =
    let rest = cons? c (before_suffix suffix s) in
    if str_eq (String.◌∷◌ c s) suffix then some "" else rest

-- `(?:json)?`
abbrev pub skip_json : String → Option String → String
skip_json s none = s
skip_json s (some rest) = rest

-- `\s*\n` at the front.
abbrev pub or_here : Bool → String → Option String → Option String
or_here newline s (some body) = some body
or_here newline s none = if newline then some s else none

unfoldable pub after_newline : String → Option String
after_newline String.[] = none
after_newline (String.◌∷◌ c s) =
    let later = or_here (code c == 10) s (after_newline s) in
    if is_space (code c) then later else none

abbrev pub body_before : Option String → Option String
unfolding after_newline
body_before none = none
body_before (some text) = after_newline text

abbrev pub fence_body : Option String → Option String
unfolding body_before before_suffix after_prefix
fence_body none = none
fence_body (some s) = body_before (before_suffix "\n```" (skip_json s (after_prefix "json" s)))

unfoldable pub remove_single_json_fence : String → Option String
unfolding fence_body strip after_prefix
remove_single_json_fence raw = fence_body (after_prefix "```" (strip raw))

module _ (validate_json : String → Option GeneratedAnswer) where
  abbrev pub validated : Option GeneratedAnswer → Result GeneratedAnswer
  validated none = err (generation_schema "GENERATION_SCHEMA_ERROR")
  validated (some answer) = ok answer

  abbrev pub repaired : Option String → Result GeneratedAnswer
  repaired none = err (generation_schema "GENERATION_SCHEMA_ERROR")
  repaired (some text) = validated (validate_json text)

  abbrev pub parsed : String → Option GeneratedAnswer → Result GeneratedAnswer
  unfolding remove_single_json_fence
  parsed raw (some answer) = ok answer
  parsed raw none = repaired (remove_single_json_fence raw)

  unfoldable pub parse_generated_answer : String → Result GeneratedAnswer
  unfolding parsed
  parse_generated_answer raw = parsed raw (validate_json raw)
