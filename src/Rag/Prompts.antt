-- ===== src/Rag/Prompts.antt =====
-- src/ragbench/rag/prompts.py. The template files are the parameter `template`.
use Prim.Native.String.{◌++◌, count}
use text.Mathlib.Text.{starts_with}
use ragbench_kr_implementati.Prelude.{ℕ, zero, suc, ◌-◌, ◌==◌, not, ◌||◌, String, if◌then◌else◌}
use ragbench_kr_implementati.Prelude.Text.{is_blank}
use ragbench_kr_implementati.Prelude.Result.{Result, ok, raise_if, value_error, runtime_error, ◌>>◌}
use ragbench_kr_implementati.Rag.Serialize.{json_string, escape, escape_markup}

pub data PromptVersion : Type 0 where
  v1 v2 v3 : PromptVersion

abbrev pub version_value : PromptVersion → String
version_value v1 = "v1"
version_value v2 = "v2"
version_value v3 = "v3"

-- `text.count(old)` and `text.replace(old, new)` of a text that is not empty: from left to right,
-- without overlaps. `skip` characters of an occurrence are still to pass.
unfoldable pub count_text : String → ℕ → String → ℕ
count_text old skip String.[] = 0
count_text old (suc skip) (String.◌∷◌ c s) = count_text old skip s
count_text old zero (String.◌∷◌ c s) =
    let found = starts_with (String.◌∷◌ c s) old in
    let rest = count_text old (if found then count old - 1 else 0) s in
    if found then suc rest else rest

unfoldable pub replace_text : String → String → ℕ → String → String
replace_text old new skip String.[] = ""
replace_text old new (suc skip) (String.◌∷◌ c s) = replace_text old new skip s
replace_text old new zero (String.◌∷◌ c s) =
    let found = starts_with (String.◌∷◌ c s) old in
    let rest = replace_text old new (if found then count old - 1 else 0) s in
    if found then new ++ rest else String.◌∷◌ c rest

-- The rendering of a context's text.
unfoldable pub render_prompt :
    (PromptVersion → String) → PromptVersion → String → String → Result String
unfolding is_blank count_text replace_text escape escape_markup
render_prompt template version question context_text = do
  raise_if (is_blank question) (value_error "question cannot be blank")
  let text = template version
  raise_if
      (not (count_text "{{QUESTION_JSON}}" 0 text == 1)
        || not (count_text "{{CONTEXT}}" 0 text == 1))
      (runtime_error "prompt version has an invalid template contract")
  let question_json = escape_markup (json_string question)
  ok (
      replace_text "{{CONTEXT}}" context_text 0
        (replace_text "{{QUESTION_JSON}}" question_json 0 text))
