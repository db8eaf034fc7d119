-- ===== src/Evaluation/Identifiers.antt =====
-- src/ragbench/evaluation/judge.py, the grammar of evidence ids and their occurrences in a rationale.
use Prim.Native.Char.{code}
use ragbench_kr_implementati.Prelude.{
  ℕ, suc, Bool, true, false, not, ◌&&◌, ◌||◌, String, List, [], ◌∷◌, if◌then◌else◌, filter_rows,
  str_eq, leb, ◌==◌,
}

abbrev pub is_letter : ℕ → Bool
is_letter c = (leb 65 c && leb c 90) || (leb 97 c && leb c 122)

abbrev pub is_digit : ℕ → Bool
is_digit c = leb 48 c && leb c 57

-- `[A-Za-z0-9]` and `[A-Za-z0-9_-]`
abbrev pub is_alphanumeric : ℕ → Bool
is_alphanumeric c = is_letter c || is_digit c

abbrev pub is_id_character : ℕ → Bool
is_id_character c = is_alphanumeric c || c == 95 || c == 45

unfoldable pub every_character : (ℕ → Bool) → String → Bool
every_character p String.[] = true
every_character p (String.◌∷◌ c s) = p (code c) && every_character p s

unfoldable pub some_character : (ℕ → Bool) → String → Bool
some_character p String.[] = false
some_character p (String.◌∷◌ c s) = p (code c) || some_character p s

abbrev pub first_holds : (ℕ → Bool) → String → Bool
first_holds p String.[] = false
first_holds p (String.◌∷◌ c s) = p (code c)

unfoldable pub count_characters : String → ℕ
count_characters String.[] = 0
count_characters (String.◌∷◌ c s) = suc (count_characters s)

-- `_MACHINE_ID`: an id of at most 128 characters with a letter and a digit.
unfoldable pub is_machine_id : String → Bool
unfolding every_character some_character count_characters
is_machine_id s =
    every_character is_id_character s
    && first_holds is_alphanumeric s
    && some_character is_letter s
    && some_character is_digit s
    && leb (count_characters s) 128

-- The maximal runs of id characters, with the run that the text starts with.
unfoldable pub runs_of : String → String × List String
runs_of String.[] = ("", [])
runs_of (String.◌∷◌ c s) =
    let (run, runs) = runs_of s in
    if is_id_character (code c)
    then (String.◌∷◌ c run, runs)
    else ("", if str_eq run "" then runs else run ∷ runs)

-- `_ASCII_TOKEN.findall`: the runs that begin with a letter or a digit.
unfoldable pub ascii_tokens : String → List String
unfolding runs_of filter_rows
ascii_tokens s =
    let (run, runs) = runs_of s in filter_rows (first_holds is_alphanumeric) (run ∷ runs)

-- `_evidence_like_ids`
unfoldable pub evidence_like_ids : String → List String
unfolding ascii_tokens is_machine_id filter_rows
evidence_like_ids rationale = filter_rows is_machine_id (ascii_tokens rationale)

-- Whether a text starts with an id that no id character follows.
unfoldable pub starts_with_id : String → String → Bool
starts_with_id String.[] rest = not (first_holds is_id_character rest)
starts_with_id (String.◌∷◌ c id) String.[] = false
starts_with_id (String.◌∷◌ c id) (String.◌∷◌ d rest) = (code c == code d) && starts_with_id id rest

-- The search, with whether an id character came before.
unfoldable pub mentions_after : Bool → String → String → Bool
unfolding starts_with_id
mentions_after inside id String.[] = not inside && starts_with_id id ""
mentions_after inside id (String.◌∷◌ c rest) =
    (not inside && starts_with_id id (String.◌∷◌ c rest))
    || mentions_after (is_id_character (code c)) id rest

-- `_rationale_mentions`
unfoldable pub rationale_mentions : String → String → Bool
unfolding mentions_after
rationale_mentions evidence_id rationale = mentions_after false evidence_id rationale
