-- ===== src/Rag/Serialize.antt =====
-- src/ragbench/rag/context.py `_serialize`, with what it uses of the standard library: `json.dumps`
-- of its payload (ensure_ascii=False, sort_keys=True, separators=(",", ":")) and `str.replace`.
pub mod Sentinels
use Prim.Native.Char.{Char, code}
use Prim.Native.String.{◌++◌}
use ragbench_kr_implementati.Prelude.{
  ℕ, ◌+◌, ◌*◌, ◌/◌, ◌%◌, ◌≡◌, refl, String, List, [], ◌∷◌, map, arith, ltb, ◌==◌, if◌then◌else◌,
}
use ragbench_kr_implementati.Prelude.Int.{pos}
use ragbench_kr_implementati.Prelude.Decimal.{show_int}
use ragbench_kr_implementati.Prelude.Text.{
  join, replace, count_char, count_char-append, count_char-replace, count_char-replace_other,
}
use ragbench_kr_implementati.Rag.{RetrievedChunk}

abbrev hex : ℕ → String
hex d =
    if ltb d 10
    then show_int (pos d)
    else if d == 10
    then "a"
    else if d == 11
    then "b"
    else if d == 12
    then "c"
    else if d == 13
    then "d"
    else if d == 14
    then "e"
    else "f"

-- One character of a JSON string literal.
abbrev pub escape_char : Char → String
escape_char c =
    let n = code c in
    if n == 34
    then "\\\""
    else if n == 92
    then "\\\\"
    else if n == 10
    then "\\n"
    else if n == 13
    then "\\r"
    else if n == 9
    then "\\t"
    else if n == 12
    then "\\f"
    else if n == 8
    then "\\b"
    else if ltb n 32
    then "\\u00" ++ hex (n / 16) ++ hex (n % 16)
    else String.◌∷◌ c ""

unfoldable pub escape : String → String
unfolding show_int
escape String.[] = ""
escape (String.◌∷◌ c s) = escape_char c ++ escape s

abbrev pub json_string : String → String
json_string s = "\"" ++ escape s ++ "\""

abbrev pub json_strings : List String → String
json_strings values = "[" ++ join "," (map json_string values) ++ "]"

-- The payload as JSON, its keys sorted.
unfoldable pub payload_json : {F : Type 0} → RetrievedChunk F → String → String
unfolding escape join show_int
payload_json row citation_id =
    "{\"chunk_id\":"
    ++ json_string row.hit.chunk_id
    ++ ",\"citation_id\":"
    ++ json_string citation_id
    ++ ",\"content\":"
    ++ json_string row.content
    ++ ",\"content_is_untrusted_data\":true"
    ++ ",\"document_id\":"
    ++ json_string row.document_id
    ++ ",\"document_title\":"
    ++ json_string row.document_title
    ++ ",\"page_range\":{\"end\":"
    ++ show_int row.page_end
    ++ ",\"start\":"
    ++ show_int row.page_start
    ++ "}"
    ++ ",\"section\":"
    ++ json_strings row.section_path
    ++ "}"

-- The three `replace` calls.
unfoldable pub escape_markup : String → String
unfolding replace
escape_markup encoded = replace 62 "\\u003e" (replace 60 "\\u003c" (replace 38 "\\u0026" encoded))

unfoldable pub serialize : {F : Type 0} → RetrievedChunk F → String → String
unfolding payload_json escape_markup
serialize row citation_id =
    "<UNTRUSTED_DOCUMENT>\n"
    ++ escape_markup (payload_json row citation_id)
    ++ "\n</UNTRUSTED_DOCUMENT>"
