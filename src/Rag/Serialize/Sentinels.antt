-- ===== src/Rag/Serialize/Sentinels.antt =====
-- The sentinels of a serialized record cannot be forged by its content.
use Prim.Native.String.{◌++◌}
use ragbench_kr_implementati.Prelude.{◌≡◌, refl, String, arith}
use ragbench_kr_implementati.Prelude.Text.{
  replace, count_char, count_char-append, count_char-replace, count_char-replace_other,
}
use ragbench_kr_implementati.Rag.{RetrievedChunk}
use ragbench_kr_implementati.Rag.Serialize.{payload_json, escape_markup, serialize}

markup_free :
    (s : String) → (count_char 60 (escape_markup s) ≡ 0) × (count_char 62 (escape_markup s) ≡ 0)
unfolding escape_markup count_char
markup_free s =
    let ampersands = replace 38 "\\u0026" s in
    let opened = replace 60 "\\u003c" ampersands in
    (
      count_char-replace_other 60 62 "\\u003e" opened refl
          (count_char-replace 60 "\\u003c" ampersands refl),
      count_char-replace 62 "\\u003e" opened refl,
    )

-- Of the markup characters only those of the two sentinels stand in a record.
pub serialize_markup :
    {F : Type 0} (row : RetrievedChunk F) (citation_id : String)
    → (count_char 60 (serialize row citation_id) ≡ 2)
      × (count_char 62 (serialize row citation_id) ≡ 2)
unfolding serialize count_char
serialize_markup row citation_id =
    let encoded = escape_markup (payload_json row citation_id) in
    let (no_open, no_close) = markup_free (payload_json row citation_id) in
    (
      omega (
        arith,
        no_open,
        count_char-append 60 "<UNTRUSTED_DOCUMENT>\n" (encoded ++ "\n</UNTRUSTED_DOCUMENT>"),
        count_char-append 60 encoded "\n</UNTRUSTED_DOCUMENT>",
      ),
      omega (
        arith,
        no_close,
        count_char-append 62 "<UNTRUSTED_DOCUMENT>\n" (encoded ++ "\n</UNTRUSTED_DOCUMENT>"),
        count_char-append 62 encoded "\n</UNTRUSTED_DOCUMENT>",
      ),
    )
