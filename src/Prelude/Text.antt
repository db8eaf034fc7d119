-- ===== src/Prelude/Text.antt =====
-- Python's order of strings: lexicographic, by code points.
use Prim.Native.Char.{code}
use Prim.Native.String.{◌++◌}
use text.Mathlib.TextLemmas.{nil-append, cons-append}
use text.Mathlib.TextEquality.{codes_equal}
use text.Mathlib.Text.{◌==◌ as str_eq}
use ragbench_kr_implementati.Prelude.{
  String, ◌≡◌, refl, Bool, true, false, ◌&&◌, ◌||◌, arith, ltb, leb, ◌==◌, ℕ, suc, ◌+◌, List, [],
  ◌∷◌, sum_of, if◌then◌else◌,
}

unfoldable pub str_leb : String → String → Bool
str_leb String.[] t = true
str_leb (String.◌∷◌ c s) String.[] = false
str_leb (String.◌∷◌ c s) (String.◌∷◌ d t) =
    ltb (code c) (code d) || (code c == code d && str_leb s t)

pub str_leb_refl : (s : String) → str_leb s s ≡ true
unfolding str_leb
str_leb_refl String.[] = refl
str_leb_refl (String.◌∷◌ c s) = ground (arith, str_leb_refl s)

pub str_leb_total : (s t : String) → str_leb s t ≡ false → str_leb t s ≡ true
unfolding str_leb
str_leb_total String.[] t h = ground arith
str_leb_total (String.◌∷◌ c s) String.[] h = refl
str_leb_total (String.◌∷◌ c s) (String.◌∷◌ d t) h = ground (arith, str_leb_total s t)

pub str_leb_trans : (s t u : String) → str_leb s t ≡ true → str_leb t u ≡ true → str_leb s u ≡ true
unfolding str_leb
str_leb_trans String.[] t u h k = refl
str_leb_trans (String.◌∷◌ c s) String.[] u h k = ground arith
str_leb_trans (String.◌∷◌ c s) (String.◌∷◌ d t) String.[] h k = ground arith
str_leb_trans (String.◌∷◌ c s) (String.◌∷◌ d t) (String.◌∷◌ e u) h k =
    ground (arith, str_leb_trans s t u)

pub str_leb_antisymm : (s t : String) → str_leb s t ≡ true → str_leb t s ≡ true → s ≡ t
unfolding str_leb
str_leb_antisymm String.[] String.[] h k = refl
str_leb_antisymm String.[] (String.◌∷◌ d t) h k = ground arith
str_leb_antisymm (String.◌∷◌ c s) String.[] h k = ground arith
str_leb_antisymm (String.◌∷◌ c s) (String.◌∷◌ d t) h k =
    let same : c ≡ d = codes_equal c d (ground arith) in
    let rest : s ≡ t = str_leb_antisymm s t (ground arith) (ground arith) in
    λ i. String.◌∷◌ (same i) (rest i)

-- `str.isspace` of one character.
abbrev pub is_space : ℕ → Bool
is_space c =
    (leb 9 c && leb c 13)
    || (leb 28 c && leb c 32)
    || c == 133
    || c == 160
    || c == 5760
    || (leb 8192 c && leb c 8202)
    || c == 8232
    || c == 8233
    || c == 8239
    || c == 8287
    || c == 12288

-- `not value.strip()`.
unfoldable pub is_blank : String → Bool
is_blank String.[] = true
is_blank (String.◌∷◌ c s) = is_space (code c) && is_blank s

-- `text.count(char)` of one character.
unfoldable pub count_char : ℕ → String → ℕ
count_char n String.[] = 0
count_char n (String.◌∷◌ c s) = let rest = count_char n s in if code c == n then suc rest else rest

pub count_char-append :
    (n : ℕ) (s t : String) → count_char n (s ++ t) ≡ count_char n s + count_char n t
unfolding count_char
count_char-append n String.[] t = rw (nil-append t) (omega arith)
count_char-append n (String.◌∷◌ c s) t =
    rw (cons-append c s t) (ground (arith, count_char-append n s t))

-- `text.replace(old, new)` of one character.
unfoldable pub replace : ℕ → String → String → String
replace old new String.[] = ""
replace old new (String.◌∷◌ c s) =
    let rest = replace old new s in if code c == old then new ++ rest else String.◌∷◌ c rest

-- A replacement without the character leaves none, and brings in none of another that it has not.
pub count_char-replace :
    (old : ℕ) (new s : String) → count_char old new ≡ 0 → count_char old (replace old new s) ≡ 0
unfolding replace count_char
count_char-replace old new String.[] h = refl
count_char-replace old new (String.◌∷◌ c s) h =
    ground (arith, count_char-replace old new s h, count_char-append old new (replace old new s))

pub count_char-replace_other :
    (n old : ℕ) (new s : String)
    → count_char n new ≡ 0
    → count_char n s ≡ 0
    → count_char n (replace old new s) ≡ 0
unfolding replace count_char
count_char-replace_other n old new String.[] h k = refl
count_char-replace_other n old new (String.◌∷◌ c s) h k =
    ground
      (arith, count_char-replace_other n old new s h, count_char-append n new (replace old new s))

-- `separator.join(parts)`.
unfoldable pub join : String → List String → String
join separator [] = ""
join separator (part ∷ parts) = elim parts [
  | [] ↦ part
  | _ ∷ _ ↦ part ++ separator ++ join separator parts
]

pub count_char-join :
    (n : ℕ) (separator : String) (parts : List String)
    → count_char n separator ≡ 0
    → count_char n (join separator parts) ≡ sum_of (count_char n) parts
unfolding join count_char
count_char-join n separator [] h = refl
count_char-join n separator (part ∷ []) h = omega arith
count_char-join n separator (part ∷ next ∷ parts) h = omega (
  arith,
  h,
  count_char-append n part (separator ++ join separator (next ∷ parts)),
  count_char-append n separator (join separator (next ∷ parts)),
  count_char-join n separator (next ∷ parts) h,
)

-- `text.strip()`.
unfoldable pub lstrip : String → String
lstrip String.[] = ""
lstrip (String.◌∷◌ c s) = let rest = lstrip s in if is_space (code c) then rest else String.◌∷◌ c s

unfoldable pub rstrip : String → String
rstrip String.[] = ""
rstrip (String.◌∷◌ c s) =
    let rest = rstrip s in if str_eq rest "" && is_space (code c) then "" else String.◌∷◌ c rest

unfoldable pub strip : String → String
unfolding lstrip rstrip
strip s = rstrip (lstrip s)
