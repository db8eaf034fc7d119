-- ===== src/Prelude/Decimal.antt =====
-- `str` of a Python int: the decimal numeral.
use Prim.Native.Char.{Char, code, nul}
use Prim.Native.String.{◌++◌}
use ragbench_kr_implementati.Prelude.{
  ℕ, zero, suc, ◌+◌, ◌-◌, ◌*◌, ◌/◌, ◌%◌, ◌<◌, ◌≡◌, refl, sym, ap, ◌∙◌, String, arith, ltb,
  if◌then◌else◌, Bool-cases, inl, inr,
}
use ragbench_kr_implementati.Prelude.Int.{ℤ, pos, negsuc}

char_of : String → ℕ → Char
char_of String.[] d = nul
char_of (String.◌∷◌ c s) zero = c
char_of (String.◌∷◌ c s) (suc d) = char_of s d

digit : ℕ → Char
unfolding char_of
digit d = char_of "0123456789" d

code-digit : (d : ℕ) → d < 10 → code (digit d) ≡ 48 + d
unfolding digit
code-digit zero h = refl
code-digit (suc zero) h = refl
code-digit (suc (suc zero)) h = refl
code-digit (suc (suc (suc zero))) h = refl
code-digit (suc (suc (suc (suc zero)))) h = refl
code-digit (suc (suc (suc (suc (suc zero))))) h = refl
code-digit (suc (suc (suc (suc (suc (suc zero)))))) h = refl
code-digit (suc (suc (suc (suc (suc (suc (suc zero))))))) h = refl
code-digit (suc (suc (suc (suc (suc (suc (suc (suc zero)))))))) h = refl
code-digit (suc (suc (suc (suc (suc (suc (suc (suc (suc zero))))))))) h = refl
code-digit (suc (suc (suc (suc (suc (suc (suc (suc (suc (suc d)))))))))) h = absurd (omega arith)

-- The digits of `n` in front of `out`, the last one first. A round for each digit: `n` rounds suffice.
digits : ℕ → ℕ → String → String
digits zero n out = out
digits (suc fuel) n out =
    let shown = String.◌∷◌ (digit (n % 10)) out in
    let rest = digits fuel (n / 10) shown in if ltb n 10 then shown else rest

unfoldable pub show : ℕ → String
unfolding digits digit
show n = digits (suc n) n ""

unfoldable pub show_int : ℤ → String
unfolding show
show_int (pos n) = show n
show_int (negsuc n) = "-" ++ show (suc n)

read : ℕ → String → ℕ
read n String.[] = n
read n (String.◌∷◌ c s) = read (n * 10 + (code c - 48)) s

read-digits : (fuel n : ℕ) (out : String) → n < fuel → read 0 (digits fuel n out) ≡ read n out
unfolding digits read
read-digits zero n out h = absurd (omega arith)
read-digits (suc fuel) n out h = elim (Bool-cases (ltb n 10)) [
  | inl e ↦ rw e (ap (λ (k : ℕ). read k out) (ground (arith, code-digit (n % 10))))
  | inr e ↦ rw e (
      read-digits fuel (n / 10) (String.◌∷◌ (digit (n % 10)) out) (ground arith)
      ∙ ap (λ (k : ℕ). read k out) (omega (arith, code-digit (n % 10))))
]

-- Distinct numbers are shown distinctly.
pub show-injective : (m n : ℕ) → show m ≡ show n → m ≡ n
unfolding show read
show-injective m n e =
    sym (read-digits (suc m) m "" (omega arith))
    ∙ ap (read 0) e
    ∙ read-digits (suc n) n "" (omega arith)

show_two : show 207 ≡ "207"
unfolding show
show_two = refl
