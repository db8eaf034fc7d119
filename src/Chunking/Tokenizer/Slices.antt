-- ===== src/Chunking/Tokenizer/Slices.antt =====
-- The text between two safe token boundaries.
use mathlib.Core.Path.{subst}
use mathlib.Core.List.{append_assoc}
use ragbench_kr_implementati.Prelude.{
  ℕ, zero, suc, ◌-◌, ◌≤◌, ◌≡◌, refl, sym, ap, ◌∙◌, List, [], ◌∷◌, ◌++◌, some, arith, length, take,
  drop, length-append,
}
use ragbench_kr_implementati.Prelude.Result.{ok}
use ragbench_kr_implementati.Prelude.Assoc.{nat_key}
use ragbench_kr_implementati.Chunking.Utf8.{clean, decode_text}
use ragbench_kr_implementati.Chunking.Utf8.Decoding.{Decodes, Decodes-rest}
use ragbench_kr_implementati.Chunking.Tokenizer.{get_elem?, concat, cut}
use ragbench_kr_implementati.Chunking.Tokenizer.Safety.{IsSafe}

-- The text between two character positions.
abbrev pub slice : List ℕ → ℕ → ℕ → List ℕ
slice text start end = take (end - start) (drop start text)

drop_front : (xs ys : List ℕ) → drop (length xs) (xs ++ ys) ≡ ys
drop_front [] ys = refl
drop_front (x ∷ xs) ys = drop_front xs ys

take_front : (xs ys : List ℕ) → take (length xs) (xs ++ ys) ≡ xs
take_front [] ys = refl
take_front (x ∷ xs) ys = ap (λ (r : List ℕ). x ∷ r) (take_front xs ys)

-- The middle of three parts.
slice_middle :
    (whole xs ys zs : List ℕ) (start end : ℕ)
    → whole ≡ (xs ++ ys) ++ zs
    → start ≡ length xs
    → end ≡ length (xs ++ ys)
    → slice whole start end ≡ ys
slice_middle whole xs ys zs start end e f g =
    let rest =
      ap (drop start) (e ∙ append_assoc xs ys zs)
      ∙ ap (λ (n : ℕ). drop n (xs ++ (ys ++ zs))) f
      ∙ drop_front xs (ys ++ zs) in
    let size : end - start ≡ length ys = omega (arith, length-append {0} xs ys) in
    ap (take (end - start)) rest ∙ ap (λ (n : ℕ). take n (ys ++ zs)) size ∙ take_front ys zs

concat-append : (xs ys : List (List ℕ)) → concat (xs ++ ys) ≡ concat xs ++ concat ys
concat-append [] ys = refl
concat-append (x ∷ xs) ys =
    ap (λ (r : List ℕ). x ++ r) (concat-append xs ys) ∙ sym (append_assoc x (concat xs) (concat ys))

concat-take-drop :
    (n : ℕ) (pieces : List (List ℕ))
    → concat pieces ≡ concat (take n pieces) ++ concat (drop n pieces)
concat-take-drop zero pieces = refl
concat-take-drop (suc n) [] = refl
concat-take-drop (suc n) (piece ∷ pieces) =
    ap (λ (r : List ℕ). piece ++ r) (concat-take-drop n pieces)
    ∙ sym (append_assoc piece (concat (take n pieces)) (concat (drop n pieces)))

take_further :
    (a b : ℕ) (pieces : List (List ℕ))
    → a ≤ b
    → (mid : List ℕ) × (concat (take b pieces) ≡ concat (take a pieces) ++ mid)
take_further zero b pieces h = (concat (take b pieces), refl)
take_further (suc a) zero pieces h = absurd (omega arith)
take_further (suc a) (suc b) [] h = ([], refl)
take_further (suc a) (suc b) (piece ∷ pieces) h =
    let (mid, e) = take_further a b pieces (omega arith) in
    (mid, ap (λ (r : List ℕ). piece ++ r) e ∙ sym (append_assoc piece (concat (take a pieces)) mid))

Decodes-decode_text :
    (piece text : List ℕ) → Decodes clean piece clean text → decode_text piece ≡ ok text
unfolding decode_text
Decodes-decode_text piece text d = rw d refl

cut_between :
    (payload offsets : List ℕ) (start end first last : ℕ) (content : List ℕ)
    → get_elem? offsets start ≡ some first
    → get_elem? offsets end ≡ some last
    → decode_text (slice payload first last) ≡ ok content
    → cut payload offsets start end ≡ ok content
unfolding cut
cut_between payload offsets start end first last content e f g = rw (e, cut) (rw f g)

-- The bytes between two safe positions decode to the characters between them.
pub cut-ok :
    (pieces : List (List ℕ)) (offsets text : List ℕ) (safe : List (ℕ × ℕ)) (start end : ℕ)
    → Decodes clean (concat pieces) clean text
    → (a : IsSafe pieces offsets safe start) → (b : IsSafe pieces offsets safe end) → start ≤ end
    → (content : List ℕ) × (cut (concat pieces) offsets start end ≡ ok content)
      × (content ≡ slice text a.1 b.1)
      × (a.1 ≤ b.1)
      × (b.1 ≤ length text)
cut-ok pieces offsets text safe start end d (_, from, _, first, (before, da, ca))
      (_, to, _, last, (upto, db, cb)) le =
    let front = concat (take start pieces) in
    let tail = concat (drop end pieces) in
    let (mid, e) = take_further start end pieces le in
    let whole : concat pieces ≡ (front ++ mid) ++ tail =
      concat-take-drop end pieces ∙ ap (λ (p : List ℕ). p ++ tail) e in
    let (content, dm, split) =
      Decodes-rest front mid clean clean clean before upto da
        (subst (λ (p : List ℕ). Decodes clean p clean upto) e db) in
    let (after, _, rest) =
      Decodes-rest (concat (take end pieces)) tail clean clean clean upto text db
        (subst (λ (p : List ℕ). Decodes clean p clean text) (concat-take-drop end pieces) d) in
    let sliced =
      slice_middle (concat pieces) front mid tail (length front) (length (concat (take end pieces)))
        whole refl (ap length e) in
    let parts : text ≡ (before ++ content) ++ after =
      rest ∙ ap (λ (c : List ℕ). c ++ after) split in
    (
      content,
      cut_between (concat pieces) offsets start end (length front)
          (length (concat (take end pieces))) content first last
          (ap decode_text sliced ∙ Decodes-decode_text mid content dm),
      sym (slice_middle text before content after from to parts ca (cb ∙ ap length split)),
      omega (arith, ca, cb, ap length split, length-append {0} before content),
      omega (arith, cb, ap length rest, length-append {0} upto after),
    )
