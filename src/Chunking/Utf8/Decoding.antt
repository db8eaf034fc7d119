-- ===== src/Chunking/Utf8/Decoding.antt =====
-- Decoding a text piece by piece is decoding it at once.
use mathlib.Core.Path.{subst}
use mathlib.Core.List.{append_assoc}
use ragbench_kr_implementati.Prelude.{ℕ, ◌≡◌, refl, sym, ap, ◌∙◌, List, [], ◌∷◌, ◌++◌}
use ragbench_kr_implementati.Prelude.Result.{ok, >>=-eq-ok, ok-injective}
use ragbench_kr_implementati.Chunking.Utf8.{Buffer, decode_byte, decode_piece}

-- The buffer and the text of a decoding that succeeds.
abbrev pub Decodes : Buffer → List ℕ → Buffer → List ℕ → Type 0
Decodes s piece t text = decode_piece s piece ≡ ok (t, text)

pub decode_cons :
    (x : ℕ) (xs : List ℕ) (s a t : Buffer) (out more : List ℕ)
    → decode_byte s x ≡ ok (a, out)
    → Decodes a xs t more
    → Decodes s (x ∷ xs) t (out ++ more)
unfolding decode_piece
decode_cons x xs s a t out more e f = rw e (rw f refl)

decode_cons_inv :
    (x : ℕ) (xs : List ℕ) (s t : Buffer) (cs : List ℕ)
    → Decodes s (x ∷ xs) t cs
    → (a : Buffer) × (out : List ℕ) × (more : List ℕ) × (decode_byte s x ≡ ok (a, out))
      × Decodes a xs t more
      × (cs ≡ out ++ more)
unfolding decode_piece
decode_cons_inv x xs s t cs h =
    let (first, e, rest) = >>=-eq-ok (decode_byte s x) _ h in
    let (second, f, done) = >>=-eq-ok (decode_piece first.0 xs) _ rest in
    let same = ok-injective done in
    (
      first.0,
      first.1,
      second.1,
      e,
      f ∙ ap (λ (b : Buffer). ok (b, second.1)) (ap (λ r. r.0) same),
      sym (ap (λ r. r.1) same),
    )

pub decode_nil_inv : (s t : Buffer) (cs : List ℕ) → Decodes s [] t cs → (s ≡ t) × ([] ≡ cs)
unfolding decode_piece
decode_nil_inv s t cs h = let same = ok-injective h in (ap (λ r. r.0) same, ap (λ r. r.1) same)

pub decode_nil : (s : Buffer) → Decodes s [] s []
unfolding decode_piece
decode_nil s = refl

pub Decodes-append :
    (xs ys : List ℕ) (s t u : Buffer) (cs ds : List ℕ)
    → Decodes s xs t cs
    → Decodes t ys u ds
    → Decodes s (xs ++ ys) u (cs ++ ds)
Decodes-append [] ys s t u cs ds h k =
    let (buffer, text) = decode_nil_inv s t cs h in
    subst (λ (b : Buffer). Decodes b ys u (cs ++ ds)) (sym buffer)
      (subst (λ (c : List ℕ). Decodes t ys u (c ++ ds)) text k)
Decodes-append (x ∷ xs) ys s t u cs ds h k =
    let (a, out, more, e, f, split) = decode_cons_inv x xs s t cs h in
    subst (Decodes s (x ∷ xs ++ ys) u)
      (sym (ap (λ (c : List ℕ). c ++ ds) split ∙ append_assoc out more ds))
      (decode_cons x (xs ++ ys) s a u out (more ++ ds) e (Decodes-append xs ys a t u more ds f k))

-- What follows a piece that decodes, decodes to the rest.
pub Decodes-rest :
    (xs ys : List ℕ) (s t u : Buffer) (cs es : List ℕ)
    → Decodes s xs t cs
    → Decodes s (xs ++ ys) u es
    → (ds : List ℕ) × Decodes t ys u ds × (es ≡ cs ++ ds)
Decodes-rest [] ys s t u cs es h k =
    let (buffer, text) = decode_nil_inv s t cs h in
    (es, subst (λ (b : Buffer). Decodes b ys u es) buffer k, ap (λ (c : List ℕ). c ++ es) text)
Decodes-rest (x ∷ xs) ys s t u cs es h k =
    let (a, out, more, e, f, split) = decode_cons_inv x xs s t cs h in
    let (a', out', more', e', f', split') = decode_cons_inv x (xs ++ ys) s u es k in
    let same = ok-injective (sym e' ∙ e) in
    let f'' = subst (λ (b : Buffer). Decodes b (xs ++ ys) u more') (ap (λ r. r.0) same) f' in
    let (ds, rest, tail) = Decodes-rest xs ys a t u more more' f f'' in
    (
      ds,
      rest,
      split'
          ∙ ap (λ (o : List ℕ). o ++ more') (ap (λ r. r.1) same)
          ∙ ap (λ (m : List ℕ). out ++ m) tail
          ∙ sym (append_assoc out more ds)
          ∙ ap (λ (c : List ℕ). c ++ ds) (sym split),
    )

-- A decoding stops between the pieces too.
pub Decodes-split :
    (xs ys : List ℕ) (s u : Buffer) (es : List ℕ)
    → Decodes s (xs ++ ys) u es
    → (t : Buffer) × (cs : List ℕ) × (ds : List ℕ) × Decodes s xs t cs × Decodes t ys u ds
Decodes-split [] ys s u es h = (s, [], es, decode_nil s, h)
Decodes-split (x ∷ xs) ys s u es h =
    let (a, out, more, e, f, split) = decode_cons_inv x (xs ++ ys) s u es h in
    let (t, cs, ds, first, rest) = Decodes-split xs ys a u more f in
    (t, out ++ cs, ds, decode_cons x xs s a t out cs e first, rest)
