-- ===== src/Evaluation/Metrics/Counting.antt =====
-- Counting the members of one list in another.
use ragbench_kr_implementati.Prelude.{
  ℕ, zero, suc, ◌+◌, ◌≡◌, ◌≤◌, refl, true, false, String, List, [], ◌∷◌, length, take, arith,
  Bool-cases, inl, inr, str_eq, eq_iff, if◌then◌else◌,
}
use ragbench_kr_implementati.Prelude.Assoc.{str_key, contains, distinct}
use ragbench_kr_implementati.Evaluation.Metrics.{count_in}

occurs : String → List String → ℕ
occurs id [] = 0
occurs id (x ∷ xs) = let rest = occurs id xs in if str_eq id x then suc rest else rest

-- Membership in a longer list counts at most the new member's occurrences more.
count_in-cons :
    (id : String) (evidence ids : List String)
    → count_in (id ∷ evidence) ids ≤ occurs id ids + count_in evidence ids
unfolding count_in contains occurs
count_in-cons id evidence [] = omega arith
count_in-cons id evidence (x ∷ ids) = ground (arith, count_in-cons id evidence ids)

occurs_absent : (id : String) (ids : List String) → contains id ids ≡ false → occurs id ids ≡ 0
unfolding contains occurs
occurs_absent id [] h = refl
occurs_absent id (x ∷ ids) h = ground (arith, occurs_absent id ids, eq_iff id x, eq_iff x id)

occurs_once : (id : String) (ids : List String) → distinct ids ≡ true → occurs id ids ≤ 1
unfolding distinct occurs
occurs_once id [] h = omega arith
occurs_once id (x ∷ ids) h = elim (Bool-cases (str_eq id x)) [
  | inl e ↦
      let gone : occurs id ids ≡ 0 = rw ((eq_iff id x).0 e) (occurs_absent x ids (ground arith)) in
      rw e (omega (arith, gone))
  | inr e ↦ rw e (occurs_once id ids (ground arith))
]

count_in-nil : (ids : List String) → count_in [] ids ≡ 0
unfolding count_in contains
count_in-nil [] = refl
count_in-nil (x ∷ ids) = count_in-nil ids

-- Distinct ids hit each member of the evidence at most once.
pub count_in-le-length :
    (evidence ids : List String) → distinct ids ≡ true → count_in evidence ids ≤ length evidence
count_in-le-length [] ids d = omega (arith, count_in-nil ids)
count_in-le-length (id ∷ evidence) ids d =
    omega (
      arith,
      count_in-cons id evidence ids,
      occurs_once id ids d,
      count_in-le-length evidence ids d,
    )

contains-take :
    (id : String) (n : ℕ) (ids : List String)
    → contains id ids ≡ false
    → contains id (take n ids) ≡ false
unfolding contains
contains-take id zero ids h = refl
contains-take id (suc n) [] h = refl
contains-take id (suc n) (x ∷ ids) h = ground (arith, contains-take id n ids)

pub distinct-take : (n : ℕ) (ids : List String) → distinct ids ≡ true → distinct (take n ids) ≡ true
unfolding distinct
distinct-take zero ids h = refl
distinct-take (suc n) [] h = refl
distinct-take (suc n) (x ∷ ids) h = ground (arith, distinct-take n ids, contains-take x n ids)

pub count_in-take_le :
    (evidence : List String) (n : ℕ) (ids : List String) → count_in evidence (take n ids) ≤ n
unfolding count_in
count_in-take_le evidence zero ids = omega arith
count_in-take_le evidence (suc n) [] = omega arith
count_in-take_le evidence (suc n) (x ∷ ids) = ground (arith, count_in-take_le evidence n ids)

-- A longer prefix counts at least as much.
pub count_in-take_mono :
    (evidence : List String) (m n : ℕ) (ids : List String)
    → m ≤ n
    → count_in evidence (take m ids) ≤ count_in evidence (take n ids)
unfolding count_in
count_in-take_mono evidence zero n ids h = omega arith
count_in-take_mono evidence (suc m) zero ids h = absurd (omega arith)
count_in-take_mono evidence (suc m) (suc n) [] h = omega arith
count_in-take_mono evidence (suc m) (suc n) (x ∷ ids) h =
    ground (arith, count_in-take_mono evidence m n ids)
