-- ===== src/Rag/Citations/Resolution.antt =====
-- Citations resolve to included items only, and always to those.
use mathlib.Core.Path.{subst, ap₂}
use mathlib.Core.List.{Mem}
use ragbench_kr_implementati.Prelude.{
  ◌≡◌, refl, sym, ◌∙◌, ◌⊎◌, true, not, not-false, Option, none, some, String, List, [], ◌∷◌, map,
  All, All-map, Bool-cases, inl, inr, str_eq, eq_iff,
}
use ragbench_kr_implementati.Prelude.Result.{ok, raise_if-eq-ok, >>=-eq-ok, ok-injective}
use ragbench_kr_implementati.Prelude.Assoc.{str_key, contains, distinct, lookup, put, lookup-put}
use ragbench_kr_implementati.Prelude.Lookup.{All-of_Mem}
use ragbench_kr_implementati.Rag.{ContextItem, ContextBundle, ResolvedCitation}
use ragbench_kr_implementati.Rag.Citations.{
  allow, resolved, resolve_item, resolve_each, resolve_citations,
}

module _ {F : Type 0} (P : ContextItem F → Type 0) where
  -- An entry of the allowlist.
  abbrev IsAllowed : String × ContextItem F → Type 0
  IsAllowed entry = (entry.0 ≡ entry.1.citation_id) × P entry.1

  put-IsAllowed :
      (item : ContextItem F) (allowed : List (String × ContextItem F))
      → P item
      → All IsAllowed allowed
      → All IsAllowed (put item.citation_id item allowed)
  unfolding put
  put-IsAllowed item [] p h = ((refl, p), tt)
  put-IsAllowed item ((id, other) ∷ allowed) p h = elim (Bool-cases (str_eq id item.citation_id)) [
    | inl e ↦ rw e (((eq_iff id item.citation_id).0 e, p), h.1)
    | inr e ↦ rw e (h.0, put-IsAllowed item allowed p h.1)
  ]

  allow-IsAllowed :
      (allowed : List (String × ContextItem F)) (items : List (ContextItem F))
      → All P items
      → All IsAllowed allowed
      → All IsAllowed (allow allowed items)
  unfolding allow
  allow-IsAllowed allowed [] all_items h = h
  allow-IsAllowed allowed (item ∷ items) all_items h =
      allow-IsAllowed (put item.citation_id item allowed) items all_items.1
        (put-IsAllowed item allowed all_items.0 h)

  -- What stands behind a citation.
  abbrev pub IsBacked : ResolvedCitation → Type 0
  IsBacked citation = (item : ContextItem F) × P item × (citation ≡ resolved item)

  lookup-IsAllowed :
      (id : String) (item : ContextItem F) (allowed : List (String × ContextItem F))
      → All IsAllowed allowed
      → lookup id allowed ≡ some item
      → P item × (item.citation_id ≡ id)
  unfolding lookup
  lookup-IsAllowed id item [] h found = absurd (cc)
  lookup-IsAllowed id item ((key, other) ∷ allowed) h found = elim (Bool-cases (str_eq key id)) [
    | inl e ↦
        let here : some other ≡ some item = rw e at found in
        let same : other ≡ item = cc in
        subst (λ (i : ContextItem F). P i × (i.citation_id ≡ id)) same
          (h.0.1, sym h.0.0 ∙ (eq_iff key id).0 e)
    | inr e ↦ lookup-IsAllowed id item allowed h.1 (rw e at found)
  ]

  resolve_item-IsBacked :
      (id : String) (allowed : List (String × ContextItem F)) (found : Option (ContextItem F))
      (citation : ResolvedCitation)
      → All IsAllowed allowed
      → lookup id allowed ≡ found
      → resolve_item found ≡ ok citation
      → IsBacked citation × (citation.citation_id ≡ id)
  resolve_item-IsBacked id allowed none citation h e r = absurd (cc)
  resolve_item-IsBacked id allowed (some item) citation h e r =
      let (p, same) = lookup-IsAllowed id item allowed h e in
      subst (λ (c : ResolvedCitation). IsBacked c × (c.citation_id ≡ id)) (ok-injective r)
        ((item, p, refl), same)

  resolve_each-IsBacked :
      (allowed : List (String × ContextItem F)) (ids : List String) (out : List ResolvedCitation)
      → All IsAllowed allowed
      → resolve_each allowed ids ≡ ok out
      → All IsBacked out × (map (λ citation. citation.citation_id) out ≡ ids)
  unfolding resolve_each
  resolve_each-IsBacked allowed [] out h r =
      subst
        (λ (cs : List ResolvedCitation).
          All IsBacked cs × (map (λ citation. citation.citation_id) cs ≡ []))
        (ok-injective r) (tt, refl)
  resolve_each-IsBacked allowed (id ∷ ids) out h r =
      let (citation, first, r₁) = >>=-eq-ok (resolve_item (lookup id allowed)) _ r in
      let (rest, others, r₂) = >>=-eq-ok (resolve_each allowed ids) _ r₁ in
      let (backed, same) = resolve_item-IsBacked id allowed _ citation h refl first in
      let (all_backed, same_ids) = resolve_each-IsBacked allowed ids rest h others in
      subst
        (λ (cs : List ResolvedCitation).
          All IsBacked cs × (map (λ citation. citation.citation_id) cs ≡ id ∷ ids))
        (ok-injective r₂)
        ((backed, all_backed), ap₂ (λ (x : String) (xs : List String). x ∷ xs) same same_ids)

module _ {F : Type 0} where
  -- Citation ids that resolve are distinct, and each citation is that of an included item with its id.
  pub resolve_citations_sound :
      (citation_ids : List String) (context : ContextBundle F) (out : List ResolvedCitation)
      → resolve_citations citation_ids context ≡ ok out
      → (distinct citation_ids ≡ true)
        × (map (λ citation. citation.citation_id) out ≡ citation_ids)
        × All (IsBacked (λ item. Mem item context.items)) out
  unfolding resolve_citations
  resolve_citations_sound citation_ids context out returned =
      let (once, r) = raise_if-eq-ok (not (distinct citation_ids)) _ _ returned in
      let P = λ (item : ContextItem F). Mem item context.items in
      let (backed, same) =
        resolve_each-IsBacked P (allow [] context.items) citation_ids out
          (allow-IsAllowed P [] context.items (All-of_Mem context.items (λ item m. m)) tt) r in
      (not-false _ once, same, backed)

  abbrev IsFound : String → List (String × ContextItem F) → Type 0
  IsFound id allowed = (item : ContextItem F) × (lookup id allowed ≡ some item)

  put-IsFound :
      (id : String) (item : ContextItem F) (allowed : List (String × ContextItem F))
      → (str_eq item.citation_id id ≡ true) ⊎ IsFound id allowed
      → IsFound id (put item.citation_id item allowed)
  put-IsFound id item allowed h = elim (Bool-cases (str_eq item.citation_id id)) [
    | inl e ↦ (item, lookup-put item.citation_id id item allowed ∙ (rw e refl))
    | inr e ↦ elim h [
      | inl same ↦ absurd (cc)
      | inr (other, found) ↦ (other, lookup-put item.citation_id id item allowed ∙ (rw e found))
    ]
  ]

  allow-IsFound :
      (id : String) (allowed : List (String × ContextItem F)) (items : List (ContextItem F))
      → (contains id (map (λ item. item.citation_id) items) ≡ true) ⊎ IsFound id allowed
      → IsFound id (allow allowed items)
  unfolding allow contains
  allow-IsFound id allowed [] (inl h) = absurd (cc)
  allow-IsFound id allowed [] (inr found) = found
  allow-IsFound id allowed (item ∷ items) (inr found) =
      allow-IsFound id (put item.citation_id item allowed) items
        (inr (put-IsFound id item allowed (inr found)))
  allow-IsFound id allowed (item ∷ items) (inl h) =
      allow-IsFound id (put item.citation_id item allowed) items
        (elim (Bool-cases (str_eq item.citation_id id)) [
          | inl e ↦ inr (put-IsFound id item allowed (inl e))
          | inr e ↦ inl (rw e at h)
        ])

  resolve_each_returns :
      (allowed : List (String × ContextItem F)) (ids : List String)
      → All (λ id. IsFound id allowed) ids
      → (out : List ResolvedCitation) × (resolve_each allowed ids ≡ ok out)
  unfolding resolve_each
  resolve_each_returns allowed [] h = ([], refl)
  resolve_each_returns allowed (id ∷ ids) ((item, found), h) =
      let (out, others) = resolve_each_returns allowed ids h in
      (resolved item ∷ out, rw (found, others) refl)

  -- Distinct ids of included items resolve.
  pub resolve_citations_returns :
      (citation_ids : List String) (context : ContextBundle F)
      → distinct citation_ids ≡ true
      → All (λ id. contains id (map (λ item. item.citation_id) context.items) ≡ true) citation_ids
      → (out : List ResolvedCitation) × (resolve_citations citation_ids context ≡ ok out)
  unfolding resolve_citations
  resolve_citations_returns citation_ids context once included =
      let (out, each) =
        resolve_each_returns (allow [] context.items) citation_ids
          (All-map (λ id h. allow-IsFound id [] context.items (inl h)) citation_ids included) in
      (out, rw once each)
