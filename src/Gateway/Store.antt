-- ===== src/Gateway/Store.antt =====
-- The response cache in memory: what is put is got back, and what is got is genuine.
use mathlib.Core.Path.{subst}
use ragbench_kr_implementati.Prelude.{
  ◌≡◌, ◌≢◌, refl, sym, false, Option, none, some, String, str_eq, eq_iff, Bool-cases, inl, inr,
  arith,
}
use ragbench_kr_implementati.Prelude.Int.{ℤ}
use ragbench_kr_implementati.Prelude.Assoc.{str_key, lookup, lookup-put, self_key}
use ragbench_kr_implementati.Rag.Service.{Json, object, Fields}
use ragbench_kr_implementati.Gateway.{
  CachedResponse, Entries, is_expired, checked, store_get, store_put,
}

none≢some : {A : Type 0} {a : A} → none ≡ some a → ⊥
none≢some h = cc

some-injective : {A : Type 0} {a b : A} → some a ≡ some b → a ≡ b
some-injective h = cc

module _ (canonical_json_hash : Json → String) where
  -- An entry as `put` writes it.
  abbrev pub written : Fields → CachedResponse
  written response = record {
    response = response;
    response_hash = canonical_json_hash (object response);
    expires_at = none;
  }

  checked-written :
      (now : ℤ) (key : String) (entries : Entries) (response : Fields)
      → checked canonical_json_hash now key entries (some (written response))
        ≡ (some (written response), entries)
  unfolding checked
  checked-written now key entries response =
      rw (self_key (canonical_json_hash (object response))) refl

  other_key : (key other : String) → other ≢ key → str_eq key other ≡ false
  other_key key other h = elim (Bool-cases (str_eq key other)) [
    | inl same ↦ absurd (h (sym ((eq_iff key other).0 same)))
    | inr e ↦ e
  ]

  checked_same :
      (now : ℤ) (key : String) (left right : Entries) (found : Option CachedResponse)
      → (checked canonical_json_hash now key left found).0
        ≡ (checked canonical_json_hash now key right found).0
  unfolding checked
  checked_same now key left right none = refl
  checked_same now key left right (some cached) = ground arith

  genuine :
      (now : ℤ) (key : String) (entries : Entries) (found : Option CachedResponse)
      (cached : CachedResponse)
      → (checked canonical_json_hash now key entries found).0 ≡ some cached
      → (found ≡ some cached)
        × (is_expired now cached.expires_at ≡ false)
        × (cached.response_hash ≡ canonical_json_hash (object cached.response))
  unfolding checked
  genuine now key entries none cached h = absurd (cc)
  genuine now key entries (some stored) cached h =
      let Found = λ (c : CachedResponse).
        (◌≡◌ {A = Option CachedResponse} (some stored) (some c))
        × (is_expired now c.expires_at ≡ false)
        × (c.response_hash ≡ canonical_json_hash (object c.response)) in
      elim (Bool-cases (is_expired now stored.expires_at)) [
        | inl late ↦ absurd (none≢some (rw late at h))
        | inr fresh ↦
            elim (Bool-cases
              (str_eq stored.response_hash (canonical_json_hash (object stored.response)))) [
                | inl same ↦
                    subst Found (some-injective (rw same at (rw fresh at h)))
                      (refl, fresh, (eq_iff _ _).0 same)
                | inr differs ↦ absurd (none≢some (rw differs at (rw fresh at h)))
              ]
      ]

  -- A response that is put under a key is got back under it at any time, and other keys are got as before; what a
  -- get returns is the entry of its key, has not expired, and has the hash of its response.
  pub store_get-store_put :
      (now : ℤ) (key : String) (response : Fields) (entries : Entries)
      → let after = store_put canonical_json_hash key response entries in
        (store_get canonical_json_hash now key after ≡ (some (written response), after))
        × ((other : String)
            → other ≢ key
            → (store_get canonical_json_hash now other after).0
              ≡ (store_get canonical_json_hash now other entries).0)
        × ((cached : CachedResponse)
            → (store_get canonical_json_hash now key entries).0 ≡ some cached
            → (lookup key entries ≡ some cached)
              × (is_expired now cached.expires_at ≡ false)
              × (cached.response_hash ≡ canonical_json_hash (object cached.response)))
  unfolding store_get store_put
  store_get-store_put now key response entries =
      let after = store_put canonical_json_hash key response entries in
      (
        rw lookup-put (rw (self_key key) (checked-written now key after response)),
        λ other different. rw lookup-put (
            rw (other_key key other different)
              (checked_same now other _ entries (lookup other entries))),
        λ cached h. genuine now key entries (lookup key entries) cached h,
      )
