-- ===== src/Cache/Negative.antt =====
-- The ABI caches with a short life for "not registered": `AbiCache` of indexer/src/abiCache.js and
-- `getAbi` of indexer/src/indexer.js. A value is `none` where the program stores `null`.
use pero_j.Base.{
  ℕ, ◌+◌, ◌*◌, ◌≤◌, ◌≡◌, ◌≢◌, Option, none, some, if◌then◌else◌, ltb, leb, arith, Outcome, returned,
  thrown,
}
use pero_j.Base.Dict.{
  Dict, lookup, insert, erase, IsUnique, lookup-erase_self, lookup-insert_self, lookup-insert_ne,
  insert-IsUnique,
}

pub record Timed (A : Type 0) : Type 0 where
  pub value : Option A
  pub expires_at : ℕ

pub record AbiCache (K A : Type 0) : Type 0 where
  pub ttl_ms : ℕ
  pub not_registered_ttl_ms : ℕ
  pub cache : Dict K (Timed A)

abbrev pub abi_ttl_ms : ℕ
abi_ttl_ms = 60 * 1000

abbrev pub not_registered_ttl : ℕ
not_registered_ttl = 2000

module _ {K A : Type 0} (dec : Discrete K) where
  -- `none` is `undefined`.
  unfoldable pub abi_get : K → ℕ → AbiCache K A → Option (Option A) × AbiCache K A
  abi_get key now c = elim (lookup dec key c.cache) [
    | none ↦ (none, c)
    | some entry ↦
        if leb entry.expires_at now
        then (none, record c { cache = erase dec key c.cache })
        else (some entry.value, c)
  ]

  abbrev life : AbiCache K A → Option A → ℕ
  life c none = c.not_registered_ttl_ms
  life c (some abi) = c.ttl_ms

  unfoldable pub abi_set : K → Option A → ℕ → AbiCache K A → AbiCache K A
  abi_set key value now c =
      let entry : Timed A = record { value = value; expires_at = now + life c value } in
      record c { cache = insert dec key entry c.cache }

  -- A value that has been set is served until its TTL is over, the short one for "not
  -- registered", and to no other key; then it is removed.
  pub abi_get-abi_set :
      (k j : K) (value : Option A) (now now' : ℕ) (c : AbiCache K A)
      → IsUnique dec c.cache
      → ((abi_get k now' (abi_set k value now c)).0
          ≡ (if ltb now' (now + life c value) then some value else none))
        × (j ≢ k → (abi_get j now' (abi_set k value now c)).0 ≡ (abi_get j now' c).0)
        × (now + life c value ≤ now'
            → lookup dec k (abi_get k now' (abi_set k value now c)).1.cache ≡ none)
  unfolding abi_get abi_set
  abi_get-abi_set k j value now now' c u =
      let entry : Timed A = record { value = value; expires_at = now + life c value } in
      let m = insert dec k entry c.cache in
      (
        ground (arith, lookup-insert_self dec k entry c.cache),
        λ p. ground (arith, lookup-insert_ne dec j k entry c.cache p),
        λ late. ground (
          arith,
          lookup-insert_self dec k entry c.cache,
          lookup-erase_self dec k m (insert-IsUnique dec k entry c.cache u),
        ),
      )

  -- The answer in hand, if it has not expired: `cached && cached.expiresAt > now`.
  unfoldable pub in_hand : K → ℕ → Dict K (Timed A) → Option (Option A)
  in_hand contract_id now m = elim (lookup dec contract_id m) [
    | none ↦ none
    | some cached ↦ if ltb now cached.expires_at then some cached.value else none
  ]

  abbrev ttl : Option A → ℕ
  ttl none = not_registered_ttl
  ttl (some abi) = abi_ttl_ms

  -- `reply` is what `fetchAbi` would answer, or throw; it is read only if nothing is in hand.
  unfoldable pub get_abi :
      {E : Type 0}
      → K
      → ℕ
      → Outcome E (Option A)
      → Dict K (Timed A)
      → Outcome E (Option A) × Dict K (Timed A)
  get_abi contract_id now reply m = elim (in_hand contract_id now m) [
    | some abi ↦ (returned abi, m)
    | none ↦ elim reply [
      | thrown x ↦ (thrown x, m)
      | returned abi ↦ (
        returned abi,
        insert dec contract_id (record { value = abi; expires_at = now + ttl abi }) m,
      )
    ]
  ]

  in_hand-insert :
      (k : K) (now : ℕ) (entry : Timed A) (m : Dict K (Timed A))
      → in_hand k now (insert dec k entry m)
        ≡ (if ltb now entry.expires_at then some entry.value else none)
  unfolding in_hand
  in_hand-insert k now entry m = ground (arith, lookup-insert_self dec k entry m)

  -- After an answer was fetched, the same answer is given for its TTL without asking again: 60
  -- seconds for an ABI, 2 seconds for "not registered". From then on the next reply is given. A
  -- fetch that throws is passed on, and leaves the cache as it is.
  pub get_abi_later :
      {E : Type 0} (k : K) (now now' : ℕ) (abi : Option A) (reply : Outcome E (Option A)) (x : E)
      (m : Dict K (Timed A))
      → in_hand k now m ≡ none
      → let (r, m') = get_abi {E = E} k now (returned abi) m in
        (r ≡ returned abi)
        × ((get_abi k now' reply m').0 ≡ (if ltb now' (now + ttl abi) then returned abi else reply))
        × (get_abi k now (thrown x) m ≡ (thrown x, m))
  unfolding get_abi
  get_abi_later k now now' abi reply x m miss =
      let entry : Timed A = record { value = abi; expires_at = now + ttl abi } in
      let again : in_hand k now' (insert dec k entry m)
          ≡ (if ltb now' entry.expires_at then some abi else none) =
        in_hand-insert k now' entry m in
      (ground (arith, miss), ground (arith, miss, again), ground (arith, miss))
