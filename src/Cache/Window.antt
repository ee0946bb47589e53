-- ===== src/Cache/Window.antt =====
-- `AbiLruCache` (indexer/src/cache.js) stays within its size, and what it drops is the least
-- recently used.
use native.Mathlib.Nat.{zero-sub}
use pero_j.Base.{
  ℕ, suc, ◌+◌, ◌-◌, ◌≤◌, ◌≡◌, refl, sym, ap, none, some, [], ◌∷◌, ◌++◌, if◌then◌else◌, ltb, length,
  arith, drop, length-drop, inl, inr, Option-cases, Bool-cases, length-append, subst,
}
use pero_j.Base.Dict.{
  Dict, lookup, has, insert, erase, IsUnique, lookup-erase_self, erase-IsUnique, insert-IsUnique,
  insert_absent, erase_absent, drop-IsUnique, length-erase,
}
use pero_j.Cache.{Entry, Lru, get, trim, set, evict, clear}

module _ {K V : Type 0} (dec : Discrete K) where
  pub record IsValid (c : Lru K V) : Type 0 where
    pub unique : IsUnique dec c.store
    pub bounded : length c.store ≤ c.max_entries

  -- The store with the key as its most recent entry.
  abbrev pub refreshed : K → Entry V → Dict K (Entry V) → Dict K (Entry V)
  refreshed k e s = erase dec k s ++ (k, e) ∷ []

  pub refreshed_lem :
      (k : K) (e : Entry V) (s : Dict K (Entry V))
      → IsUnique dec s
      → insert dec k e (erase dec k s) ≡ refreshed k e s
  refreshed_lem k e s u = insert_absent dec k e (erase dec k s) (lookup-erase_self dec k s u)

  pub refreshed-IsUnique :
      (k : K) (e : Entry V) (s : Dict K (Entry V)) → IsUnique dec s → IsUnique dec (refreshed k e s)
  refreshed-IsUnique k e s u =
      subst (IsUnique dec) (refreshed_lem k e s u)
        (insert-IsUnique dec k e (erase dec k s) (erase-IsUnique dec k s u))

  kept_lem :
      (k : K) (s : Dict K (Entry V)) → (if has dec k s then erase dec k s else s) ≡ erase dec k s
  kept_lem k s = elim (Option-cases (lookup dec k s)) [
    | inl absent ↦ rw absent (sym (erase_absent dec k s absent))
    | inr (e, found) ↦ rw found
  ]

trim-drop : {K V : Type 0} (max : ℕ) (s : Dict K (Entry V)) → trim max s ≡ drop (length s - max) s
unfolding trim
trim-drop max [] = rw (zero-sub max)
trim-drop max (e ∷ s) = elim (Bool-cases (ltb max (suc (length s)))) [
  | inl over ↦
      let n : suc (length s) - max ≡ suc (length s - max) = ground arith in
      rw over (rw n (trim-drop max s))
  | inr fits ↦ let n : suc (length s) - max ≡ 0 = ground arith in rw fits (rw n)
]

module _ {K V : Type 0} (dec : Discrete K) where
  -- A `set` puts the key behind all others and drops entries from the front, which are the least
  -- recently used, until no more than `max_entries` are left: it keeps the last `max_entries`.
  pub set-drop :
      (k : K) (v : V) (now : ℕ) (c : Lru K V)
      → IsUnique dec c.store
      → let s = refreshed dec k (record { value = v; cached_at = now }) c.store in
        (set dec k v now c).store ≡ drop (length s - c.max_entries) s
  unfolding set
  set-drop k v now c u =
      rw (kept_lem dec k c.store) (rw (refreshed_lem dec k _ c.store u) (trim-drop c.max_entries _))

  set-max_entries :
      (k : K) (v : V) (now : ℕ) (c : Lru K V) → (set dec k v now c).max_entries ≡ c.max_entries
  unfolding set
  set-max_entries k v now c = refl

  pub set-IsValid :
      (k : K) (v : V) (now : ℕ) (c : Lru K V) → IsValid dec c → IsValid dec (set dec k v now c)
  set-IsValid k v now c h =
      let s = refreshed dec k (record { value = v; cached_at = now }) c.store in
      let kept = set-drop k v now c h.unique in
      record {
        unique =
            subst (IsUnique dec) (sym kept)
              (drop-IsUnique dec _ s (refreshed-IsUnique dec k _ c.store h.unique));
        bounded = omega (
          arith,
          ap length kept,
          length-drop (length s - c.max_entries) s,
          set-max_entries k v now c,
        );
      }

  -- A hit moves the entry behind all others, with the time it was stored; an entry that has
  -- expired is removed, and so is nothing else.
  pub get_lem :
      (k : K) (now : ℕ) (c : Lru K V)
      → IsUnique dec c.store
      → get dec k now c ≡ elim (lookup dec k c.store) [
        | none ↦ (none, c)
        | some e ↦
            if ltb now (e.cached_at + c.ttl_ms)
            then (some e.value, record c { store = refreshed dec k e c.store })
            else (none, record c { store = erase dec k c.store })
      ]
  unfolding get
  get_lem k now c u = elim (Option-cases (lookup dec k c.store)) [
    | inl absent ↦ ground arith
    | inr (e, found) ↦ ground (arith, refreshed_lem dec k e c.store u)
  ]

  length-erase-le : (k : K) (s : Dict K (Entry V)) → length (erase dec k s) ≤ length s
  length-erase-le k s = elim (Option-cases (lookup dec k s)) [
    | inl absent ↦ rw (erase_absent dec k s absent) (omega arith)
    | inr (e, found) ↦ omega (arith, length-erase dec k s e found)
  ]

  length-refreshed :
      (k : K) (e : Entry V) (s : Dict K (Entry V))
      → lookup dec k s ≡ some e
      → length (refreshed dec k e s) ≡ length s
  length-refreshed k e s found =
      omega (arith, length-append (erase dec k s) ((k, e) ∷ []), length-erase dec k s e found)

  erased-IsValid :
      (k : K) (c : Lru K V) → IsValid dec c → IsValid dec (record c { store = erase dec k c.store })
  erased-IsValid k c h = record {
    unique = erase-IsUnique dec k c.store h.unique;
    bounded = omega (arith, length-erase-le k c.store, h.bounded);
  }

  refreshed-IsValid :
      (k : K) (e : Entry V) (c : Lru K V)
      → lookup dec k c.store ≡ some e
      → IsValid dec c
      → IsValid dec (record c { store = refreshed dec k e c.store })
  refreshed-IsValid k e c found h = record {
    unique = refreshed-IsUnique dec k e c.store h.unique;
    bounded = omega (arith, length-refreshed k e c.store found, h.bounded);
  }

  pub get-IsValid :
      (k : K) (now : ℕ) (c : Lru K V) → IsValid dec c → IsValid dec (get dec k now c).1
  get-IsValid k now c h = elim (Option-cases (lookup dec k c.store)) [
    | inl absent ↦ rw (get_lem k now c h.unique) (rw absent h)
    | inr (e, found) ↦ elim (Bool-cases (ltb now (e.cached_at + c.ttl_ms))) [
      | inl fresh ↦
          rw (get_lem k now c h.unique) (rw found (rw fresh (refreshed-IsValid k e c found h)))
      | inr expired ↦ rw (get_lem k now c h.unique) (rw found (rw expired (erased-IsValid k c h)))
    ]
  ]

  pub evict-IsValid : (k : K) (c : Lru K V) → IsValid dec c → IsValid dec (evict dec k c).1
  unfolding evict
  evict-IsValid k c h = erased-IsValid k c h

  pub clear-IsValid : (c : Lru K V) → IsValid dec (clear c)
  unfolding clear
  clear-IsValid c = record { unique = tt; bounded = omega arith }

  pub empty-IsValid : (c : Lru K V) → c.store ≡ [] → IsValid dec c
  empty-IsValid c h = record { unique = rw h tt; bounded = rw h (omega arith) }
