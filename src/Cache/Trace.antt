-- ===== src/Cache/Trace.antt =====
-- `AbiLruCache` (indexer/src/cache.js) over a whole run: a hit is the last value that was stored,
-- and not older than the TTL.
use pero_j.Base.{
  ℕ, ◌+◌, ◌-◌, ◌≤◌, ◌<◌, ◌≡◌, ◌≢◌, refl, sym, ◌∙◌, Option, none, some, List, [], ◌∷◌, ltb, length,
  arith, inl, inr, Option-cases, Bool-cases, subst, ite, ◌⊎◌,
}
use pero_j.Base.Dict.{
  Dict, lookup, insert, erase, IsUnique, lookup-erase_self, lookup-erase_ne, lookup-insert_self,
  lookup-insert_ne, lookup-drop,
}
use pero_j.Cache.{Entry, Lru, get, set, evict, clear}
use pero_j.Cache.Window.{
  IsValid, refreshed, refreshed_lem, refreshed-IsUnique, set-drop, get_lem, get-IsValid,
  set-IsValid, evict-IsValid, clear-IsValid, empty-IsValid,
}

-- A method call; a `set` and a `get` read the clock.
pub data Op (K V : Type 0) : Type 0 where
  get_at : K → ℕ → Op K V
  set_at : K → V → ℕ → Op K V
  evict_now : K → Op K V
  clear_now : Op K V

module _ {K V : Type 0} (dec : Discrete K) where
  unfoldable pub step : Op K V → Lru K V → Lru K V
  step (get_at k now) c = (get dec k now c).1
  step (set_at k v now) c = set dec k v now c
  step (evict_now k) c = (evict dec k c).1
  step clear_now c = clear c

  -- The cache after some calls, the latest first.
  unfoldable pub after : List (Op K V) → Lru K V → Lru K V
  after [] c = c
  after (op ∷ ops) c = step op (after ops c)

  -- What was stored last under a key and not evicted since, and when.
  unfoldable pub last_write : List (Op K V) → K → Option (V × ℕ)
  last_write [] k = none
  last_write (get_at j now ∷ ops) k = last_write ops k
  last_write (set_at j v now ∷ ops) k = ite (dec k j) (some (v, now)) (last_write ops k)
  last_write (evict_now j ∷ ops) k = ite (dec k j) none (last_write ops k)
  last_write (clear_now ∷ ops) k = none

  -- Every entry is the last write of its key.
  abbrev IsCoherent : List (Op K V) → Dict K (Entry V) → Type 0
  IsCoherent ops s =
      (k : K) (e : Entry V)
      → lookup dec k s ≡ some e
      → last_write ops k ≡ some (e.value, e.cached_at)

  lookup-refreshed :
      (j k : K) (e f : Entry V) (s : Dict K (Entry V))
      → IsUnique dec s
      → lookup dec j (refreshed dec k e s) ≡ some f
      → ((j ≡ k) × (f ≡ e)) ⊎ ((j ≢ k) × (lookup dec j s ≡ some f))
  lookup-refreshed j k e f s u h =
      let h' : lookup dec j (insert dec k e (erase dec k s)) ≡ some f =
        rw (refreshed_lem dec k e s u) h in
      elim (dec j k) [
        | yes p ↦ inl (p, ground (arith, lookup-insert_self dec k e (erase dec k s)))
        | no p ↦ inr (
          p,
          ground (arith, lookup-insert_ne dec j k e (erase dec k s) p, lookup-erase_ne dec j k s p),
        )
      ]

  step-IsValid : (op : Op K V) (c : Lru K V) → IsValid dec c → IsValid dec (step op c)
  unfolding step
  step-IsValid (get_at k now) c h = get-IsValid dec k now c h
  step-IsValid (set_at k v now) c h = set-IsValid dec k v now c h
  step-IsValid (evict_now k) c h = evict-IsValid dec k c h
  step-IsValid clear_now c h = clear-IsValid dec c

  step-ttl_ms : (op : Op K V) (c : Lru K V) → (step op c).ttl_ms ≡ c.ttl_ms
  unfolding step get set evict clear
  step-ttl_ms (get_at k now) c = ground arith
  step-ttl_ms (set_at k v now) c = refl
  step-ttl_ms (evict_now k) c = refl
  step-ttl_ms clear_now c = refl

  step-max_entries : (op : Op K V) (c : Lru K V) → (step op c).max_entries ≡ c.max_entries
  unfolding step get set evict clear
  step-max_entries (get_at k now) c = ground arith
  step-max_entries (set_at k v now) c = refl
  step-max_entries (evict_now k) c = refl
  step-max_entries clear_now c = refl

  erase-IsCoherent :
      (ops : List (Op K V)) (j k : K) (f : Entry V) (s : Dict K (Entry V))
      → IsUnique dec s
      → IsCoherent ops s
      → lookup dec j (erase dec k s) ≡ some f
      → (j ≢ k) × (last_write ops j ≡ some (f.value, f.cached_at))
  erase-IsCoherent ops j k f s u h e = elim (dec j k) [
    | yes p ↦ absurd (ground (arith, lookup-erase_self dec k s u))
    | no p ↦ (p, h j f (sym (lookup-erase_ne dec j k s p) ∙ e))
  ]

  get-IsCoherent :
      (k : K) (now : ℕ) (ops : List (Op K V)) (c : Lru K V)
      → IsUnique dec c.store
      → IsCoherent ops c.store
      → IsCoherent ops (get dec k now c).1.store
  get-IsCoherent k now ops c u h j f e = elim (Option-cases (lookup dec k c.store)) [
    | inl absent ↦ h j f (ground (arith, get_lem dec k now c u))
    | inr (x, found) ↦ elim (Bool-cases (ltb now (x.cached_at + c.ttl_ms))) [
      | inl fresh ↦
          let e' : lookup dec j (refreshed dec k x c.store) ≡ some f =
            ground (arith, get_lem dec k now c u) in
          elim (lookup-refreshed j k x f c.store u e') [
            | inl (p, q) ↦ h j f (ground arith)
            | inr (p, old) ↦ h j f old
          ]
      | inr expired ↦
          let e' : lookup dec j (erase dec k c.store) ≡ some f =
            ground (arith, get_lem dec k now c u) in
          (erase-IsCoherent ops j k f c.store u h e').1
    ]
  ]

  step-IsCoherent :
      (op : Op K V) (ops : List (Op K V)) (c : Lru K V)
      → IsUnique dec c.store
      → IsCoherent ops c.store
      → IsCoherent (op ∷ ops) (step op c).store
  unfolding step last_write evict clear
  step-IsCoherent (get_at k now) ops c u h j f e = get-IsCoherent k now ops c u h j f e
  step-IsCoherent (set_at k v now) ops c u h j f e =
      let new : Entry V = record { value = v; cached_at = now } in
      let s = refreshed dec k new c.store in
      let found =
        lookup-drop dec (length s - c.max_entries) j f s (refreshed-IsUnique dec k new c.store u)
          (subst (λ m. lookup dec j m ≡ some f) (set-drop dec k v now c u) e) in
      elim (lookup-refreshed j k new f c.store u found) [
        | inl (p, q) ↦ ground arith
        | inr (p, old) ↦ ground (arith, h j f old)
      ]
  step-IsCoherent (evict_now k) ops c u h j f e =
      let (p, old) = erase-IsCoherent ops j k f c.store u h e in ground arith
  step-IsCoherent clear_now ops c u h j f e = absurd (cc)

  after-IsValid : (ops : List (Op K V)) (c : Lru K V) → IsValid dec c → IsValid dec (after ops c)
  unfolding after
  after-IsValid [] c h = h
  after-IsValid (op ∷ ops) c h = step-IsValid op (after ops c) (after-IsValid ops c h)

  after-ttl_ms : (ops : List (Op K V)) (c : Lru K V) → (after ops c).ttl_ms ≡ c.ttl_ms
  unfolding after
  after-ttl_ms [] c = refl
  after-ttl_ms (op ∷ ops) c = step-ttl_ms op (after ops c) ∙ after-ttl_ms ops c

  after-max_entries :
      (ops : List (Op K V)) (c : Lru K V) → (after ops c).max_entries ≡ c.max_entries
  unfolding after
  after-max_entries [] c = refl
  after-max_entries (op ∷ ops) c = step-max_entries op (after ops c) ∙ after-max_entries ops c

  after-IsCoherent :
      (ops : List (Op K V)) (c : Lru K V) → c.store ≡ [] → IsCoherent ops (after ops c).store
  unfolding after last_write
  after-IsCoherent [] c new j f e = absurd (ground arith)
  after-IsCoherent (op ∷ ops) c new j f e =
      step-IsCoherent op ops (after ops c) (after-IsValid ops c (empty-IsValid dec c new)).unique
        (after-IsCoherent ops c new) j f e

  -- What a hit read.
  abbrev Hit : K → ℕ → V → Lru K V → Type 0
  Hit k now v c =
      (e : Entry V) × (lookup dec k c.store ≡ some e)
      × (e.value ≡ v)
      × (now < e.cached_at + c.ttl_ms)

  get-Hit : (k : K) (now : ℕ) (v : V) (c : Lru K V) → (get dec k now c).0 ≡ some v → Hit k now v c
  unfolding get
  get-Hit k now v c h = elim (Option-cases (lookup dec k c.store)) [
    | inl absent ↦ absurd (ground arith)
    | inr (e, found) ↦ (e, found, ground arith, ground arith)
  ]

  Hit-written :
      (ops : List (Op K V)) (c : Lru K V) (k : K) (now : ℕ) (v : V)
      → c.store ≡ []
      → Hit k now v (after ops c)
      → (t : ℕ) × (last_write ops k ≡ some (v, t)) × (now < t + c.ttl_ms)
  Hit-written ops c k now v new (e, found, same, fresh) = (
    e.cached_at,
    ground (arith, after-IsCoherent ops c new k e found),
    omega (arith, after-ttl_ms ops c),
  )

  -- In any run of a cache that starts empty, at most `max_entries` entries are kept, and a `get`
  -- that hits returns the value that was stored last under its key and not evicted since, less
  -- than the TTL after it was stored: reads in between do not extend its life.
  pub get-last_write :
      (ops : List (Op K V)) (c : Lru K V) (k : K) (now : ℕ)
      → c.store ≡ []
      → (length (after ops c).store ≤ c.max_entries)
        × ((v : V)
            → (get dec k now (after ops c)).0 ≡ some v
            → (t : ℕ) × (last_write ops k ≡ some (v, t)) × (now < t + c.ttl_ms))
  get-last_write ops c k now new = (
    omega (arith, (after-IsValid ops c (empty-IsValid dec c new)).bounded, after-max_entries ops c),
    λ v h. Hit-written ops c k now v new (get-Hit k now v (after ops c) h),
  )
