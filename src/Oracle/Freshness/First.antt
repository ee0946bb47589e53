-- ===== src/Oracle/Freshness/First.antt =====
-- Which answer oracle/src/adapters/freshness.js returns.
use pero_j.Base.{
  ◌≡◌, ◌⊎◌, inl, inr, refl, true, false, ◌&&◌, none, some, List, [], ◌∷◌, ◌++◌, Outcome, returned,
  thrown, Bool-cases, Option-cases, Outcome-cases, append_assoc, append_nil, ap, sym, ◌∙◌, arith,
}
use pero_j.Base.Int.{ℤ, pos, ◌+ℤ◌, ◌-ℤ◌, ◌≤ℤ◌, leb_ℤ, ltb_ℤ}
use pero_j.Oracle.Freshness.{
  Response, get_timestamp, time_value, is_fresh, Failure, stale, failed, Problem, aggregate,
  try_adapters, fetch_fresh_from_adapters,
}

-- `a < b`
abbrev pub Before : ℤ → ℤ → Type 0
Before a b = a +ℤ pos 1 ≤ℤ b

-- The answer has a time, not after `now`, and less than the limit before it.
unfoldable pub IsFresh : {A : Type 0} → Response A → ℤ → ℤ → Type 0
IsFresh r now max_age_ms =
    (t : ℤ) × (get_timestamp (time_value r) ≡ some t) × (t ≤ℤ now) × Before now (t +ℤ max_age_ms)

-- It has no time, or one after `now`, or one that is too old.
unfoldable pub IsStale : {A : Type 0} → Response A → ℤ → ℤ → Type 0
IsStale r now max_age_ms =
    (get_timestamp (time_value r) ≡ none)
    ⊎ ((t : ℤ) × (get_timestamp (time_value r) ≡ some t)
        × (Before now t ⊎ (t +ℤ max_age_ms ≤ℤ now)))

age_fresh :
    (now t max : ℤ)
    → leb_ℤ (pos 0) (now -ℤ t) ≡ true
    → ltb_ℤ (now -ℤ t) max ≡ true
    → (t ≤ℤ now) × Before now (t +ℤ max)
unfolding ◌-ℤ◌ ◌+ℤ◌
age_fresh now t max h g = (ground arith, ground arith)

age_stale :
    (now t max : ℤ)
    → (leb_ℤ (pos 0) (now -ℤ t) && ltb_ℤ (now -ℤ t) max) ≡ false
    → Before now t ⊎ (t +ℤ max ≤ℤ now)
unfolding ◌-ℤ◌ ◌+ℤ◌
age_stale now t max h = ground arith

fresh_lem :
    {A : Type 0} (r : Response A) (now max_age_ms : ℤ)
    → is_fresh r now max_age_ms ≡ true
    → IsFresh r now max_age_ms
unfolding is_fresh IsFresh
fresh_lem r now max_age_ms h = elim (Option-cases (get_timestamp (time_value r))) [
  | inl e ↦ absurd (ground (arith, e, h))
  | inr (t, e) ↦
      let a = age_fresh now t max_age_ms (ground (arith, e, h)) (ground (arith, e, h)) in
      (t, e, a.0, a.1)
]

stale_lem :
    {A : Type 0} (r : Response A) (now max_age_ms : ℤ)
    → is_fresh r now max_age_ms ≡ false
    → IsStale r now max_age_ms
unfolding is_fresh IsStale
stale_lem r now max_age_ms h = elim (Option-cases (get_timestamp (time_value r))) [
  | inl e ↦ inl e
  | inr (t, e) ↦ inr (t, e, age_stale now t max_age_ms (ground (arith, e, h)))
]

module _ {W A E : Type 0} (clock : W → ℤ) (max_age_ms : ℤ) where
  -- The adapters are asked in order, from one world to the next, and each is passed over, since it
  -- throws or since its answer is stale when it arrives.
  unfoldable pub AllPassed :
      List (W → W × Outcome E (Response A)) → W → List (Failure E) → W → Type 0
  AllPassed [] w [] v = w ≡ v
  AllPassed [] w (why ∷ whys) v = ⊥
  AllPassed (fetch ∷ rest) w [] v = ⊥
  AllPassed (fetch ∷ rest) w (why ∷ whys) v =
      (((e : E) × ((fetch w).1 ≡ thrown e) × (why ≡ failed e))
        ⊎ ((r : Response A) × ((fetch w).1 ≡ returned r)
            × IsStale r (clock (fetch w).0) max_age_ms
            × (why ≡ stale)))
      × AllPassed rest (fetch w).0 whys v

  -- Some adapter, after others that are passed over, gives a fresh answer, which is returned; or all
  -- are passed over, and the error has their failures.
  unfoldable pub FirstFresh :
      List (W → W × Outcome E (Response A))
      → W
      → List (Failure E)
      → Outcome (Problem E) (Response A) × W
      → Type 0
  FirstFresh fetches w failures out =
      ((before : List (W → W × Outcome E (Response A))) × (fetch : W → W × Outcome E (Response A))
        × (after : List (W → W × Outcome E (Response A))) × (whys : List (Failure E)) × (v : W)
        × (r : Response A) × (fetches ≡ before ++ fetch ∷ after)
        × AllPassed before w whys v
        × ((fetch v).1 ≡ returned r)
        × IsFresh r (clock (fetch v).0) max_age_ms
        × (out ≡ (returned r, (fetch v).0)))
      ⊎ ((whys : List (Failure E)) × (v : W) × AllPassed fetches w whys v
          × (out ≡ (thrown (aggregate (failures ++ whys)), v)))

  -- One adapter more that is passed over.
  passed_first :
      (fetch : W → W × Outcome E (Response A)) (rest : List (W → W × Outcome E (Response A)))
      (w : W) (why : Failure E) (failures : List (Failure E))
      (out : Outcome (Problem E) (Response A) × W)
      → ((e : E) × ((fetch w).1 ≡ thrown e) × (why ≡ failed e))
        ⊎ ((r : Response A) × ((fetch w).1 ≡ returned r)
            × IsStale r (clock (fetch w).0) max_age_ms
            × (why ≡ stale))
      → FirstFresh rest (fetch w).0 (failures ++ why ∷ []) out
      → FirstFresh (fetch ∷ rest) w failures out
  unfolding FirstFresh AllPassed
  passed_first fetch rest w why failures out p (inl (before, g, after, whys, v, r, s, a, q, f, o)) =
      inl (fetch ∷ before, g, after, why ∷ whys, v, r, ap (λ fs. fetch ∷ fs) s, (p, a), q, f, o)
  passed_first fetch rest w why failures out p (inr (whys, v, a, o)) = inr (
    why ∷ whys,
    v,
    (p, a),
    o ∙ ap (λ l. (thrown (aggregate l), v)) (append_assoc failures (why ∷ []) whys),
  )

  try_adapters-FirstFresh :
      (fetches : List (W → W × Outcome E (Response A))) (failures : List (Failure E)) (w : W)
      → FirstFresh fetches w failures (try_adapters clock max_age_ms fetches failures w)
  unfolding FirstFresh try_adapters AllPassed
  try_adapters-FirstFresh [] failures w =
      inr ([], w, refl, ap (λ l. (thrown (aggregate l), w)) (sym (append_nil failures)))
  try_adapters-FirstFresh (fetch ∷ rest) failures w = elim (Outcome-cases (fetch w).1) [
    | inl (e, p) ↦ passed_first fetch rest w (failed e) failures _ (inl (e, p, refl)) (
        rw (try_adapters, p) (try_adapters-FirstFresh rest (failures ++ failed e ∷ []) (fetch w).0))
    | inr (response, p) ↦ elim (Bool-cases (is_fresh response (clock (fetch w).0) max_age_ms)) [
      | inl f ↦ inl (
        [],
        fetch,
        rest,
        [],
        w,
        response,
        refl,
        refl,
        p,
        fresh_lem response _ _ f,
        rw (try_adapters, p, f) refl,
      )
      | inr f ↦
          passed_first fetch rest w stale failures _
            (inr (response, p, stale_lem response _ _ f, refl))
            (rw (try_adapters, p, f)
              (try_adapters-FirstFresh rest (failures ++ stale ∷ []) (fetch w).0))
    ]
  ]

  -- With at least one adapter and a positive age limit, the adapters are asked in order. The first
  -- answer that is fresh when it arrives is returned: it has a time that is not after the clock's,
  -- and less than the limit before it. Each adapter before it threw, or its answer had no time, one
  -- in the future, or one at least as old as the limit. If this holds of all adapters, the error
  -- lists for each one, in order, whether it threw or was stale.
  pub fetch_fresh_from_adapters-FirstFresh :
      (fetch : W → W × Outcome E (Response A)) (rest : List (W → W × Outcome E (Response A)))
      (w : W)
      → leb_ℤ max_age_ms (pos 0) ≡ false
      → FirstFresh (fetch ∷ rest) w [] (fetch_fresh_from_adapters clock max_age_ms (fetch ∷ rest) w)
  unfolding fetch_fresh_from_adapters
  fetch_fresh_from_adapters-FirstFresh fetch rest w h =
      rw (fetch_fresh_from_adapters, h) (try_adapters-FirstFresh (fetch ∷ rest) [] w)
