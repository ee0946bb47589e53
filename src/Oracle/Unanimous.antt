-- ===== src/Oracle/Unanimous.antt =====
-- When `determineOutcome` of oracle/src/workers/auto-submitter.js gives an outcome.
use Prim.Native.String.{String}
use pero_j.Base.{
  ◌≡◌, ◌↔◌, ◌≢◌, refl, sym, ◌∙◌, Bool, true, false, Option, none, some, List, [], ◌∷◌, ◌++◌,
  Outcome, returned, thrown, ◌>>=◌, bind_returned, arith, All, Option-cases, Bool-cases, inl, inr,
  ap, subst, length, length-append, ◌≤◌,
}
use pero_j.Oracle.{
  together, Trouble, no_adapters, ask_all, same_bool, has_bool, set_of, agreed, determine_outcome,
}

-- Every adapter of the list answers `o`.
unfoldable pub Answer :
    {E P : Type 0} → (String → P → Outcome E Bool) → P → Bool → List String → Type 0
Answer impl params o ns = All (λ n. impl n params ≡ returned o) ns

unfoldable AllSame : Bool → List Bool → Type 0
AllSame o os = All (λ x. x ≡ o) os

same_bool-true : (a b : Bool) → same_bool a b ≡ true → a ≡ b
unfolding same_bool
same_bool-true true b h = sym h
same_bool-true false true h = absurd (cc)
same_bool-true false false h = refl

same_bool_refl : (a : Bool) → same_bool a a ≡ true
unfolding same_bool
same_bool_refl true = refl
same_bool_refl false = refl

set_of-length : (os seen : List Bool) → length seen ≤ length (set_of seen os)
unfolding set_of
set_of-length [] seen = omega arith
set_of-length (x ∷ os) seen =
    let a = set_of-length os seen in
    let b = set_of-length os (seen ++ x ∷ []) in
    let c = length-append seen (x ∷ []) in ground (arith, a, b, c)

step_other :
    (a x : Bool) (os : List Bool)
    → same_bool x a ≡ false
    → set_of (a ∷ []) (x ∷ os) ≡ set_of (a ∷ x ∷ []) os
unfolding set_of has_bool
step_other a x os e = rw e refl

-- Once a value is seen, the set stays a single value exactly if all others are that value.
set_of-one :
    (o : Bool) (os : List Bool) (a : Bool) → set_of (a ∷ []) os ≡ o ∷ [] → (a ≡ o) × AllSame o os
unfolding set_of has_bool AllSame
set_of-one o [] a h = (ground arith, tt)
set_of-one o (x ∷ os) a h = elim (Bool-cases (same_bool x a)) [
  | inl e ↦
      let (p, q) = set_of-one o os a (ground (arith, e, h)) in (p, (same_bool-true x a e ∙ p, q))
  | inr e ↦
      let g = set_of-length os (a ∷ x ∷ []) in
      let s = ap length (sym (step_other a x os e) ∙ h) in absurd (omega (arith, g, s))
]

agreed-returned :
    {E : Type 0} (os : List Bool) (set : List Bool) (o : Bool)
    → agreed {E = E} os set ≡ returned o
    → set ≡ o ∷ []
unfolding agreed
agreed-returned os [] o h = absurd (cc)
agreed-returned os (x ∷ []) o h = ground (arith, h)
agreed-returned os (x ∷ y ∷ s) o h = absurd (cc)

set_of-same : (o : Bool) (os : List Bool) → AllSame o os → set_of (o ∷ []) os ≡ o ∷ []
unfolding set_of has_bool AllSame
set_of-same o [] h = refl
set_of-same o (x ∷ os) h = rw (h.0, same_bool_refl o) (set_of-same o os h.1)

together-returned :
    {E : Type 0} (r : Outcome E Bool) (q : Outcome (Trouble E) (List Bool)) (os : List Bool)
    → together r q ≡ returned os
    → (x : Bool) × (xs : List Bool) × (r ≡ returned x) × (q ≡ returned xs) × (os ≡ x ∷ xs)
unfolding together
together-returned (thrown e) q os h = absurd (cc)
together-returned (returned x) (thrown e) os h = absurd (cc)
together-returned (returned x) (returned xs) os h = (x, xs, refl, refl, ground arith)

empty_of : (ns : List String) (os : List Bool) → os ≡ [] → length os ≡ length ns → ns ≡ []
empty_of [] os e l = refl
empty_of (n ∷ ns) os e l = let z = ap length e in absurd (omega (arith, z, l))

module _ {E P : Type 0} (impl : String → P → Outcome E Bool) (params : P) where
  answers_of :
      (ns : List String) (os : List Bool) (o : Bool)
      → ask_all impl params ns ≡ returned os
      → AllSame o os
      → Answer impl params o ns
  unfolding ask_all AllSame Answer together
  answers_of [] os o h s = tt
  answers_of (n ∷ ns) os o h s =
      let (x, xs, p, q, e) = together-returned (impl n params) (ask_all impl params ns) os h in
      let same = subst (AllSame o) e s in (ground (arith, p, same), answers_of ns xs o q same.1)

  of_answers :
      (ns : List String) (o : Bool)
      → Answer impl params o ns
      → (os : List Bool) × (ask_all impl params ns ≡ returned os)
        × AllSame o os
        × (length os ≡ length ns)
  unfolding ask_all AllSame Answer together
  of_answers [] o h = ([], refl, tt, refl)
  of_answers (n ∷ ns) o h =
      let (os, e, s, l) = of_answers ns o h.1 in
      (o ∷ os, rw (h.0, ask_all, e) refl, (refl, s), omega (arith, l))

  of_set : (os : List Bool) (o : Bool) → set_of [] os ≡ o ∷ [] → AllSame o os × (os ≢ [])
  unfolding set_of has_bool AllSame
  of_set [] o h = absurd (cc)
  of_set (x ∷ xs) o h = (set_of-one o xs x h, λ e. ground arith)

  of_ask :
      (ns : List String) (o : Bool)
      → (ask_all impl params ns >>= λ os. agreed os (set_of [] os)) ≡ returned o
      → (ns ≢ []) × Answer impl params o ns
  unfolding ask_all
  of_ask ns o h =
      let (os, e, k) = bind_returned (ask_all impl params ns) _ o h in
      let (same, ne) = of_set os o (agreed-returned os (set_of [] os) o k) in
      (λ z. ne (ground (arith, e, z)), answers_of ns os o e same)

  set_all : (os : List Bool) (o : Bool) → AllSame o os → os ≢ [] → set_of [] os ≡ o ∷ []
  unfolding set_of has_bool AllSame
  set_all [] o h ne = absurd (ne refl)
  set_all (x ∷ xs) o h ne = rw h.0 (set_of-same o xs h.1)

  asked :
      (category_adapters : String → Option (List String)) (category : String) (ns : List String)
      → category_adapters category ≡ some ns
      → determine_outcome category_adapters impl category params
        ≡ (ask_all impl params ns >>= λ os. agreed os (set_of [] os))
  unfolding determine_outcome
  asked category_adapters category ns e = rw (determine_outcome, e) refl

  not_asked :
      (category_adapters : String → Option (List String)) (category : String)
      → category_adapters category ≡ none
      → determine_outcome category_adapters impl category params ≡ thrown no_adapters
  unfolding determine_outcome
  not_asked category_adapters category e = rw (determine_outcome, e) refl

  to_ask :
      (ns : List String) (o : Bool)
      → ns ≢ []
      → Answer impl params o ns
      → (ask_all impl params ns >>= λ os. agreed os (set_of [] os)) ≡ returned o
  unfolding agreed
  to_ask ns o ne a =
      let (os, q, s, l) = of_answers ns o a in
      let t = set_all os o s (λ z. ne (empty_of ns os z l)) in rw (q, t) refl

  -- An outcome is determined exactly if the category has adapters and every one of them answers
  -- that outcome: an adapter that throws, two that differ, or none at all stop the submission.
  pub determine_outcome-unanimous :
      (category_adapters : String → Option (List String)) (category : String) (o : Bool)
      → (determine_outcome category_adapters impl category params ≡ returned o) ↔ (
          (ns : List String) × (category_adapters category ≡ some ns)
          × (ns ≢ [])
          × Answer impl params o ns)
  unfolding determine_outcome set_of has_bool AllSame
  determine_outcome-unanimous category_adapters category o = (
    λ h. elim (Option-cases (category_adapters category)) [
      | inl e ↦ absurd (ground (arith, not_asked category_adapters category e))
      | inr (ns, e) ↦
          let (ne, a) = of_ask ns o (sym (asked category_adapters category ns e) ∙ h) in
          (ns, e, ne, a)
    ],
    λ (ns, c, ne, a). asked category_adapters category ns c ∙ to_ask ns o ne a,
  )
