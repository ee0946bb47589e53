-- ===== src/Sep41/Dense.antt =====
-- No slot of the results of indexer/src/validateSep41.js stays empty, however its workers interleave.
use pero_j.Base.{
  ℕ, zero, suc, ◌<◌, ◌≤◌, Bool, true, ◌==◌, some, List, [], ◌∷◌, ◌++◌, ◌≡◌, refl, sym, ap, subst,
  ◌∙◌, ◌⊎◌, inl, inr, arith, length, Bool-cases, Outcome, returned, thrown,
}
use pero_j.Sep41.{
  Pool, result_of, start, take_item, write_result, Reachable, started, took, wrote, slot, is_true,
  compliant,
}

unfoldable Held : ℕ → List ℕ → Type 0
Held i [] = ⊥
Held i (j ∷ busy) = (i ≡ j) ⊎ Held i busy

split_busy :
    (i j : ℕ) (after before : List ℕ)
    → Held i (after ++ j ∷ before)
    → (i ≡ j) ⊎ Held i (after ++ before)
unfolding Held
split_busy i j [] before h = h
split_busy i j (k ∷ after) before (inl e) = inr (inl e)
split_busy i j (k ∷ after) before (inr h) = elim (split_busy i j after before h) [
  | inl e ↦ inl e
  | inr m ↦ inr (inr m)
]

length-without :
    (j : ℕ) (after before : List ℕ) → length (after ++ before) ≤ length (after ++ j ∷ before)
length-without j [] before = omega arith
length-without j (k ∷ after) before = omega (arith, length-without j after before)

module _ {E : Type 0} (count limit : ℕ) (mapper : ℕ → Outcome E Bool) where
  -- An item that was taken is with a worker or has its result.
  unfoldable IsDense : Pool → Type 0
  IsDense p =
      (p.next_index ≤ count)
      × (length p.busy ≤ limit)
      × ((i : ℕ)
          → i < p.next_index
          → Held i p.busy ⊎ (slot i p.results ≡ some (result_of (mapper i))))

  slot-written :
      (i j : ℕ) (results : List (ℕ × Bool))
      → (i ≡ j) ⊎ (slot i results ≡ some (result_of (mapper i)))
      → slot i ((j, result_of (mapper j)) ∷ results) ≡ some (result_of (mapper i))
  unfolding slot
  slot-written i j results h = elim (Bool-cases (j == i)) [
    | inl e ↦ let q : j ≡ i = ground arith in rw e (ap (λ k. some (result_of (mapper k))) q)
    | inr e ↦ elim h [ inl q ↦ absurd (ground arith) | inr s ↦ rw e s ]
  ]

  take-IsDense :
      (p : Pool) → IsDense p → p.next_index < count → length p.busy < limit → IsDense (take_item p)
  unfolding IsDense Held take_item
  take-IsDense p d more free = (
    omega arith,
    omega arith,
    (λ i lt. elim (Bool-cases (i == p.next_index)) [
      | inl e ↦ inl (inl (ground arith))
      | inr e ↦ elim (d.2 i (ground arith)) [ inl h ↦ inl (inr h) | inr s ↦ inr s ]
    ]),
  )

  write-IsDense :
      (p : Pool) (j : ℕ) (after before : List ℕ)
      → IsDense p
      → p.busy ≡ after ++ j ∷ before
      → IsDense (write_result j (result_of (mapper j)) after before p)
  unfolding IsDense write_result
  write-IsDense p j after before d q =
      let fewer = length-without j after before in
      let same = ap length q in
      (
        d.0,
        omega (arith, d.1, fewer, same),
        (λ i lt. elim (d.2 i lt) [
          | inl h ↦ elim (split_busy i j after before (subst (Held i) q h)) [
            | inl e ↦ inr (slot-written i j p.results (inl e))
            | inr m ↦ inl m
          ]
          | inr s ↦ inr (slot-written i j p.results (inr s))
        ]),
      )

  reachable-IsDense : (p : Pool) → Reachable count limit mapper p → IsDense p
  unfolding IsDense start
  reachable-IsDense p started = (omega arith, omega arith, (λ i lt. absurd (omega arith)))
  reachable-IsDense p (took q r more free) = take-IsDense q (reachable-IsDense q r) more free
  reachable-IsDense p (wrote q j after before r e) =
      write-IsDense q j after before (reachable-IsDense q r) e

  returned_true : (o : Outcome E Bool) → result_of o ≡ true → o ≡ returned true
  unfolding result_of
  returned_true (returned b) h = ap returned h
  returned_true (thrown e) h = absurd (cc)

  module _ (results : List (ℕ × Bool)) where
    true_slot :
        (i : ℕ)
        → slot i results ≡ some (result_of (mapper i))
        → is_true (slot i results) ≡ result_of (mapper i)
    unfolding is_true
    true_slot i s = rw s refl

    all_present :
        (n : ℕ)
        → ((i : ℕ) → i < n → slot i results ≡ some (result_of (mapper i)))
        → compliant n results ≡ true
        → (i : ℕ) → i < n
        → mapper i ≡ returned true
    unfolding compliant
    all_present zero full h i lt = absurd (omega arith)
    all_present (suc n) full h i lt =
        let last = true_slot n (full n (omega arith)) in
        let last_true : is_true (slot n results) ≡ true = ground arith in
        elim (Bool-cases (i == n)) [
          | inl e ↦
              let q : n ≡ i = ground arith in
              subst (λ k. mapper k ≡ returned true) q
                (returned_true (mapper n) (sym last ∙ last_true))
          | inr e ↦
              all_present n (λ k less. full k (omega (arith, less))) (ground arith) i (ground arith)
        ]

    present-compliant :
        (n : ℕ)
        → ((i : ℕ) → i < n → slot i results ≡ some (result_of (mapper i)))
        → ((i : ℕ) → i < n → mapper i ≡ returned true)
        → compliant n results ≡ true
    unfolding compliant result_of
    present-compliant zero full h = refl
    present-compliant (suc n) full h =
        let earlier =
          present-compliant n (λ k less. full k (omega (arith, less)))
            (λ k less. h k (omega (arith, less))) in
        let last = true_slot n (full n (omega arith)) ∙ ap result_of (h n (omega arith)) in
        rw earlier last

  -- However the workers interleave and whichever calls throw: when every item was taken and no worker
  -- is at work, each slot has the answer of its own item, a call that threw counting as false, and
  -- the contract is compliant exactly if the call for each function returned true.
  pub reachable-compliant :
      (p : Pool)
      → Reachable count limit mapper p
      → p.busy ≡ []
      → p.next_index ≡ count
      → ((i : ℕ) → i < count → slot i p.results ≡ some (result_of (mapper i)))
        × (compliant count p.results ≡ true → (i : ℕ) → i < count → mapper i ≡ returned true)
        × (((i : ℕ) → i < count → mapper i ≡ returned true) → compliant count p.results ≡ true)
  unfolding IsDense Held
  reachable-compliant p r idle all =
      let d = reachable-IsDense p r in
      let full : (i : ℕ) → i < count → slot i p.results ≡ some (result_of (mapper i)) = λ i lt.
        elim (d.2 i (omega (arith, lt, all))) [
          | inl h ↦ absurd (subst (Held i) idle h)
          | inr s ↦ s
        ] in
      (full, all_present p.results count full, present-compliant p.results count full)
