-- ===== src/Base/Lists.antt =====
-- Lists measured by native numbers, under the library's names.
use Prim.Native.Nat.{ℕ, zero, suc, ◌+◌, ◌-◌, ◌≤◌}
use mathlib.Core.Path.{◌≡◌, refl, sym, ap, ◌∙◌}
use mathlib.Core.List.{List, [], ◌∷◌, ◌++◌}
use native.Mathlib.Omega.{arith}

module _ {ℓ} {A : Type ℓ} where
  abbrev pub length : List A → ℕ
  length [] = 0
  length (x ∷ xs) = suc (length xs)

  abbrev pub take : ℕ → List A → List A
  take zero xs = []
  take (suc n) [] = []
  take (suc n) (x ∷ xs) = x ∷ take n xs

  abbrev pub drop : ℕ → List A → List A
  drop zero xs = xs
  drop (suc n) [] = []
  drop (suc n) (x ∷ xs) = drop n xs

  pub append_nil : (xs : List A) → xs ++ [] ≡ xs
  append_nil [] = refl
  append_nil (x ∷ xs) = ap (λ rest. x ∷ rest) (append_nil xs)

  pub append_assoc : (xs ys zs : List A) → (xs ++ ys) ++ zs ≡ xs ++ (ys ++ zs)
  append_assoc [] ys zs = refl
  append_assoc (x ∷ xs) ys zs = ap (λ rest. x ∷ rest) (append_assoc xs ys zs)

  pub length-append : (xs ys : List A) → length (xs ++ ys) ≡ length xs + length ys
  length-append [] ys = omega arith
  length-append (x ∷ xs) ys = omega (arith, length-append xs ys)

  pub length-drop : (n : ℕ) (xs : List A) → length (drop n xs) ≡ length xs - n
  length-drop zero xs = omega arith
  length-drop (suc n) [] = omega arith
  length-drop (suc n) (x ∷ xs) = omega (arith, length-drop n xs)

  -- A property of every member, by recursion, so that it computes to a tuple.
  abbrev pub All {κ} : (A → Type κ) → List A → Type κ
  All P [] = Unit
  All P (x ∷ xs) = P x × All P xs

  pub take_all : (n : ℕ) (z : List A) → length z ≤ n → take n z ≡ z
  take_all zero [] h = refl
  take_all zero (x ∷ z) h = absurd (omega arith)
  take_all (suc n) [] h = refl
  take_all (suc n) (x ∷ z) h = ap (λ rest. x ∷ rest) (take_all n z (omega arith))

  pub take-drop : (n : ℕ) (z : List A) → take n z ++ drop n z ≡ z
  take-drop zero z = refl
  take-drop (suc n) [] = refl
  take-drop (suc n) (x ∷ z) = ap (λ rest. x ∷ rest) (take-drop n z)

  pub take-take : (n : ℕ) (z : List A) → take n (take (suc n) z) ≡ take n z
  take-take zero z = refl
  take-take (suc n) [] = refl
  take-take (suc n) (x ∷ z) = ap (λ rest. x ∷ rest) (take-take n z)

  pub length-take : (n : ℕ) (z : List A) → n ≤ length z → length (take n z) ≡ n
  length-take zero z h = refl
  length-take (suc n) [] h = absurd (omega arith)
  length-take (suc n) (x ∷ z) h = ap suc (length-take n z (omega arith))

  pub length-take_le : (n : ℕ) (xs : List A) → length (take n xs) ≤ n
  length-take_le zero xs = omega arith
  length-take_le (suc n) [] = omega arith
  length-take_le (suc n) (x ∷ xs) = omega (arith, length-take_le n xs)

  pub All-take {κ} : (P : A → Type κ) (n : ℕ) (xs : List A) → All P xs → All P (take n xs)
  All-take P zero xs h = tt
  All-take P (suc n) [] h = tt
  All-take P (suc n) (x ∷ xs) h = (h.0, All-take P n xs h.1)

  pub All-drop {κ} : (P : A → Type κ) (n : ℕ) (xs : List A) → All P xs → All P (drop n xs)
  All-drop P zero xs h = h
  All-drop P (suc n) [] h = h
  All-drop P (suc n) (x ∷ xs) h = All-drop P n xs h.1

  pub drop-append : (n : ℕ) (xs ys : List A) → n ≤ length xs → drop n (xs ++ ys) ≡ drop n xs ++ ys
  drop-append zero xs ys h = refl
  drop-append (suc n) [] ys h = absurd (omega arith)
  drop-append (suc n) (x ∷ xs) ys h = drop-append n xs ys (omega arith)

  drop_empty : (n : ℕ) → drop n [] ≡ []
  drop_empty zero = refl
  drop_empty (suc n) = refl

  pub drop-drop : (m n : ℕ) (xs : List A) → drop m (drop n xs) ≡ drop (m + n) xs
  drop-drop m zero xs = ground arith
  drop-drop m (suc n) [] = drop_empty m ∙ sym (drop_empty (m + suc n))
  drop-drop m (suc n) (x ∷ xs) =
      let q : suc (m + n) ≡ m + suc n = omega arith in
      drop-drop m n xs ∙ ap (λ k. drop k (x ∷ xs)) q

  -- The end of a list, of at most `n` members.
  abbrev pub last_of : ℕ → List A → List A
  last_of n xs = drop (length xs - n) xs

  -- Keeping the end and adding a member, against keeping the end of all.
  pub last_of-append :
      (n : ℕ) (xs : List A) (x : A) → last_of n (last_of n xs ++ x ∷ []) ≡ last_of n (xs ++ x ∷ [])
  last_of-append n xs x =
      let d = length xs - n in
      let a = drop-append d xs (x ∷ []) (omega arith) in
      let e = length (drop d xs ++ x ∷ []) - n in
      let l = length-append (drop d xs) (x ∷ []) in
      let m = length-drop d xs in
      let k = length-append xs (x ∷ []) in
      ap (drop e) (sym a)
      ∙ drop-drop e d (xs ++ x ∷ [])
      ∙ ap (λ i. drop i (xs ++ x ∷ [])) (omega (arith, l, m, k))
