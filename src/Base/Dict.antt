-- ===== src/Base/Dict.antt =====
-- JavaScript's `Map` and `Set`: entries in insertion order. Writing a key that is there keeps its
-- place, and a new key goes to the end. Keys are only compared, so any decidable type will do.
use pero_j.Base.Tests.{is_some}
use Prim.Native.Nat.{ℕ, zero, suc, ◌+◌}
use mathlib.Core.Path.{◌≡◌, refl, subst}
use mathlib.Core.Logic.{◌≢◌, ite, if_pos, if_neg}
use mathlib.Core.Bool.{Bool}
use mathlib.Core.Option.{Option, none, some}
use mathlib.Core.List.{List, [], ◌∷◌, ◌++◌}
use native.Mathlib.Omega.{arith}
use pero_j.Base.Lists.{length, All, drop}

abbrev pub Dict {ℓ} : Type ℓ → Type ℓ → Type ℓ
Dict K V = List (K × V)

module _ {ℓ} {K V : Type ℓ} (dec : Discrete K) where
  -- `m.get(k)`
  abbrev pub lookup : K → Dict K V → Option V
  lookup k [] = none
  lookup k ((j, v) ∷ m) = ite (dec k j) (some v) (lookup k m)

  -- `m.has(k)`
  abbrev pub has : K → Dict K V → Bool
  has k m = is_some (lookup k m)

  -- `m.set(k, v)`
  abbrev pub insert : K → V → Dict K V → Dict K V
  insert k v [] = (k, v) ∷ []
  insert k v ((j, w) ∷ m) = ite (dec k j) ((j, v) ∷ m) ((j, w) ∷ insert k v m)

  -- `m.delete(k)`
  abbrev pub erase : K → Dict K V → Dict K V
  erase k [] = []
  erase k ((j, w) ∷ m) = ite (dec k j) m ((j, w) ∷ erase k m)

  -- No key stands twice, as in any `Map`.
  abbrev pub IsUnique : Dict K V → Type ℓ
  IsUnique [] = Unit
  IsUnique ((k, v) ∷ m) = (lookup k m ≡ none) × IsUnique m

  pub lookup-insert_self : (k : K) (v : V) (m : Dict K V) → lookup k (insert k v m) ≡ some v
  lookup-insert_self k v [] = ground arith
  lookup-insert_self k v (e ∷ m) = ground (arith, lookup-insert_self k v m)

  pub lookup-insert_ne :
      (j k : K) (v : V) (m : Dict K V) → j ≢ k → lookup j (insert k v m) ≡ lookup j m
  lookup-insert_ne j k v [] h = ground arith
  lookup-insert_ne j k v (e ∷ m) h = ground (arith, lookup-insert_ne j k v m h)

  pub lookup-erase_ne : (j k : K) (m : Dict K V) → j ≢ k → lookup j (erase k m) ≡ lookup j m
  lookup-erase_ne j k [] h = refl
  lookup-erase_ne j k (e ∷ m) h = ground (arith, lookup-erase_ne j k m h)

  pub insert-IsUnique : (k : K) (v : V) (m : Dict K V) → IsUnique m → IsUnique (insert k v m)
  insert-IsUnique k v [] h = (refl, tt)
  insert-IsUnique k v (e ∷ m) h =
      ground (arith, insert-IsUnique k v m h.1, lookup-insert_ne e.0 k v m)

  pub erase-IsUnique : (k : K) (m : Dict K V) → IsUnique m → IsUnique (erase k m)
  erase-IsUnique k [] h = tt
  erase-IsUnique k (e ∷ m) h = ground (arith, erase-IsUnique k m h.1, lookup-erase_ne e.0 k m)

  pub lookup-erase_self : (k : K) (m : Dict K V) → IsUnique m → lookup k (erase k m) ≡ none
  lookup-erase_self k [] h = refl
  lookup-erase_self k (e ∷ m) h = ground (arith, lookup-erase_self k m h.1)

  pub erase_absent : (k : K) (m : Dict K V) → lookup k m ≡ none → erase k m ≡ m
  erase_absent k [] h = refl
  erase_absent k (e ∷ m) h = ground (arith, erase_absent k m)

  pub length-erase :
      (k : K) (m : Dict K V) (v : V) → lookup k m ≡ some v → length (erase k m) + 1 ≡ length m
  length-erase k [] v h = cc
  length-erase k (e ∷ m) v h = ground (arith, length-erase k m v)

  -- A key that is new goes to the end.
  pub insert_absent :
      (k : K) (v : V) (m : Dict K V) → lookup k m ≡ none → insert k v m ≡ m ++ (k, v) ∷ []
  insert_absent k v [] h = refl
  insert_absent k v (e ∷ m) h = ground (arith, insert_absent k v m)

module _ {ℓ} {K V : Type ℓ} (dec : Discrete K) where
  pub drop-IsUnique : (n : ℕ) (m : Dict K V) → IsUnique dec m → IsUnique dec (drop n m)
  drop-IsUnique zero m h = h
  drop-IsUnique (suc n) [] h = h
  drop-IsUnique (suc n) (e ∷ m) h = drop-IsUnique n m h.1

  -- What stands in the end of a `Map` stands in the whole.
  pub lookup-drop :
      (n : ℕ) (k : K) (v : V) (m : Dict K V)
      → IsUnique dec m
      → lookup dec k (drop n m) ≡ some v
      → lookup dec k m ≡ some v
  lookup-drop zero k v m h e = e
  lookup-drop (suc n) k v [] h e = e
  lookup-drop (suc n) k v ((j, w) ∷ m) h e = ground (arith, lookup-drop n k v m h.1 e)

-- A property of every value of a `Map`.
module _ {ℓ κ} {K V : Type ℓ} (dec : Discrete K) (P : V → Type κ) where
  abbrev pub Values : Dict K V → Type κ
  Values m = All (λ e. P e.1) m

  pub lookup-Values : (k : K) (v : V) (m : Dict K V) → Values m → lookup dec k m ≡ some v → P v
  lookup-Values k v [] h e = absurd (cc)
  lookup-Values k v ((j, w) ∷ m) h e = elim (dec k j) [
    | yes p ↦ subst P (ground arith) h.0
    | no p ↦ lookup-Values k v m h.1 (ground arith)
  ]

  pub insert-Values : (k : K) (v : V) (m : Dict K V) → Values m → P v → Values (insert dec k v m)
  insert-Values k v [] h p = (p, tt)
  insert-Values k v ((j, w) ∷ m) h p = elim (dec k j) [
    | yes e ↦ rw (if_pos _ e) (p, h.1)
    | no e ↦ rw (if_neg _ e) (h.0, insert-Values k v m h.1 p)
  ]
