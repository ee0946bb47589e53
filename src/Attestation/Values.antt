-- ===== src/Attestation/Values.antt =====
-- What `buildCanonicalAttestationMessage` of indexer/src/oracle.js hashes: JSON values, and the
-- property list that `JSON.stringify` is given as its second argument.
use Prim.Native.String.{String}
use text.Mathlib.Text.{◌==◌ as str_eq}
use pero_j.Base.{Bool, Option, none, some, List, [], ◌∷◌, if◌then◌else◌}
use pero_j.Base.Int.{ℤ}

mutual
  pub data Json : Type 0 where
    null : Json
    bool : Bool → Json
    num : ℤ → Json
    str : String → Json
    arr : Items → Json
    obj : Fields → Json

  pub data Items : Type 0 where
    nil : Items
    cons : Json → Items → Items

  pub data Fields : Type 0 where
    end : Fields
    field : String → Json → Fields → Fields

unfoldable pub value_of : String → Fields → Option Json
value_of k end = none
value_of k (field j v fs) = if str_eq j k then some v else value_of k fs

-- The properties of one object that are serialised: those of the list, in the list's order.
unfoldable pub listed : List String → Fields → Fields
listed [] fs = end
listed (k ∷ ks) fs = elim (value_of k fs) [
  | none ↦ listed ks fs
  | some v ↦ field k v (listed ks fs)
]

-- The property list applies to every object, nested ones included. Array elements all stay.
unfoldable mutual
  unfolding listed value_of

  pub pick : List String → Json → Json
  pick ks null = null
  pick ks (bool b) = bool b
  pick ks (num n) = num n
  pick ks (str s) = str s
  pick ks (arr xs) = arr (pick_items ks xs)
  pick ks (obj fs) = obj (listed ks (pick_fields ks fs))

  pub pick_items : List String → Items → Items
  pick_items ks nil = nil
  pick_items ks (cons x xs) = cons (pick ks x) (pick_items ks xs)

  pub pick_fields : List String → Fields → Fields
  pick_fields ks end = end
  pick_fields ks (field k v fs) = field k (pick ks v) (pick_fields ks fs)
