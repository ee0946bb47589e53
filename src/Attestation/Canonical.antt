-- ===== src/Attestation/Canonical.antt =====
-- What a signature over `buildCanonicalAttestationMessage` of indexer/src/oracle.js covers.
use Prim.Native.String.{String}
use text.Mathlib.Text.{◌==◌ as str_eq}
use pero_j.Base.{
  Option, none, some, ap, sym, ◌∙◌, inl, inr, Bool-cases, ◌≡◌, ◌↔◌, refl, false, List, [], ◌∷◌,
  arith,
}
use pero_j.Base.Int.{ℤ}
use pero_j.Attestation.{Message, message_keys, canonical_message, Verifier, check_signature}
use pero_j.Attestation.Values.{
  Json, Fields, end, field, num, str, obj, pick, pick_fields, value_of, listed,
}

-- The name is none of the list's.
unfoldable pub Outside : List String → String → Type 0
Outside [] k = Unit
Outside (j ∷ ks) k = (str_eq k j ≡ false) × Outside ks k

-- The members of one object, and then those of another.
unfoldable pub joined : Fields → Fields → Fields
joined end gs = gs
joined (field k v fs) gs = field k v (joined fs gs)

value_of-joined :
    (j k : String) (v : Json) (before after : Fields)
    → str_eq k j ≡ false
    → value_of j (joined before (field k v after)) ≡ value_of j (joined before after)
unfolding joined value_of
value_of-joined j k v end after h = ground (arith, h)
value_of-joined j k v (field i w before) after h = elim (Bool-cases (str_eq i j)) [
  | inl e ↦ rw e refl
  | inr e ↦ rw e (value_of-joined j k v before after h)
]

with_value : String → Option Json → Fields → Fields
with_value k none fs = fs
with_value k (some v) fs = field k v fs

listed-suc :
    (k : String) (ks : List String) (fs : Fields)
    → listed (k ∷ ks) fs ≡ with_value k (value_of k fs) (listed ks fs)
unfolding listed with_value
listed-suc k ks fs = ground arith

listed-Outside :
    (ks : List String) (k : String) (v : Json) (before after : Fields)
    → Outside ks k
    → listed ks (joined before (field k v after)) ≡ listed ks (joined before after)
unfolding Outside listed
listed-Outside [] k v before after h = refl
listed-Outside (j ∷ ks) k v before after h =
    listed-suc j ks (joined before (field k v after))
    ∙ ap (λ o. with_value j o (listed ks (joined before (field k v after))))
        (value_of-joined j k v before after h.0)
    ∙ ap (with_value j (value_of j (joined before after))) (listed-Outside ks k v before after h.1)
    ∙ sym (listed-suc j ks (joined before after))

pick_fields-joined :
    (ks : List String) (fs gs : Fields)
    → pick_fields ks (joined fs gs) ≡ joined (pick_fields ks fs) (pick_fields ks gs)
unfolding joined pick_fields
pick_fields-joined ks end gs = refl
pick_fields-joined ks (field k v fs) gs = ap (field k (pick ks v)) (pick_fields-joined ks fs gs)

picked :
    (ks : List String) (k : String) (v : Json) (before after : Fields)
    → Outside ks k
    → pick ks (obj (joined before (field k v after))) ≡ pick ks (obj (joined before after))
unfolding pick
picked ks k v before after h =
    ap (λ fs. obj (listed ks fs)) (pick_fields-joined ks before (field k v after))
    ∙ ap obj (listed-Outside ks k (pick ks v) (pick_fields ks before) (pick_fields ks after) h)
    ∙ ap (λ fs. obj (listed ks fs)) (sym (pick_fields-joined ks before after))

-- What is hashed of a message, in the order of the sorted keys.
unfoldable pub covered : Message → String × (String × (String × (String × (ℤ × Json))))
covered p =
    (p.chain_id, (p.domain, (p.market_id, (p.nonce, (p.timestamp, pick message_keys p.outcome)))))

form : Message → Json
form p = obj (
    field "chain_id" (str p.chain_id) (
      field "domain" (str p.domain) (
        field "market_id" (str p.market_id) (
          field "nonce" (str p.nonce) (
            field "outcome" (pick message_keys p.outcome)
              (field "timestamp" (num p.timestamp) end))))))

canonical_message-form : (p : Message) → canonical_message p ≡ form p
unfolding canonical_message form listed value_of pick
canonical_message-form p = refl

-- Two messages have the same canonical form exactly if they agree on the domain, the chain, the
-- market, the nonce, the time and the outcome cut down to the listed names.
pub canonical_message-covered :
    (p q : Message) → (canonical_message p ≡ canonical_message q) ↔ (covered p ≡ covered q)
unfolding covered form
canonical_message-covered p q =
    let a = canonical_message-form p in
    let b = canonical_message-form q in (λ e. ground (arith, a, b), λ e. ground (arith, a, b))

canonical_message-member :
    (p : Message) (k : String) (v : Json) (before after : Fields)
    → Outside message_keys k
    → canonical_message (record p { outcome = obj (joined before (field k v after)) })
      ≡ canonical_message (record p { outcome = obj (joined before after) })
unfolding form
canonical_message-member p k v before after h =
    let a = canonical_message-form (record p { outcome = obj (joined before (field k v after)) }) in
    let b = canonical_message-form (record p { outcome = obj (joined before after) }) in
    let e = picked message_keys k v before after h in rw (a, b, e) refl

-- A member of the outcome object whose name is none of the six names of the message can be added,
-- changed or left out, at any place, and the message hashes to the same canonical form: whether the
-- signature is accepted does not depend on it.
pub check_signature-member :
    {E : Type 0} (verify : Verifier) (p : Message) (k : String) (v : Json) (before after : Fields)
    → Outside message_keys k
    → (canonical_message (record p { outcome = obj (joined before (field k v after)) })
        ≡ canonical_message (record p { outcome = obj (joined before after) }))
      × (check_signature {E = E} verify
            (record p { outcome = obj (joined before (field k v after)) })
          ≡ check_signature {E = E} verify (record p { outcome = obj (joined before after) }))
unfolding check_signature
check_signature-member verify p k v before after h =
    let a = canonical_message-member p k v before after h in (a, rw (check_signature, a) refl)
