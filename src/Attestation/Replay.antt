-- ===== src/Attestation/Replay.antt =====
-- Concurrent calls of `verifyAndConsumeOracleAttestation` of indexer/src/oracle.js. A call reads
-- the table once (check) and writes it once (consume), and other calls run in between.
use Prim.Native.String.{String}
use text.Mathlib.Text.{◌==◌ as str_eq}
use text.Mathlib.TextEquality.{eq_iff}
use pero_j.Base.{
  ◌++◌, ◌&&◌, subst, sym, if◌then◌else◌, Bool-cases, ◌≡◌, ◌≢◌, ◌⊎◌, inl, inr, refl, Bool, true,
  Option, List, [], ◌∷◌, returned, thrown, ℕ, ◌≤◌, arith, suc,
}
use pero_j.Base.Int.{ℤ}
use pero_j.Attestation.{Payload, Message, Failure, Verifier, NonceTable, inserted, check, consume}

-- The calls under way, each with the message that it has checked, the table, and the messages
-- accepted so far, latest first.
pub record Service (S : Type 0) : Type 0 where
  pub table : S
  pub waiting : List Message
  pub accepted : List Message

-- What the table's unique constraint on provider and nonce gives: a row that went in is there,
-- rows stay, and a second row with the same provider and nonce is refused.
pub record UniqueTable (S E : Type 0) : Type 1 where
  pub table : NonceTable S E
  pub Holds : String → String → S → Type 0
  pub insert_holds :
      (m : Message) (s s' : S)
      → table.record_oracle_nonce m s ≡ inserted s'
      → Holds m.provider_id m.nonce s'
  pub insert_keeps :
      (m : Message) (s s' : S) (p n : String)
      → table.record_oracle_nonce m s ≡ inserted s'
      → Holds p n s
      → Holds p n s'
  pub insert_refuses :
      (m : Message) (s s' : S)
      → Holds m.provider_id m.nonce s
      → table.record_oracle_nonce m s ≢ inserted s'

unfoldable pub same : String → String → Message → Bool
same p n m = str_eq m.provider_id p && str_eq m.nonce n

same-true : (p n : String) (m : Message) → same p n m ≡ true → (m.provider_id ≡ p) × (m.nonce ≡ n)
unfolding same
same-true p n m h = ground (arith, eq_iff m.provider_id p, eq_iff m.nonce n)

-- How often a provider's nonce was accepted.
unfoldable pub times : String → String → List Message → ℕ
times p n [] = 0
times p n (m ∷ ms) = let rest = times p n ms in if same p n m then suc rest else rest

subst2 :
    {A B : Type 0} (P : A → B → Type 0) {a a' : A} {b b' : B} → a ≡ a' → b ≡ b' → P a b → P a' b'
subst2 P {a = a} {b' = b'} p q x = subst (λ z. P z b') p (subst (P a) q x)

module _ {S E : Type 0} (verify : Verifier) (unique : UniqueTable S E) where
  -- Any waiting call may write next, not only the oldest. Whether it does or fails, it is over.
  pub data Reachable (s : S) : Service S → Type 0 where
    started : Reachable s (record { table = s; waiting = []; accepted = [] })
    checked :
        (payload : Option Payload) (now : ℤ) (m : Message) (t : S) (ws acc : List Message)
        → check verify unique.table payload now t ≡ returned m
        → Reachable s (record { table = t; waiting = ws; accepted = acc })
        → Reachable s (record { table = t; waiting = m ∷ ws; accepted = acc })
    wrote :
        (m : Message) (t t' : S) (before behind acc : List Message)
        → consume unique.table m t ≡ (returned tt, t')
        → Reachable s (record { table = t; waiting = before ++ m ∷ behind; accepted = acc })
        → Reachable s (record { table = t'; waiting = before ++ behind; accepted = m ∷ acc })
    failed :
        (m : Message) (x : Failure E) (t t' : S) (before behind acc : List Message)
        → consume unique.table m t ≡ (thrown x, t')
        → Reachable s (record { table = t; waiting = before ++ m ∷ behind; accepted = acc })
        → Reachable s (record { table = t'; waiting = before ++ behind; accepted = acc })

  unfoldable Once : Service S → String → String → Type 0
  Once v p n = (times p n v.accepted ≡ 0) ⊎ ((times p n v.accepted ≡ 1) × unique.Holds p n v.table)

  consume_wrote :
      (m : Message) (t t' : S)
      → consume unique.table m t ≡ (returned tt, t')
      → unique.table.record_oracle_nonce m t ≡ inserted t'
  unfolding consume
  consume_wrote m t t' h = ground arith

  consume_failed :
      (m : Message) (x : Failure E) (t t' : S) → consume unique.table m t ≡ (thrown x, t') → t ≡ t'
  unfolding consume
  consume_failed m x t t' h = ground arith

  write-Once :
      (m : Message) (t t' : S) (ws us acc : List Message) (p n : String)
      → unique.table.record_oracle_nonce m t ≡ inserted t'
      → Once (record { table = t; waiting = ws; accepted = acc }) p n
      → Once (record { table = t'; waiting = us; accepted = m ∷ acc }) p n
  unfolding Once times
  write-Once m t t' ws us acc p n i h = elim (Bool-cases (same p n m)) [
    | inl e ↦
        let (a, b) = same-true p n m e in
        let held = subst2 (λ x y. unique.Holds x y t') a b (unique.insert_holds m t t' i) in
        elim h [
          | inl z ↦ inr (ground (arith, e, z), held)
          | inr (o, k) ↦ absurd (
              unique.insert_refuses m t t' (subst2 (λ x y. unique.Holds x y t) (sym a) (sym b) k) i)
        ]
    | inr e ↦ elim h [
      | inl z ↦ inl (ground (arith, e, z))
      | inr (o, k) ↦ inr (ground (arith, e, o), unique.insert_keeps m t t' p n i k)
    ]
  ]

  reachable-Once : (s : S) (v : Service S) → Reachable s v → (p n : String) → Once v p n
  unfolding Once times
  reachable-Once s _ started p n = inl refl
  reachable-Once s _ (checked payload now m t ws acc c r) p n = reachable-Once s _ r p n
  reachable-Once s _ (wrote m t t' before behind acc c r) p n =
      write-Once m t t' (before ++ m ∷ behind) (before ++ behind) acc p n (consume_wrote m t t' c)
        (reachable-Once s _ r p n)
  reachable-Once s _ (failed m x t t' before behind acc c r) p n =
      subst (λ u. Once (record { table = u; waiting = before ++ behind; accepted = acc }) p n)
        (consume_failed m x t t' c) (reachable-Once s _ r p n)

  -- However the reads and writes of concurrent calls interleave, and whatever the calls' payloads
  -- and clocks, no provider's nonce is accepted twice, given the table's unique constraint.
  pub reachable-times :
      (s : S) (v : Service S) → Reachable s v → (p n : String) → times p n v.accepted ≤ 1
  unfolding Once
  reachable-times s v r p n = let h = reachable-Once s v r p n in ground arith
