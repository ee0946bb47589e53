-- ===== src/Attestation/Accept.antt =====
-- When `verifyAndConsumeOracleAttestation` of indexer/src/oracle.js accepts a payload.
use Prim.Native.String.{String}
use text.Mathlib.Text.{◌==◌ as str_eq}
use text.Mathlib.TextEquality.{eq_iff}
use pero_j.Base.{
  ◌≡◌, ◌≢◌, ◌↔◌, refl, Bool, true, false, Option, none, some, Outcome, returned, thrown, ◌>>=◌,
  ◌>>◌, Bool-cases, inl, inr, subst, not, arith,
}
use pero_j.Base.Int.{ℤ, pos, ◌-ℤ◌, ltb_ℤ}
use pero_j.Base.Text.{is_empty}
use pero_j.Attestation.{
  Payload, Message, Code, Failure, Verifier, NonceTable, inserted, domain_separator,
  max_timestamp_age_ms, max_future_drift_ms, required, invalid_domain, missing_chain_id,
  missing_market_id, missing_nonce, missing_provider_id, missing_signature, signature_expired,
  timestamp_in_future, stated, finite, refuse_if, check_fields, check_replay, check_signature,
  check, consume, verify_and_consume, canonical_message,
}
use pero_j.Attestation.Values.{Json, null, num, str, arr, obj}

-- The payload has the message's fields, none of them empty.
unfoldable pub Carries : Payload → Message → Type 0
Carries p m =
    (p.domain ≡ some m.domain)
    × (p.chain_id ≡ some m.chain_id)
    × (p.market_id ≡ some m.market_id)
    × (p.nonce ≡ some m.nonce)
    × (p.outcome ≡ some m.outcome)
    × (p.provider_id ≡ some m.provider_id)
    × (p.signature ≡ some m.signature)
    × (p.timestamp ≡ some m.timestamp)

unfoldable pub IsComplete : Message → Type 0
IsComplete m =
    (m.domain ≡ domain_separator)
    × (is_empty m.chain_id ≡ false)
    × (is_empty m.market_id ≡ false)
    × (is_empty m.nonce ≡ false)
    × (m.outcome ≢ null)
    × (is_empty m.provider_id ≡ false)
    × (is_empty m.signature ≡ false)

-- At most five minutes old, and at most sixty seconds ahead.
unfoldable pub IsFresh : ℤ → Message → Type 0
IsFresh now m =
    (ltb_ℤ (pos max_timestamp_age_ms) (now -ℤ m.timestamp) ≡ false)
    × (ltb_ℤ (pos max_future_drift_ms) (m.timestamp -ℤ now) ≡ false)

of_returned : {E A : Type 0} (a b : A) → ◌≡◌ {A = Outcome E A} (returned a) (returned b) → a ≡ b
of_returned a b h = cc

same_text : (s : String) → not (str_eq s domain_separator) ≡ false → s ≡ domain_separator
same_text s h = ground (arith, eq_iff s domain_separator)

required_then :
    {E B : Type 0} (o : Option String) (c : Code) (f : String → Outcome (Failure E) B) (b : B)
    → required o c >>= f ≡ returned b
    → (s : String) × (o ≡ some s) × (is_empty s ≡ false) × (f s ≡ returned b)
unfolding required
required_then none c f b h = absurd (cc)
required_then (some s) c f b h = elim (Bool-cases (is_empty s)) [
  | inl e ↦ absurd (ground arith)
  | inr e ↦ (s, refl, e, ground arith)
]

stated_then :
    {E B : Type 0} (o : Option Json) (f : Json → Outcome (Failure E) B) (b : B)
    → stated o >>= f ≡ returned b
    → (x : Json) × (o ≡ some x) × (x ≢ null) × (f x ≡ returned b)
unfolding stated
stated_then none f b h = absurd (cc)
stated_then (some null) f b h = absurd (cc)
stated_then (some (Json.bool x)) f b h = (Json.bool x, refl, ground arith, h)
stated_then (some (num x)) f b h = (num x, refl, ground arith, h)
stated_then (some (str x)) f b h = (str x, refl, ground arith, h)
stated_then (some (arr x)) f b h = (arr x, refl, ground arith, h)
stated_then (some (obj x)) f b h = (obj x, refl, ground arith, h)

finite_then :
    {E B : Type 0} (o : Option ℤ) (f : ℤ → Outcome (Failure E) B) (b : B)
    → finite o >>= f ≡ returned b
    → (x : ℤ) × (o ≡ some x) × (f x ≡ returned b)
unfolding finite
finite_then none f b h = absurd (cc)
finite_then (some x) f b h = (x, refl, h)

refuse_if_then :
    {E B : Type 0} (t : Bool) (c : Code) (k : Outcome (Failure E) B) (b : B)
    → refuse_if t c >> k ≡ returned b
    → (t ≡ false) × (k ≡ returned b)
unfolding refuse_if
refuse_if_then true c k b h = absurd (cc)
refuse_if_then false c k b h = (refl, h)

check_fields-accepted :
    {E : Type 0} (p : Payload) (now : ℤ) (m : Message)
    → check_fields {E = E} (some p) now ≡ returned m
    → Carries p m × IsComplete m × IsFresh now m
unfolding Carries IsComplete IsFresh check_fields
check_fields-accepted p now m h =
    let (domain, d, d', h1) = required_then p.domain invalid_domain _ m h in
    let (r1, h2) = refuse_if_then (not (str_eq domain domain_separator)) invalid_domain _ m h1 in
    let (chain_id, c, c', h3) = required_then p.chain_id missing_chain_id _ m h2 in
    let (market_id, k, k', h4) = required_then p.market_id missing_market_id _ m h3 in
    let (nonce, n, n', h5) = required_then p.nonce missing_nonce _ m h4 in
    let (outcome, o, o', h6) = stated_then p.outcome _ m h5 in
    let (provider_id, v, v', h7) = required_then p.provider_id missing_provider_id _ m h6 in
    let (signature, g, g', h8) = required_then p.signature missing_signature _ m h7 in
    let (ts, t, h9) = finite_then p.timestamp _ m h8 in
    let (r2, h10) =
      refuse_if_then (ltb_ℤ (pos max_timestamp_age_ms) (now -ℤ ts)) signature_expired _ m h9 in
    let (r3, h11) =
      refuse_if_then (ltb_ℤ (pos max_future_drift_ms) (ts -ℤ now)) timestamp_in_future _ m h10 in
    subst (λ x. Carries p x × IsComplete x × IsFresh now x) (of_returned _ _ h11)
      ((d, c, k, n, o, v, g, t), (same_text domain r1, c', k', n', o', v', g'), (r2, r3))

required-some :
    {E : Type 0} (o : Option String) (c : Code) (s : String)
    → o ≡ some s
    → is_empty s ≡ false
    → required {E = E} o c ≡ returned s
unfolding required
required-some o c s p q = rw (p, q) refl

stated-some :
    {E : Type 0} (o : Option Json) (x : Json)
    → o ≡ some x
    → x ≢ null
    → stated {E = E} o ≡ returned x
unfolding stated
stated-some none x p q = absurd (cc)
stated-some (some null) x p q = absurd (q (ground arith))
stated-some (some j) x p q = ground arith

domain_same :
    (m : Message) → m.domain ≡ domain_separator → not (str_eq m.domain domain_separator) ≡ false
domain_same m e = ground (arith, eq_iff m.domain domain_separator)

check_fields_complete :
    {E : Type 0} (p : Payload) (now : ℤ) (m : Message)
    → Carries p m × IsComplete m × IsFresh now m
    → check_fields {E = E} (some p) now ≡ returned m
unfolding Carries IsComplete IsFresh check_fields finite refuse_if
check_fields_complete {E = E} p now m ((d, c, k, n, o, v, g, t), (d', c', k', n', o', v', g'), f) =
    let e1 = required-some {E = E} p.domain invalid_domain m.domain d (rw d' refl) in
    let e2 = required-some {E = E} p.chain_id missing_chain_id m.chain_id c c' in
    let e3 = required-some {E = E} p.market_id missing_market_id m.market_id k k' in
    let e4 = required-some {E = E} p.nonce missing_nonce m.nonce n n' in
    let e5 = stated-some {E = E} p.outcome m.outcome o o' in
    let e6 = required-some {E = E} p.provider_id missing_provider_id m.provider_id v v' in
    let e7 = required-some {E = E} p.signature missing_signature m.signature g g' in
    rw (e1, domain_same m d', e2, e3, e4, e5, e6, e7, t, f.0, f.1) refl

-- Everything that the function asks for, from the table as it is before the call to the table
-- after it.
unfoldable pub IsAccepted :
    {S E : Type 0} → Verifier → NonceTable S E → Payload → ℤ → S → S → Message → Type 0
IsAccepted verify table p now s s' m =
    (Carries p m × IsComplete m × IsFresh now m)
    × (table.is_nonce_consumed m.provider_id m.nonce s ≡ returned false)
    × (verify (canonical_message m) m.provider_id m.signature ≡ some true)
    × (table.record_oracle_nonce m s ≡ inserted s')

module _ {S E : Type 0} (verify : Verifier) (table : NonceTable S E) where
  checked :
      (p : Payload) (now : ℤ) (s : S) (m : Message)
      → check verify table (some p) now s ≡ returned m
      → (Carries p m × IsComplete m × IsFresh now m)
        × (table.is_nonce_consumed m.provider_id m.nonce s ≡ returned false)
        × (verify (canonical_message m) m.provider_id m.signature ≡ some true)
  unfolding check check_replay check_signature refuse_if
  checked p now s m h = ground (arith, check_fields-accepted {E = E} p now m)

  passed :
      (p : Payload) (now : ℤ) (s : S) (m : Message)
      → (Carries p m × IsComplete m × IsFresh now m)
      → table.is_nonce_consumed m.provider_id m.nonce s ≡ returned false
      → verify (canonical_message m) m.provider_id m.signature ≡ some true
      → check verify table (some p) now s ≡ returned m
  unfolding check check_replay check_signature refuse_if
  passed p now s m f c v =
      let e = check_fields_complete {E = E} p now m f in
      rw (e, check_replay, check_signature, c, v) refl

  consumed :
      (m : Message) (s s' : S)
      → consume table m s ≡ (returned tt, s')
      → table.record_oracle_nonce m s ≡ inserted s'
  unfolding consume
  consumed m s s' h = ground arith

  checked_by :
      (p : Payload) (now : ℤ) (s s' : S) (r : Outcome (Failure E) Message)
      → check verify table (some p) now s ≡ r
      → verify_and_consume verify table (some p) now s ≡ (returned tt, s')
      → (m : Message) × IsAccepted verify table p now s s' m
  unfolding verify_and_consume IsAccepted
  checked_by p now s s' (thrown x) e h = absurd (ground arith)
  checked_by p now s s' (returned m) e h =
      let (f, c, v) = checked p now s m e in (m, (f, c, v, consumed m s s' (ground arith)))

  -- A payload is accepted, and the table goes from `s` to `s'`, exactly if: it has all fields,
  -- the domain is the separator and no text is empty, it is at most five minutes old and at most
  -- sixty seconds ahead, its provider has not consumed its nonce, its signature verifies over the
  -- canonical message, and the insertion of its nonce into `s` succeeds and gives `s'`.
  pub verify_and_consume-accepts :
      (p : Payload) (now : ℤ) (s s' : S)
      → (verify_and_consume verify table (some p) now s ≡ (returned tt, s'))
        ↔ ((m : Message) × IsAccepted verify table p now s s' m)
  unfolding verify_and_consume IsAccepted consume
  verify_and_consume-accepts p now s s' = (
    λ h. checked_by p now s s' (check verify table (some p) now s) refl h,
    λ (m, (f, c, v, i)). rw (verify_and_consume, passed p now s m f c v, consume, i) refl,
  )
