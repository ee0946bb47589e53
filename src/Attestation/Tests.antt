-- ===== src/Attestation/Tests.antt =====
-- Runs of the attestation check of indexer/src/oracle.js, with a list as the table of nonces and
-- a verifier that knows one signature.
use Prim.Native.String.{String}
use text.Mathlib.Text.{◌==◌ as str_eq}
use text.Mathlib.TextEquality.{eq_iff}
use pero_j.Base.{
  ◌≡◌, ◌≢◌, ◌↔◌, ◌&&◌, ◌||◌, refl, Bool, true, false, some, List, [], ◌∷◌, returned, thrown, ◌≤◌,
  if◌then◌else◌, arith,
}
use pero_j.Base.Int.{pos, ◌-ℤ◌}
use pero_j.Attestation.{
  Payload, Message, Verifier, NonceTable, Insertion, inserted, unique_violation, domain_separator,
  canonical_message, check_fields, required, stated, finite, refuse_if, check_replay,
  check_signature, check, consume, verify_and_consume, replay_detected, refused, signature_expired,
}
use pero_j.Attestation.Values.{Json, str, obj, field, end, value_of, listed, pick}
use pero_j.Attestation.Canonical.{Outside, joined, check_signature-member}
use pero_j.Attestation.Accept.{IsAccepted, verify_and_consume-accepts}
use pero_j.Attestation.Replay.{Service, UniqueTable, times, Reachable, reachable-times}

program : Unit {0}
unfolding canonical_message check_fields required stated finite refuse_if check_replay
    check_signature check consume verify_and_consume value_of listed pick ◌-ℤ◌
program = tt

abbrev Rows : Type 0
Rows = List (String × String)

unfoldable stands : String → String → Rows → Bool
stands p n [] = false
stands p n ((q, k) ∷ rows) = let rest = stands p n rows in (str_eq q p && str_eq k n) || rest

unfoldable record_row : Message → Rows → Insertion Rows (Unit {0})
record_row m rows =
    if stands m.provider_id m.nonce rows
    then unique_violation
    else inserted ((m.provider_id, m.nonce) ∷ rows)

abbrev rows_table : NonceTable Rows (Unit {0})
rows_table = record {
  is_nonce_consumed = λ p n rows. returned (stands p n rows);
  record_oracle_nonce = record_row;
}

row_added :
    (m : Message) (s s' : Rows) → record_row m s ≡ inserted s' → s' ≡ (m.provider_id, m.nonce) ∷ s
unfolding record_row
row_added m s s' h = ground arith

str_eq_refl : (s : String) → str_eq s s ≡ true
str_eq_refl s = (eq_iff s s).1 refl

row_holds :
    (m : Message) (s s' : Rows)
    → record_row m s ≡ inserted s'
    → stands m.provider_id m.nonce s' ≡ true
unfolding record_row stands
row_holds m s s' h = rw (row_added m s s' h, str_eq_refl m.provider_id, str_eq_refl m.nonce) refl

row_keeps :
    (m : Message) (s s' : Rows) (p n : String)
    → record_row m s ≡ inserted s'
    → stands p n s ≡ true
    → stands p n s' ≡ true
unfolding record_row stands
row_keeps m s s' p n h k = rw (row_added m s s' h) (ground (arith, k))

row_refuses :
    (m : Message) (s s' : Rows)
    → stands m.provider_id m.nonce s ≡ true
    → record_row m s ≢ inserted s'
unfolding record_row
row_refuses m s s' k h = ground arith

abbrev rows_unique : UniqueTable Rows (Unit {0})
rows_unique = record {
  table = rows_table;
  Holds = λ p n s. stands p n s ≡ true;
  insert_holds = row_holds;
  insert_keeps = row_keeps;
  insert_refuses = row_refuses;
}

abbrev knows : Verifier
knows canonical provider signature = some (str_eq provider "GA" && str_eq signature "s1")

abbrev outcome : Json
outcome = obj (field "winner" (str "YES") end)

abbrev payload : Payload
payload = record {
  domain = some domain_separator;
  chain_id = some "testnet";
  market_id = some "7";
  nonce = some "n1";
  timestamp = some (pos 1000000);
  outcome = some outcome;
  provider_id = some "GA";
  signature = some "s1";
}

abbrev message : Message
message = record {
  domain = domain_separator;
  chain_id = "testnet";
  market_id = "7";
  nonce = "n1";
  timestamp = pos 1000000;
  outcome = outcome;
  provider_id = "GA";
  signature = "s1";
}

accepted_once :
    verify_and_consume knows rows_table (some payload) (pos 1100000) []
    ≡ (returned tt, ("GA", "n1") ∷ [])
unfolding program record_row stands
accepted_once = refl

refused_then :
    (verify_and_consume knows rows_table (some payload) (pos 1100001) (("GA", "n1") ∷ [])).0
    ≡ thrown (refused replay_detected)
unfolding program record_row stands
refused_then = refl

too_old :
    (verify_and_consume knows rows_table (some payload) (pos 1300001) []).0
    ≡ thrown (refused signature_expired)
unfolding program record_row stands
too_old = refl

verify_and_consume-accepts_example :
    (verify_and_consume knows rows_table (some payload) (pos 1100000) []
      ≡ (returned tt, ("GA", "n1") ∷ []))
    ↔ ((m : Message) × IsAccepted knows rows_table payload (pos 1100000) [] (("GA", "n1") ∷ []) m)
verify_and_consume-accepts_example =
    verify_and_consume-accepts knows rows_table payload (pos 1100000) [] (("GA", "n1") ∷ [])

-- The outcome names a winner, first among its members.
abbrev named_winner : Message
named_winner = record message {
  outcome = obj (joined end (field "winner" (str "NO") (field "nonce" (str "n") end)));
}

abbrev no_winner : Message
no_winner = record message { outcome = obj (joined end (field "nonce" (str "n") end)) }

check_signature-member_example :
    (canonical_message named_winner ≡ canonical_message no_winner)
    × (check_signature {E = Unit {0}} knows named_winner
        ≡ check_signature {E = Unit {0}} knows no_winner)
unfolding Outside
check_signature-member_example =
    check_signature-member knows message "winner" (str "NO") end (field "nonce" (str "n") end)
      (refl, (refl, (refl, (refl, (refl, (refl, tt))))))

-- Two calls check the same payload before either writes.
abbrev both : Service Rows
both = record { table = ("GA", "n1") ∷ []; waiting = []; accepted = message ∷ [] }

both-Reachable : Reachable knows rows_unique [] both
unfolding program record_row stands
both-Reachable =
    Reachable.failed message (refused replay_detected) (("GA", "n1") ∷ []) (("GA", "n1") ∷ []) [] []
      (message ∷ []) refl
      (Reachable.wrote message [] (("GA", "n1") ∷ []) [] (message ∷ []) [] refl (
        Reachable.checked (some payload) (pos 1100000) message [] (message ∷ []) [] refl
          (Reachable.checked (some payload) (pos 1100001) message [] [] [] refl Reachable.started)))

reachable-times_example : times "GA" "n1" (message ∷ []) ≤ 1
reachable-times_example = reachable-times knows rows_unique [] both both-Reachable "GA" "n1"
