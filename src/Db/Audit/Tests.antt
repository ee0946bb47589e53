-- ===== src/Db/Audit/Tests.antt =====
-- Runs of the audit log of indexer/src/db.js.
use mathlib.Core.List.{Permᴰ}
use native.Mathlib.Decide.{ℕ_discrete}
use pero_j.Base.{ℕ, [], ◌∷◌, ◌≡◌, refl, returned, thrown, arith}
use pero_j.Base.Codes.{Text, Text-discrete}
use pero_j.Base.Dict.{Dict}
use pero_j.Db.Order.{place, order_by}
use pero_j.Db.Audit.{
  Evidence, Header, AuditLog, text_lt, sorted_entries, bundle_of, insert_unless, insert_log,
  get_resolution_audit_log, same_evidence, answer_insert, create_resolution_audit_log,
  conflicting_evidence,
}
use pero_j.Db.Audit.Canonical.{HasNames}
use pero_j.Db.Audit.Immutable.{create_all, reordered, create-reordered}

program : Unit {0}
unfolding Text-discrete ℕ_discrete place order_by text_lt sorted_entries bundle_of insert_unless
    insert_log get_resolution_audit_log same_evidence answer_insert create_resolution_audit_log
    create_all reordered HasNames
program = tt

abbrev etag : Header
etag = (101 ∷ [], 49 ∷ [])

abbrev date : Header
date = (100 ∷ [], 50 ∷ [])

abbrev evidence : ℕ → Evidence
evidence status = record {
  submission_id = 55 ∷ [];
  response_payload = 111 ∷ [];
  response_status = status;
  response_headers = etag ∷ date ∷ [];
  resolved_at = 48 ∷ [];
}

-- In place of the hash, the status.
abbrev status_of : Evidence → ℕ
status_of e = e.response_status

abbrev no_logs : Dict Text (AuditLog ℕ)
no_logs = []

abbrev first : AuditLog ℕ
first = record { id = 1; bundle = bundle_of (evidence 200); evidence_hash = 200 }

conflict :
    (create_resolution_audit_log Text-discrete status_of ℕ_discrete
      (evidence 404)
      (create_all Text-discrete status_of ℕ_discrete (evidence 200 ∷ []) no_logs)).0
    ≡ thrown (conflicting_evidence (55 ∷ []))
unfolding program
conflict = refl

create-reordered_example :
    let later =
      create_all Text-discrete status_of ℕ_discrete
        (evidence 404 ∷ [])
        (create_resolution_audit_log Text-discrete status_of ℕ_discrete (evidence 200) no_logs).1 in
    create_resolution_audit_log Text-discrete status_of ℕ_discrete
      (reordered (date ∷ etag ∷ []) (evidence 200))
      later
    ≡ (returned first, later)
unfolding program
create-reordered_example =
    create-reordered Text-discrete status_of ℕ_discrete (evidence 200) (date ∷ etag ∷ [])
      (evidence 404 ∷ []) first no_logs (((λ p. absurd (ground (arith, p))), tt), (tt, tt))
      (Permᴰ.swap refl refl) refl
