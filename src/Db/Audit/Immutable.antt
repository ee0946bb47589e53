-- ===== src/Db/Audit/Immutable.antt =====
-- What `createResolutionAuditLog` of indexer/src/db.js stored stays, and is found again.
use mathlib.Core.List.{Permᴰ}
use pero_j.Base.Codes.{Text}
use pero_j.Base.{
  suc, none, some, List, [], ◌∷◌, ◌≡◌, refl, sym, ap, ◌∙◌, inl, inr, arith, Outcome, returned,
  thrown, Option-cases, length,
}
use mathlib.Core.Logic.{if_pos, if_neg}
use pero_j.Base.Dict.{lookup, insert, lookup-insert_self, lookup-insert_ne}
use pero_j.Db.Audit.{
  Evidence, bundle_of, AuditLog, Logs, insert_log, insert_unless, answer_insert,
  get_resolution_audit_log, same_evidence, create_resolution_audit_log, AuditConflict, Header,
}
use pero_j.Db.Audit.Canonical.{HasNames, sorted_entries_perm}

-- Evidence with its headers in another order.
unfoldable pub reordered : List Header → Evidence → Evidence
reordered headers e = record {
  submission_id = e.submission_id;
  response_payload = e.response_payload;
  response_status = e.response_status;
  response_headers = headers;
  resolved_at = e.resolved_at;
}

module _ {H : Type 0} (dec : Discrete Text) (digest : Evidence → H) (same : Discrete H) where
  unfoldable pub create_all : List Evidence → Logs dec digest same → Logs dec digest same
  create_all [] logs = logs
  create_all (e ∷ es) logs = create_all es (create_resolution_audit_log dec digest same e logs).1

  absent_some :
      (i j : Text) (row : AuditLog H) (logs : Logs dec digest same)
      → j ≡ i
      → lookup dec i logs ≡ none
      → lookup dec j logs ≡ some row
      → ⊥
  absent_some i j row logs q a h = ground (arith, ap (λ k. lookup dec k logs) q)

  row_of :
      (a b : AuditLog H)
      → ◌≡◌ {A = Outcome AuditConflict (AuditLog H)} (returned a) (returned b)
      → a ≡ b
  row_of a b h = cc

  conflict_returned :
      (c : AuditConflict) (b : AuditLog H)
      → ◌≡◌ {A = Outcome AuditConflict (AuditLog H)} (thrown c) (returned b)
      → ⊥
  conflict_returned c b h = cc

  same_row :
      (bundle : Evidence) (a b : AuditLog H)
      → same_evidence dec digest same bundle (some a) ≡ returned b
      → (a ≡ b) × (a.evidence_hash ≡ digest bundle)
  unfolding same_evidence
  same_row bundle a b h = elim (same a.evidence_hash (digest bundle)) [
    | yes p ↦ (row_of a b (sym (if_pos (same a.evidence_hash (digest bundle)) p _ _) ∙ h), p)
    | no p ↦
        absurd
          (conflict_returned _ b (sym (if_neg (same a.evidence_hash (digest bundle)) p _ _) ∙ h))
  ]

  -- A bundle that is new is stored.
  create_new :
      (e : Evidence) (logs : Logs dec digest same)
      → lookup dec (bundle_of e).submission_id logs ≡ none
      → (row : AuditLog H) × (create_resolution_audit_log dec digest same e logs
          ≡ (returned row, insert dec (bundle_of e).submission_id row logs))
        × (row.evidence_hash ≡ digest (bundle_of e))
  unfolding create_resolution_audit_log insert_log insert_unless answer_insert
  create_new e logs a = (
    record { id = suc (length logs); bundle = bundle_of e; evidence_hash = digest (bundle_of e) },
    ap
        (λ o.
          answer_insert dec digest same (bundle_of e)
            (insert_unless dec digest same (bundle_of e) logs o))
        a,
    refl,
  )

  -- Otherwise nothing is stored, and the call answers with what is there.
  create_known :
      (e : Evidence) (row : AuditLog H) (logs : Logs dec digest same)
      → lookup dec (bundle_of e).submission_id logs ≡ some row
      → create_resolution_audit_log dec digest same e logs
        ≡ (same_evidence dec digest same (bundle_of e) (some row), logs)
  unfolding create_resolution_audit_log insert_log insert_unless answer_insert
      get_resolution_audit_log
  create_known e row logs p =
      ap
        (λ o.
          answer_insert dec digest same (bundle_of e)
            (insert_unless dec digest same (bundle_of e) logs o))
        p
      ∙ ap (λ o. (same_evidence dec digest same (bundle_of e) o, logs)) p

  pub create_kept :
      (e : Evidence) (id : Text) (row : AuditLog H) (logs : Logs dec digest same)
      → lookup dec id logs ≡ some row
      → lookup dec id (create_resolution_audit_log dec digest same e logs).1 ≡ some row
  create_kept e id row logs h =
      let key = (bundle_of e).submission_id in
      elim (Option-cases (lookup dec key logs)) [
        | inl a ↦
            let k = create_new e logs a in
            rw k.1
              (lookup-insert_ne dec id key k.0 logs (λ q. absent_some key id row logs q a h) ∙ h)
        | inr p ↦ rw (create_known e p.0 logs p.1) h
      ]

  all_kept :
      (es : List Evidence) (id : Text) (row : AuditLog H) (logs : Logs dec digest same)
      → lookup dec id logs ≡ some row
      → lookup dec id (create_all es logs) ≡ some row
  unfolding create_all
  all_kept [] id row logs h = h
  all_kept (e ∷ es) id row logs h = all_kept es id row _ (create_kept e id row logs h)

  -- A call that returns a record leaves it in the table.
  pub create_returned :
      (e : Evidence) (row : AuditLog H) (logs : Logs dec digest same)
      → (create_resolution_audit_log dec digest same e logs).0 ≡ returned row
      → (lookup dec
            (bundle_of e).submission_id
            (create_resolution_audit_log dec digest same e logs).1
          ≡ some row)
        × (row.evidence_hash ≡ digest (bundle_of e))
  unfolding same_evidence
  create_returned e row logs h =
      let key = (bundle_of e).submission_id in
      elim (Option-cases (lookup dec key logs)) [
        | inl a ↦
            let k = create_new e logs a in
            let q = row_of k.0 row (sym (ap (λ r. r.0) k.1) ∙ h) in
            (
              rw k.1 (lookup-insert_self dec key k.0 logs ∙ ap some q),
              ap (λ r. r.evidence_hash) (sym q) ∙ k.2,
            )
        | inr p ↦
            let k = create_known e p.0 logs p.1 in
            let q = same_row (bundle_of e) p.0 row (sym (ap (λ r. r.0) k) ∙ h) in
            (rw k (p.1 ∙ ap some q.0), ap (λ r. r.evidence_hash) (sym q.0) ∙ q.1)
      ]

  -- Once a call has returned a record of some evidence, whatever evidence is submitted after it, a
  -- call with the same evidence, its headers in any order, returns that same record and changes
  -- nothing, if no header name stands twice.
  pub create-reordered :
      (e : Evidence) (headers : List Header) (es : List Evidence) (row : AuditLog H)
      (logs : Logs dec digest same)
      → HasNames e.response_headers
      → Permᴰ e.response_headers headers
      → (create_resolution_audit_log dec digest same e logs).0 ≡ returned row
      → let later = create_all es (create_resolution_audit_log dec digest same e logs).1 in
        create_resolution_audit_log dec digest same (reordered headers e) later
        ≡ (returned row, later)
  unfolding reordered bundle_of same_evidence
  create-reordered e headers es row logs names perm h =
      let r = create_returned e row logs h in
      let later = create_all es (create_resolution_audit_log dec digest same e logs).1 in
      let kept = all_kept es (bundle_of e).submission_id row _ r.0 in
      let b : bundle_of e ≡ bundle_of (reordered headers e) =
        ap (λ hs. reordered hs e) (sorted_entries_perm _ _ names perm) in
      create_known (reordered headers e) row later kept
      ∙ ap (λ o. (o, later))
          (if_pos (same row.evidence_hash (digest (bundle_of (reordered headers e))))
            (r.1 ∙ ap digest b) _ _)
