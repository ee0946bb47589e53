-- ===== src/Api/Evidence/Shown.antt =====
-- Evidence that was recorded through `POST …/evidence` of indexer/src/api.js is shown by
-- `GET …/evidence`.
use pero_j.Base.{
  true, Option, none, some, List, [], ◌∷◌, ◌≡◌, refl, ap, ◌∙◌, inl, inr, Outcome, returned, thrown,
  Bool-cases,
}
use pero_j.Base.Int.{ℤ}
use pero_j.Base.Dict.{lookup}
use pero_j.Base.Codes.{Text}
use pero_j.ScVal.{Js}
use pero_j.Db.Audit.{
  Evidence, AuditLog, AuditConflict, Logs, create_resolution_audit_log, get_resolution_audit_log,
  bundle_of,
}
use pero_j.Db.Audit.Immutable.{create_kept, create_returned}
use pero_j.Api.{
  BadBody, validate_resolution_evidence_payload, normalize_submission_id, require_admin_key,
}
use pero_j.Api.Evidence.{
  EvidenceRequest, recorded, found, members_of, evidence_of, create_reply, with_payload, with_id,
  post_evidence, post_all, show_record, show_id, get_evidence,
}

module _ (key previous : Text) (parse_date : Text → Option ℤ) (to_iso : ℤ → Text) {H : Type 0}
    (dec : Discrete Text) (digest : Evidence → H) (same : Discrete H) where
  reply_logs :
      (c : Outcome AuditConflict (AuditLog H) × Logs dec digest same)
      → (create_reply key previous parse_date to_iso dec digest same c).1 ≡ c.1
  unfolding create_reply
  reply_logs (returned row, logs) = refl
  reply_logs (thrown e, logs) = refl

  payload_kept :
      (id : Text) (body : Js) (checked : Option BadBody) (other : Text) (row : AuditLog H)
      (logs : Logs dec digest same)
      → lookup dec other logs ≡ some row
      → lookup dec other
          (with_payload key previous parse_date to_iso dec digest same id body checked logs).1
        ≡ some row
  unfolding with_payload
  payload_kept id body (some problem) other row logs h = h
  payload_kept id body none other row logs h =
      let e = evidence_of key previous parse_date to_iso dec digest same id (members_of body) in
      ap (lookup dec other) (reply_logs (create_resolution_audit_log dec digest same e logs))
      ∙ create_kept dec digest same e other row logs h

  id_kept :
      (id : Option Text) (body : Js) (other : Text) (row : AuditLog H) (logs : Logs dec digest same)
      → lookup dec other logs ≡ some row
      → lookup dec other (with_id key previous parse_date to_iso dec digest same id body logs).1
        ≡ some row
  unfolding with_id
  id_kept none body other row logs h = h
  id_kept (some id) body other row logs h =
      payload_kept id body (validate_resolution_evidence_payload parse_date body) other row logs h

  post_kept :
      (r : EvidenceRequest) (other : Text) (row : AuditLog H) (logs : Logs dec digest same)
      → lookup dec other logs ≡ some row
      → lookup dec other (post_evidence key previous parse_date to_iso dec digest same r logs).1
        ≡ some row
  unfolding post_evidence
  post_kept r other row logs h =
      elim (Bool-cases (require_admin_key key previous r.authorization)) [
        | inl e ↦ rw e (id_kept (normalize_submission_id r.submission_id) r.body other row logs h)
        | inr e ↦ rw e h
      ]

  posts_kept :
      (rs : List EvidenceRequest) (other : Text) (row : AuditLog H) (logs : Logs dec digest same)
      → lookup dec other logs ≡ some row
      → lookup dec other (post_all key previous parse_date to_iso dec digest same rs logs)
        ≡ some row
  unfolding post_all
  posts_kept [] other row logs h = h
  posts_kept (r ∷ rs) other row logs h = posts_kept rs other row _ (post_kept r other row logs h)

  reply_recorded :
      (c : Outcome AuditConflict (AuditLog H) × Logs dec digest same) (row : AuditLog H)
      → (create_reply key previous parse_date to_iso dec digest same c).0 ≡ recorded row
      → c.0 ≡ returned row
  unfolding create_reply
  reply_recorded (returned a, logs) row h = cc
  reply_recorded (thrown e, logs) row h = absurd (cc)

  payload_recorded :
      (id : Text) (body : Js) (checked : Option BadBody) (row : AuditLog H)
      (logs : Logs dec digest same)
      → (with_payload key previous parse_date to_iso dec digest same id body checked logs).0
        ≡ recorded row
      → (checked ≡ none)
        × (lookup dec id
              (with_payload key previous parse_date to_iso dec digest same id body checked logs).1
            ≡ some row)
  unfolding with_payload bundle_of evidence_of
  payload_recorded id body (some problem) row logs h = absurd (cc)
  payload_recorded id body none row logs h =
      let e = evidence_of key previous parse_date to_iso dec digest same id (members_of body) in
      let call = create_resolution_audit_log dec digest same e logs in
      (
        refl,
        ap (lookup dec id) (reply_logs call)
            ∙ (create_returned dec digest same e row logs (reply_recorded call row h)).0,
      )

  id_recorded :
      (id : Option Text) (body : Js) (row : AuditLog H) (logs : Logs dec digest same)
      → (with_id key previous parse_date to_iso dec digest same id body logs).0 ≡ recorded row
      → (i : Text) × (id ≡ some i)
        × (validate_resolution_evidence_payload parse_date body ≡ none)
        × (lookup dec i (with_id key previous parse_date to_iso dec digest same id body logs).1
            ≡ some row)
  unfolding with_id
  id_recorded none body row logs h = absurd (cc)
  id_recorded (some i) body row logs h =
      let p =
        payload_recorded i body (validate_resolution_evidence_payload parse_date body) row logs h in
      (i, refl, p.0, p.1)

  post_recorded :
      (r : EvidenceRequest) (row : AuditLog H) (logs : Logs dec digest same)
      → (post_evidence key previous parse_date to_iso dec digest same r logs).0 ≡ recorded row
      → (require_admin_key key previous r.authorization ≡ true)
        × (i : Text) × (normalize_submission_id r.submission_id ≡ some i)
        × (validate_resolution_evidence_payload parse_date r.body ≡ none)
        × (lookup dec i (post_evidence key previous parse_date to_iso dec digest same r logs).1
            ≡ some row)
  unfolding post_evidence
  post_recorded r row logs = elim (Bool-cases (require_admin_key key previous r.authorization)) [
    | inl e ↦ rw e (λ h.
        let p = id_recorded (normalize_submission_id r.submission_id) r.body row logs h in
        (refl, p.0, p.1, p.2, p.3))
    | inr e ↦ rw e (λ h. absurd (cc))
  ]

  -- Evidence is recorded only with an accepted key, a valid body and an id of digits. Whatever
  -- requests come after it, every spelling of the id then shows the record.
  pub post_evidence-get_evidence :
      (r : EvidenceRequest) (rs : List EvidenceRequest) (spelling : Text) (row : AuditLog H)
      (logs : Logs dec digest same)
      → (post_evidence key previous parse_date to_iso dec digest same r logs).0 ≡ recorded row
      → normalize_submission_id spelling ≡ normalize_submission_id r.submission_id
      → (require_admin_key key previous r.authorization ≡ true)
        × (validate_resolution_evidence_payload parse_date r.body ≡ none)
        × (get_evidence dec digest same spelling (
              post_all key previous parse_date to_iso dec digest same rs
                (post_evidence key previous parse_date to_iso dec digest same r logs).1)
            ≡ found row)
  unfolding get_evidence get_resolution_audit_log show_id show_record
  post_evidence-get_evidence r rs spelling row logs h same_id =
      let p = post_recorded r row logs h in
      let i = p.1 in
      let after = (post_evidence key previous parse_date to_iso dec digest same r logs).1 in
      let later = post_all key previous parse_date to_iso dec digest same rs after in
      (
        p.0,
        p.3,
        ap (λ o. show_id dec digest same o later) (same_id ∙ p.2)
            ∙ ap (show_record dec digest same) (posts_kept rs i row after p.4),
      )
