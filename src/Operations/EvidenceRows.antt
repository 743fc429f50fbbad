-- ===== src/Operations/EvidenceRows.antt =====
-- `_save_in_connection` of evidence_repository.py: the two parts of a bundle become rows, once.
use opercerta.Common.{ℕ, ◌+◌, String, not, ◌&&◌, Option, none, some, ◌==◌, decide}
use opercerta.Domain.Errors.{Uuid, ok, evidence_conflict, operation_not_found, raise_if}
use opercerta.Domain.Contracts.{is_none}
use opercerta.Domain.Values.{Digest, seconds}
use opercerta.Domain.Facts.{Bundle, EvidenceContent}
use opercerta.Store.Table.{get, insert, find_row}
use opercerta.Store.Schema.{Specification, Specification-discrete, Evidence, Db}
use opercerta.Store.Tx.{Tx, lift, query, ◌>>◌}

-- the rows' ids and the time, from `uuid4` and `datetime.now`
pub record EvidenceStamp : Type 0 where
  pub subject_id : Uuid
  pub policy_id : Uuid
  pub created_at : ℕ

module _ (hash_json : EvidenceContent → Digest) where
  abbrev specification : Uuid → String → String → String → ℕ → ℕ → EvidenceContent → Specification
  specification id kind tool version at ttl content = record {
    evidence_id = id;
    evidence_type = kind;
    source_tool = tool;
    source_version = version;
    captured_at = at;
    expires_at = at + seconds ttl;
    content = content;
    content_hash = hash_json content;
  }

  abbrev pub specifications : Bundle → Specification × Specification
  specifications (Bundle.inventory b) = (
    specification b.inventory.evidence_id "inventory" "inventory" b.inventory.source_version
        b.inventory.captured_at b.policy.evidence_ttl_seconds
        (EvidenceContent.inventory b.inventory),
    specification b.policy.evidence_id "policy" "policy" b.policy.rule_version b.policy.captured_at
        b.policy.evidence_ttl_seconds (EvidenceContent.replenishment_policy b.policy),
  )
  specifications (Bundle.equipment b) = (
    specification b.equipment.evidence_id "equipment" "equipment.get_status"
        b.equipment.source_version b.equipment.captured_at b.policy.evidence_ttl_seconds
        (EvidenceContent.equipment b.equipment),
    specification b.policy.evidence_id "policy" "policy" b.policy.rule_version b.policy.captured_at
        b.policy.evidence_ttl_seconds (EvidenceContent.maintenance_policy b.policy),
  )
  specifications (Bundle.task b) = (
    specification b.task.evidence_id "task" "task.get_status" b.task.source_version
        b.task.captured_at b.policy.evidence_ttl_seconds (EvidenceContent.task b.task),
    specification b.policy.evidence_id "policy" "policy" b.policy.rule_version b.policy.captured_at
        b.policy.evidence_ttl_seconds (EvidenceContent.recovery_policy b.policy),
  )

-- the row of an operation's evidence id, among the rows that were there
abbrev pub existing_row : Uuid → Uuid → Db → Option (Uuid × Evidence)
existing_row operation_id evidence_id db =
    find_row
      (λ (r : Evidence).
        r.operation_id == operation_id && r.specification.evidence_id == evidence_id)
      db.evidence

-- one turn of the loop: a row that is there must match, and one that is not is inserted
unfoldable pub save_one : Uuid → Uuid → ℕ → Specification → Tx (Unit {0})
save_one operation_id row_id at s db = elim (existing_row operation_id s.evidence_id db) [
  | some (_, r) ↦
      lift (raise_if (not (decide (Specification-discrete r.specification s))) evidence_conflict) db
  | none ↦ ok (
    tt,
    record db {
      evidence =
          insert row_id (record { operation_id = operation_id; specification = s; created_at = at })
            db.evidence;
    },
  )
]

unfoldable pub save_evidence :
    (EvidenceContent → Digest) → Uuid → Bundle → EvidenceStamp → Tx (Unit {0})
unfolding save_one
save_evidence hash_json operation_id bundle stamp = do
  let (subject, policy) = specifications hash_json bundle
  lift (raise_if (subject.evidence_id == policy.evidence_id) evidence_conflict)
  save_one operation_id stamp.subject_id stamp.created_at subject
  save_one operation_id stamp.policy_id stamp.created_at policy

-- `_save`, which is `save_bundle` and `save_refresh`: a transaction of its own. The records that the
-- methods return repeat the rows and are left out, as in `save_evidence`.
unfoldable pub save_bundle :
    (EvidenceContent → Digest) → Uuid → Bundle → EvidenceStamp → Tx (Unit {0})
save_bundle hash_json operation_id bundle stamp = do
  query
      (λ db. raise_if (is_none (get operation_id db.operations)) (operation_not_found operation_id))
  save_evidence hash_json operation_id bundle stamp
