-- ===== src/Operations/Frame.antt =====
-- What a `_transition` leaves alone, for every way in which the repository calls it.
use opercerta.Common.{
  ℕ, ◌≡◌, Bool, some, ◌==◌, ==_iff, arith, inl, inr, Option-cases, if◌then◌else◌,
}
use opercerta.Domain.Errors.{Uuid, ok, raise_if, evidence_conflict, Result-cases}
use opercerta.Domain.Values.{Digest}
use opercerta.Domain.Facts.{Bundle, EvidenceContent}
use opercerta.Store.Table.{get, get-update}
use opercerta.Store.Schema.{Specification, Db}
use opercerta.Store.Tx.{Tx, lift, pure, ◌>>◌}
use opercerta.Operations.EvidenceRows.{
  EvidenceStamp, existing_row, save_one, save_evidence, save_bundle, specifications,
}
use opercerta.Operations.Transition.{Transition, Stamp, changed_operation}
use opercerta.Operations.Transition.Inversion.{Changed}

-- all tables but that of the evidence are as they were
pub record SameRows (db db' : Db) : Type 0 where
  pub operations : db'.operations ≡ db.operations
  pub approvals : db'.approvals ≡ db.approvals
  pub work_orders : db'.work_orders ≡ db.work_orders
  pub operational_signals : db'.operational_signals ≡ db.operational_signals
  pub audit_events : db'.audit_events ≡ db.audit_events

-- the write inside a transition touches the evidence alone
pub record WritesEvidence (w : Tx (Unit {0})) : Type 0 where
  pub at : (db db' : Db) → w db ≡ ok (tt, db') → SameRows db db'

pub pure-WritesEvidence : WritesEvidence (pure tt)
pure-WritesEvidence = record { at = λ db db' h. ground arith }

save_one-WritesEvidence :
    (id row_id : Uuid) (at : ℕ) (s : Specification) → WritesEvidence (save_one id row_id at s)
unfolding save_one
save_one-WritesEvidence id row_id at s = record {
  at = λ db db' h. elim (Option-cases (existing_row id s.evidence_id db)) [
    | inl e ↦ ground arith
    | inr (r, e) ↦ ground arith
  ];
}

bind-WritesEvidence :
    (m n : Tx (Unit {0})) → WritesEvidence m → WritesEvidence n → WritesEvidence (m >> n)
bind-WritesEvidence m n km kn = record {
  at = λ db db' h. elim (Result-cases (m db)) [
    | inl ((u, db₁), e) ↦ ground (arith, km.at db db₁, kn.at db₁ db')
    | inr (e, f) ↦ absurd (ground arith)
  ];
}

raise_if-WritesEvidence : (b : Bool) → WritesEvidence (lift (raise_if b evidence_conflict))
raise_if-WritesEvidence b = record { at = λ db db' h. ground arith }

pub save_evidence-WritesEvidence :
    (hash_json : EvidenceContent → Digest) (id : Uuid) (bundle : Bundle) (stamp : EvidenceStamp)
    → WritesEvidence (save_evidence hash_json id bundle stamp)
unfolding save_evidence
save_evidence-WritesEvidence hash_json id bundle stamp =
    let (subject, policy) = specifications hash_json bundle in
    bind-WritesEvidence _ _ (raise_if-WritesEvidence (subject.evidence_id == policy.evidence_id)) (
      bind-WritesEvidence _ _ (save_one-WritesEvidence id stamp.subject_id stamp.created_at subject)
        (save_one-WritesEvidence id stamp.policy_id stamp.created_at policy))

pub save_bundle-SameRows :
    (hash_json : EvidenceContent → Digest) (id : Uuid) (bundle : Bundle) (stamp : EvidenceStamp)
    (db db' : Db)
    → save_bundle hash_json id bundle stamp db ≡ ok (tt, db')
    → SameRows db db'
unfolding save_bundle
save_bundle-SameRows hash_json id bundle stamp db db' h =
    (save_evidence-WritesEvidence hash_json id bundle stamp).at db db' (ground arith)

-- The row of every operation after a change.
module _ (id : Uuid) (t : Transition) (at : Stamp) (db db' : Db)
    (frame : WritesEvidence t.transaction_write) (c : Changed id t at db db') where
  pub operations_after :
      (j : Uuid)
      → get j db'.operations
        ≡ (if id == j then some (changed_operation t c.next at.now c.op) else get j db.operations)
  operations_after j =
      rw c.rows
        (rw get-update (ground (arith, frame.at db c.written c.wrote, ==_iff id j, c.found)))

  pub approvals_after : db'.approvals ≡ db.approvals
  approvals_after = ground (arith, c.rows, frame.at db c.written c.wrote)

  pub work_orders_after : db'.work_orders ≡ db.work_orders
  work_orders_after = ground (arith, c.rows, frame.at db c.written c.wrote)
