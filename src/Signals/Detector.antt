-- ===== src/Signals/Detector.antt =====
-- application/signal_detection.py: the scan of the watch list.
pub mod Scanned
use opercerta.Common.{ℕ, ◌+◌, String, Bool, Option, none, some, List, [], ◌∷◌, length}
use opercerta.Domain.Errors.{Uuid, Error, Result, ok, err, ◌>>=◌}
use opercerta.Domain.Values.{DateTime, Runtime}
use opercerta.Domain.Contracts.{ObjectType}
use opercerta.Domain.Replenishment.{
  InventoryEvidence, PolicyEvidence, require_matching_sku, assess_replenishment,
}
use opercerta.Domain.Maintenance.{
  EquipmentEvidence, MaintenancePolicyEvidence, require_matching_equipment, assess_maintenance,
}
use opercerta.Domain.TaskRecovery.{
  TaskEvidence, TaskRecoveryPolicyEvidence, require_matching_task, assess_task_recovery,
}
use opercerta.Domain.Facts.{Assessment}
use opercerta.Domain.Signals.{SignalDraft, build_signal_draft}
use opercerta.Store.Schema.{Signal, Db}
use opercerta.Signals.Repository.{upsert_detected}

pub record SignalEvidenceGateway : Type 0 where
  pub get_inventory : String → Result InventoryEvidence
  pub get_policy : String → Result PolicyEvidence
  pub get_equipment : String → Result EquipmentEvidence
  pub get_maintenance_policy : String → Result MaintenancePolicyEvidence
  pub get_task : String → Result TaskEvidence
  pub get_task_recovery_policy : String → Result TaskRecoveryPolicyEvidence

pub record ScanTarget : Type 0 where
  pub object_type : ObjectType
  pub object_id : String

pub record SignalScanIssue : Type 0 where
  pub object_type : ObjectType
  pub object_id : String
  pub code : String

pub record SignalScanResult : Type 0 where
  pub signals : List (Uuid × Signal)
  pub issues : List SignalScanIssue
  pub scanned_count : ℕ
  pub scanned_at : DateTime

abbrev pub unavailable : ScanTarget → SignalScanIssue
unavailable t = record {
  object_type = t.object_type;
  object_id = t.object_id;
  code = "signal_source_unavailable";
}

-- the two lists that the loop fills, in their order
pub record Found : Type 0 where
  pub signals : List (Uuid × Signal)
  pub issues : List SignalScanIssue

abbrev pub nothing : Found
nothing = record { signals = []; issues = [] }

abbrev pub with_row : Uuid × Signal → Found → Found
with_row row f = record f { signals = row ∷ f.signals }

abbrev pub with_issue : ScanTarget → Found → Found
with_issue t f = record f { issues = unavailable t ∷ f.issues }

module _ (py : Runtime) (gateway : SignalEvidenceGateway) where
  -- `_detect`; the two reads are gathered, and the bundles are validated
  unfoldable pub detect : ScanTarget → DateTime → Result (Option SignalDraft)
  detect t now = elim t.object_type [
    | ObjectType.inventory ↦ do
      inventory ← gateway.get_inventory t.object_id
      policy ← gateway.get_policy t.object_id
      bundle ← require_matching_sku (record { inventory = inventory; policy = policy })
      assessment ← assess_replenishment py bundle now
      build_signal_draft (Assessment.replenishment assessment) now
    | ObjectType.equipment ↦ do
      equipment ← gateway.get_equipment t.object_id
      policy ← gateway.get_maintenance_policy t.object_id
      bundle ← require_matching_equipment (record { equipment = equipment; policy = policy })
      assessment ← assess_maintenance py bundle now
      build_signal_draft (Assessment.maintenance assessment) now
    | ObjectType.task ↦ do
      task ← gateway.get_task t.object_id
      policy ← gateway.get_task_recovery_policy t.object_id
      bundle ← require_matching_task (record { task = task; policy = policy })
      assessment ← assess_task_recovery py bundle now
      build_signal_draft (Assessment.task_recovery assessment) now
  ]

  abbrev pub kept : Uuid × Signal → Result (Found × Db) → Result (Found × Db)
  kept row (err e) = err e
  kept row (ok (f, db)) = ok (with_row row f, db)

  abbrev pub noted : ScanTarget → Result (Found × Db) → Result (Found × Db)
  noted t (err e) = err e
  noted t (ok (f, db)) = ok (with_issue t f, db)

  -- the loop; `new_id n` is the id that the `uuid4` of the n-th upsert draws
  unfoldable pub scan_targets :
      DateTime → (ℕ → Uuid) → ℕ → List ScanTarget → Db → Result (Found × Db)
  scan_targets now new_id n [] db = ok (nothing, db)
  scan_targets now new_id n (t ∷ ts) db = elim (detect t now) [
    | err e ↦ noted t (scan_targets now new_id n ts db)
    | ok none ↦ scan_targets now new_id n ts db
    | ok (some draft) ↦ elim (upsert_detected draft (new_id n) db) [
      | err e ↦ err e
      | ok (row, db') ↦ kept row (scan_targets now new_id (n + 1) ts db')
    ]
  ]

  abbrev pub result : List ScanTarget → DateTime → Found × Db → SignalScanResult × Db
  result targets now (f, db) = (
    record {
      signals = f.signals;
      issues = f.issues;
      scanned_count = length targets;
      scanned_at = now;
    },
    db,
  )

  unfoldable pub scan :
      List ScanTarget → DateTime → (ℕ → Uuid) → Db → Result (SignalScanResult × Db)
  scan targets now new_id db =
      scan_targets now new_id 0 targets db >>= λ found. ok (result targets now found)
