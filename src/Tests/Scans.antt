-- ===== src/Tests/Scans.antt =====
-- The theorem on the scan, at a shortage and two sources that are down.
use opercerta.Common.{ℕ, ◌+◌, ◌≤◌, ◌≡◌, List, [], ◌∷◌, length, suc}
use opercerta.Domain.Contracts.{ObjectType}
use opercerta.Domain.Errors.{ok, err, evidence_unavailable, Uuid}
use opercerta.Domain.Values.{aware}
use opercerta.Store.Schema.{Db, empty_db}
use opercerta.Signals.Detector.{SignalEvidenceGateway, SignalScanResult, ScanTarget, scan}
use opercerta.Signals.Detector.Scanned.{failing, scan_lem}
use opercerta.Tests.Data.{py, bundle}

abbrev gateway : SignalEvidenceGateway
gateway = record {
  get_inventory = λ _. ok bundle.inventory;
  get_policy = λ _. ok bundle.policy;
  get_equipment = λ _. err evidence_unavailable;
  get_maintenance_policy = λ _. err evidence_unavailable;
  get_task = λ _. err evidence_unavailable;
  get_task_recovery_policy = λ _. err evidence_unavailable;
}

abbrev targets : List ScanTarget
targets =
    (record { object_type = ObjectType.inventory; object_id = "SKU-1" })
    ∷ (record { object_type = ObjectType.equipment; object_id = "EQ-1" })
    ∷ (record { object_type = ObjectType.task; object_id = "T-1" })
    ∷ []

scan_lem_example :
    (r : SignalScanResult) × (db' : Db) × (scan py gateway targets (aware 110) (λ n. suc n) empty_db
      ≡ ok (r, db'))
    × (r.issues ≡ failing py gateway (aware 110) targets)
    × (length r.signals + length r.issues ≤ r.scanned_count)
    × ((ids : ℕ → Uuid) → scan py gateway targets (aware 110) ids db' ≡ ok (r, db'))
scan_lem_example = scan_lem py gateway (aware 110) targets (λ n. suc n) empty_db
