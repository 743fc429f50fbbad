-- ===== src/System/Kept.antt =====
-- A signal and its successor, in all later states of the service.
use opercerta.Common.{◌≡◌, refl, inl, inr}
use opercerta.Domain.Errors.{Uuid}
use opercerta.Domain.Values.{Digest}
use opercerta.Domain.Facts.{EvidenceContent}
use opercerta.Store.Schema.{Db}
use opercerta.Operations.Transition.Inversion.{transition-ok}
use opercerta.Operations.Calls.{run-IsCall, IsCall-WritesEvidence}
use opercerta.Operations.Frame.{save_bundle-SameRows}
use opercerta.Operations.Create.Rows.{create-ok}
use opercerta.Approvals.{recorded, lapsed}
use opercerta.Approvals.Rows.{submit_once-ok, submit_bound-recorded, submit_bound-lapsed}
use opercerta.WorkOrders.Rows.{create_or_get_once-ok}
use opercerta.Signals.Keys.{SameKeys-repair_all}
use opercerta.Signals.Kept.{Changed-SameKeys, create-SameKeys}
use opercerta.Signals.Links.{
  IsLinked, SameKeys-IsLinked, upsert_detected-IsLinked, create_successor-IsLinked,
}
use opercerta.Signals.Reconciled.{reconciled_rows}
use opercerta.System.{
  Step, created, called, submitted, submitted_bound, ordered, detected, retried, reconciled, saved,
  Onward, now_, and_, Reachable, then_,
}
use opercerta.System.Reached.{Reachable-IsConsistent}

module _ (hash_json : EvidenceContent → Digest) (p j : Uuid) where
  same_signals :
      (db db' : Db)
      → db'.operational_signals ≡ db.operational_signals
      → IsLinked p j db.operational_signals
      → IsLinked p j db'.operational_signals
  same_signals db db' e m = rw e m

  Step-IsLinked :
      (db db' : Db)
      → Reachable hash_json db
      → Step hash_json db db'
      → IsLinked p j db.operational_signals
      → IsLinked p j db'.operational_signals
  Step-IsLinked db db' reached (created request i r at new h) m =
      let (_, _, _, rows) = create-ok request i at db db' r h in
      rw rows (SameKeys-IsLinked p j (create-SameKeys request i at db) m)
  Step-IsLinked db db' reached (called call i at b h) m =
      let (t, is_call, e) = run-IsCall hash_json call i at db db' b h in
      elim (transition-ok i t at db db' b e) [
        | inr (_, rows, _) ↦ same_signals db db' (rw rows refl) m
        | inl (_, c) ↦
            SameKeys-IsLinked p j
              (Changed-SameKeys i t at db db' (IsCall-WritesEvidence hash_json i is_call) c) m
      ]
  Step-IsLinked db db' reached (submitted command k at r new h) m =
      same_signals db db' (rw (submit_once-ok command k db db' at r h).rows refl) m
  Step-IsLinked db db' reached (submitted_bound command expected k now e (recorded r) new h) m =
      same_signals db db'
        (rw (submit_bound-recorded command expected k now e db db' r h).decision.rows refl) m
  Step-IsLinked db db' reached (submitted_bound command expected k now e lapsed new h) m =
      same_signals db db' (rw (submit_bound-lapsed command expected k now e db db' h).rows refl) m
  Step-IsLinked db db' reached (ordered i payload digest k at r new h) m =
      elim (create_or_get_once-ok i payload digest k at db db' r h) [
        | inr c ↦ same_signals db db' (rw c.rows refl) m
        | inl c ↦ same_signals db db' (rw c.rows refl) m
      ]
  Step-IsLinked db db' reached (detected draft k r new h) m =
      upsert_detected-IsLinked p j db db' k r new draft h m
  Step-IsLinked db db' reached (retried q now k r new h) m =
      create_successor-IsLinked p j db db' k r new q now
        (Reachable-IsConsistent hash_json db reached).keyed h m
  Step-IsLinked db db' reached (reconciled now n h) m =
      rw (reconciled_rows now n db db' h).1
        (SameKeys-IsLinked p j (SameKeys-repair_all db now db.operational_signals) m)
  Step-IsLinked db db' reached (saved i bundle rows h) m =
      same_signals db db'
        (save_bundle-SameRows hash_json i bundle rows db db' h).operational_signals m

  pub Onward-IsLinked :
      {db db' : Db}
      → Onward hash_json db db'
      → Reachable hash_json db
      → IsLinked p j db.operational_signals
      → Reachable hash_json db' × IsLinked p j db'.operational_signals
  Onward-IsLinked now_ reached m = (reached, m)
  Onward-IsLinked (and_ o step) reached m =
      let (reached', m') = Onward-IsLinked o reached m in
      (then_ reached' step, Step-IsLinked _ _ reached' step m')
