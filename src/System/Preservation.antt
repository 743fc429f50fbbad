-- ===== src/System/Preservation.antt =====
-- The invariant of the rows when one operation is replaced or added.
use opercerta.Common.{◌≡◌, ◌≢◌, sym, ◌∙◌, none, some, ◌==◌, ==_iff, arith, if◌then◌else◌}
use native.Mathlib.Decide.{ℕ_discrete}
use opercerta.Domain.Errors.{Uuid}
use opercerta.Store.Table.{Table, get}
use opercerta.Store.Schema.{Operation, Db}
use opercerta.Audit.Methods.{IsDenseDb}
use opercerta.Cycles.{IsLawful}
use opercerta.Signals.Keys.{IsKeyed}
use opercerta.System.Invariant.{AllApproved, IsConsistent}

some_injective : {x y : Operation} → some x ≡ some y → x ≡ y
some_injective h = ground arith

-- What holds of every row holds after one row is replaced, or added.
module _ (operations operations' : Table Operation) (id : Uuid) (op' : Operation)
    (rows : (j : Uuid) → get j operations' ≡ (if id == j then some op' else get j operations)) where
  row_same : (j : Uuid) (op : Operation) → id ≡ j → get j operations' ≡ some op → op ≡ op'
  row_same j op e h = some_injective (ground (arith, rows j, ==_iff id j))

  pub row_other : (j : Uuid) → id ≢ j → get j operations' ≡ get j operations
  row_other j e = ground (arith, rows j, ==_iff id j)

  pub row_id : (j : Uuid) → get j operations' ≡ none → id ≢ j
  row_id j h e = ground (arith, rows j, ==_iff id j)

  pub all_rows :
      (P : Uuid → Operation → Type 0)
      → P id op'
      → ((j : Uuid) (op : Operation) → id ≢ j → get j operations ≡ some op → P j op)
      → (j : Uuid) (op : Operation) → get j operations' ≡ some op
      → P j op
  all_rows P new old j op h = elim (ℕ_discrete id j) [
    | yes e ↦ rw (row_same j op e h, sym e) new
    | no e ↦ old j op e (sym (row_other j e) ∙ h)
  ]

  -- one operation changes, and no approval
  pub one_row-IsConsistent :
      (db db' : Db)
      → db.operations ≡ operations
      → db'.operations ≡ operations'
      → db'.approvals ≡ db.approvals
      → IsDenseDb db'
      → IsLawful db.approvals id op'
      → AllApproved db.approvals db'.work_orders
      → IsKeyed db'.operational_signals
      → IsConsistent db
      → IsConsistent db'
  one_row-IsConsistent db db' before after same dense l orders keyed c = record {
    dense = dense;
    unique = rw same c.unique;
    lawful =
        rw (same, after)
          (all_rows (IsLawful db.approvals) l (λ j op _ h. c.lawful j op (rw before h)));
    owned =
        rw (same, after) (λ j n h. c.owned j n (rw before (sym (row_other j (row_id j h)) ∙ h)));
    orders = rw same orders;
    keyed = keyed;
  }
