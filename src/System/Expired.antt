-- ===== src/System/Expired.antt =====
-- The expiry service, as transactions one after the other.
use opercerta.Common.{
  ◌∙◌, ℕ, ◌+◌, ◌≤◌, ◌≡◌, refl, sym, arith, ℤ, pos_part, Bool, true, false, some, List, [], ◌∷◌,
  length, Memᴰ, inl, inr,
}
use opercerta.Domain.Status.{OperationStatus}
use opercerta.Domain.Errors.{Uuid, ok, Result-cases}
use opercerta.Domain.Values.{DateTime, Digest, aware}
use opercerta.Domain.Facts.{EvidenceContent}
use opercerta.Store.Table.{get}
use opercerta.Store.Schema.{Operation, Db}
use opercerta.Operations.Transition.{Stamp}
use opercerta.Operations.Methods.{mark_expired}
use opercerta.Operations.Calls.{Call, run}
use opercerta.Operations.Expiry.{list_due_approval_ids, counted, expire_all, expire_due}
use opercerta.Operations.Expiry.Expired.{IsDue, mark_expired-true, listed-IsDue}
use opercerta.System.{called}
use opercerta.System.Lifecycle.Steps.{terminal_stays}

abbrev pub IsExpired : Db → Uuid → Type 0
IsExpired db id =
    (op : Operation) × (get id db.operations ≡ some op) × (op.status ≡ some OperationStatus.expired)

module _ (hash_json : EvidenceContent → Digest) (now : DateTime) (at : ℕ → Stamp) where
  mark_expired-IsExpired :
      (id j : Uuid) (n : ℕ) (b : Bool) (db db' : Db)
      → mark_expired j now (at n) db ≡ ok (b, db')
      → IsExpired db id
      → IsExpired db' id
  unfolding run
  mark_expired-IsExpired id j n b db db' h (op, found, status) =
      terminal_stays hash_json db db' id op OperationStatus.expired
        (called (Call.mark_expired now) j (at n) b h) found status refl

  -- what a loop over some ids is to give
  record IsExpiry (ids : List Uuid) (db : Db) (done : List Uuid) (db' : Db) : Type 0 where
    few : length done ≤ length ids
    stays : (id : Uuid) → IsExpired db id → IsExpired db' id
    each : (id : Uuid) → Memᴰ id done → Memᴰ id ids × IsExpired db' id

  counted-IsExpiry :
      (b : Bool) (id : Uuid) (ids rest : List Uuid) (db_1 db' : Db) (done : List Uuid)
      → (b ≡ true → IsExpired db_1 id)
      → IsExpiry ids db_1 rest db'
      → counted b id (ok (rest, db')) ≡ ok (done, db')
      → IsExpiry (id ∷ ids) db_1 done db'
  counted-IsExpiry true id ids rest db_1 db' done h w e =
      let same : done ≡ id ∷ rest = ground arith in
      rw same (record { few = omega (arith, w.few); stays = w.stays; each = one_more })
    where
      one_more : (j : Uuid) → Memᴰ j (id ∷ rest) → Memᴰ j (id ∷ ids) × IsExpired db' j
      one_more j (Memᴰ.head f) = (Memᴰ.head f, rw f (w.stays id (h refl)))
      one_more j (Memᴰ.tail m) = (Memᴰ.tail (w.each j m).0, (w.each j m).1)
  counted-IsExpiry false id ids rest db_1 db' done h w e =
      let same : done ≡ rest = ground arith in
      rw same (record {
        few = omega (arith, w.few);
        stays = w.stays;
        each = λ j m. (Memᴰ.tail (w.each j m).0, (w.each j m).1);
      })

  expire_all-IsExpiry :
      (n : ℕ) (ids : List Uuid) (db : Db) (done : List Uuid) (db' : Db)
      → expire_all now at n ids db ≡ ok (done, db')
      → IsExpiry ids db done db'
  unfolding expire_all
  expire_all-IsExpiry n [] db done db' h =
      let nobody : done ≡ [] = ground arith in
      let same : db' ≡ db = ground arith in
      rw (nobody, same) (record { few = omega arith; stays = λ id e. e; each = λ id m. elim m [ ] })
  expire_all-IsExpiry n (id ∷ ids) db done db' h =
      elim (Result-cases (mark_expired id now (at n) db)) [
        | inr (e, f) ↦ absurd (ground arith)
        | inl ((b, db_1), f) ↦ elim (Result-cases (expire_all now at (n + 1) ids db_1)) [
          | inr (e, g) ↦ absurd (ground arith)
          | inl ((rest, db_2), g) ↦
              let w = expire_all-IsExpiry (n + 1) ids db_1 rest db_2 g in
              let e : counted b id (ok (rest, db_2)) ≡ ok (done, db') = ground arith in
              let last : db_2 ≡ db' = ends b rest db_2 e in
              let c =
                counted-IsExpiry b id ids rest db_1 db_2 done
                  (λ t. mark_expired-true id now (at n) db db_1 (f ∙ rw t refl)) w
                  (e ∙ rw last refl) in
              rw (sym last) (record {
                few = c.few;
                stays = λ j x. c.stays j (mark_expired-IsExpired j id n b db db_1 f x);
                each = c.each;
              })
        ]
      ]
    where
      ends :
          (b : Bool) (rest : List Uuid) (d : Db)
          → counted b id (ok (rest, d)) ≡ ok (done, db')
          → d ≡ db'
      ends b rest d e = ground arith

module _ (hash_json : EvidenceContent → Digest) where
  -- A run of the expiry service that returns gives no more ids than its limit, each of them of
  -- an operation that waited for an approval and whose expiry had passed, and each of them is
  -- expired behind it, as is every operation that was expired before.
  pub expire_due_lem :
      (t : ℕ) (limit : ℤ) (at : ℕ → Stamp) (db db' : Db) (ids : List Uuid)
      → expire_due (aware t) limit at db ≡ ok (ids, db')
      → (length ids ≤ pos_part limit)
        × ((id : Uuid) → Memᴰ id ids → IsDue t db.operations id × IsExpired db' id)
        × ((id : Uuid) → IsExpired db id → IsExpired db' id)
  unfolding expire_due
  expire_due_lem t limit at db db' ids h =
      elim (Result-cases (list_due_approval_ids (aware t) limit db)) [
        | inr (e, f) ↦ absurd (ground arith)
        | inl (due, f) ↦
            let (few, each) = listed-IsDue t limit db due f in
            let w = expire_all-IsExpiry hash_json (aware t) at 0 due db ids db' (ground arith) in
            (omega (arith, few, w.few), λ id m. (each id (w.each id m).0, (w.each id m).1), w.stays)
      ]
