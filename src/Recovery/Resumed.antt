-- ===== src/Recovery/Resumed.antt =====
-- What a recovery that returns has found and done.
use opercerta.Common.{
  ◌≡◌, ◌↔◌, refl, sym, ap, ◌∙◌, arith, inl, inr, Bool, true, false, not, Option, none, some,
  Option-cases, Bool-cases, ◌==◌, ◌⊎◌,
}
use opercerta.Domain.Status.{OperationStatus, is_terminal}
use opercerta.Domain.Errors.{Uuid, ok, raise_if, bind-ok, ok_same}
use opercerta.Domain.Values.{Digest}
use opercerta.Domain.Contracts.{is_none}
use opercerta.Domain.Recovery.{
  CheckpointPhase, RecoveryAction, RecoveryFacts, recovery_facts, choose_recovery_action,
}
use opercerta.Domain.Recovery.Choice.{choose_recovery_action_cases}
use opercerta.Domain.Facts.{ApprovalDecision}
use opercerta.Store.Table.{get}
use opercerta.Store.Schema.{Operation, Approval, WorkOrder, Db}
use opercerta.Operations.Transition.{known_status, parse_snapshot}
use opercerta.Approvals.{find_approval}
use opercerta.Recovery.{
  RecoveryView, Checkpoint, Invocation, resumed, rebuilt, continued, not_invoked, checkpoint_phase,
  validate_checkpoint, decided, ordered, first_of, second_of, required_operation, find_order,
  load_recovery_view, invoke, recover,
}

-- the approval and the order of a view, against the rows
abbrev IsApproval : Option (Uuid × Approval) → Option Uuid → Option ApprovalDecision → Type 0
IsApproval none k d = (k ≡ none) × (d ≡ none)
IsApproval (some (j, a)) k d = (k ≡ some j) × (a.decision ≡ d) × (is_none d ≡ false)

abbrev IsOrder : Option (Uuid × WorkOrder) → Option Uuid → Type 0
IsOrder none k = k ≡ none
IsOrder (some (j, w)) k = k ≡ some j

decided-IsApproval :
    (id : Uuid) (o : Option (Uuid × Approval)) (r : Option (Uuid × ApprovalDecision))
    → decided id o ≡ ok r
    → IsApproval o (first_of r) (second_of r)
decided-IsApproval id none r h = rw (sym (ok_same none r h)) (refl, refl)
decided-IsApproval id (some (k, a)) r h = elim (Option-cases a.decision) [
  | inl e ↦ absurd (ground arith)
  | inr (d, e) ↦ let same : r ≡ some (k, d) = ground arith in rw same (refl, e, refl)
]

module _ (is_digest : Digest → Bool) where
  ordered-IsOrder :
      (id : Uuid) (o : Option (Uuid × WorkOrder)) (r : Option (Uuid × Digest))
      → ordered is_digest id o ≡ ok r
      → IsOrder o (first_of r)
  ordered-IsOrder id none r h = rw (sym (ok_same none r h)) refl
  ordered-IsOrder id (some (k, w)) r h = elim (Bool-cases (is_digest w.payload_hash)) [
    | inr e ↦ absurd (ground arith)
    | inl e ↦ let same : r ≡ some (k, w.payload_hash) = ground arith in rw same refl
  ]

  record IsView (id : Uuid) (db : Db) (v : RecoveryView) : Type 0 where
    op : Operation
    found : get id db.operations ≡ some op
    status : op.status ≡ some v.status
    approval : IsApproval (find_approval id op.approval_cycle db.approvals) v.approval_id v.decision
    order : IsOrder (find_order id db) v.work_order_id

  load_recovery_view-IsView :
      (id : Uuid) (db : Db) (v : RecoveryView)
      → load_recovery_view is_digest id db ≡ ok v
      → IsView id db v
  unfolding load_recovery_view known_status
  load_recovery_view-IsView id db v h =
      let (op, found, h_1) = bind-ok (required_operation id (get id db.operations)) _ v h in
      let (_, _, h_2) = bind-ok (raise_if (not (op.thread_id == id)) _) _ v h_1 in
      let (s, status, h_3) = bind-ok (known_status id op.status) _ v h_2 in
      let (_, _, h_4) = bind-ok (parse_snapshot id op.request_payload) _ v h_3 in
      let (a, approval, h_5) =
        bind-ok (decided id (find_approval id op.approval_cycle db.approvals)) _ v h_4 in
      let (o, order, h_6) = bind-ok (ordered is_digest id (find_order id db)) _ v h_5 in
      let same = sym (ok_same _ v h_6) in
      record {
        op = op;
        found = ground (arith, found);
        status = rw same (ground (arith, status));
        approval = rw same (decided-IsApproval id _ a approval);
        order = rw same (ordered-IsOrder id _ o order);
      }

approval-found :
    (o : Option (Uuid × Approval)) (k : Uuid) (d : ApprovalDecision) (j : Option Uuid)
    (e : Option ApprovalDecision)
    → IsApproval o j e
    → j ≡ some k
    → e ≡ some d
    → (a : Approval) × (o ≡ some (k, a)) × (a.decision ≡ some d)
approval-found none k d j e (none_, _) f g = absurd (ground arith)
approval-found (some (i, a)) k d j e (h, same, _) f g = (a, ground arith, same ∙ g)

order-found :
    (o : Option (Uuid × WorkOrder)) (k : Option Uuid)
    → IsOrder o k
    → not (is_none k) ≡ true
    → (row : Uuid × WorkOrder) × (o ≡ some row)
order-found none k h e = absurd (ground arith)
order-found (some row) k h e = (row, refl)

no_order :
    (o : Option (Uuid × WorkOrder)) (k : Option Uuid)
    → IsOrder o k
    → not (is_none k) ≡ false
    → o ≡ none
no_order none k h e = refl
no_order (some (j, w)) k h e = absurd (ground arith)

invoke-resumed :
    (is_digest : Digest → Bool) (id : Uuid) (v : RecoveryView) (a : RecoveryAction) (k : Uuid)
    (d : ApprovalDecision)
    → invoke is_digest id v a ≡ ok (resumed k d)
    → (a ≡ RecoveryAction.resume_decision) × (v.approval_id ≡ some k) × (v.decision ≡ some d)
invoke-resumed is_digest id v RecoveryAction.resume_decision k d h =
    elim (Option-cases v.approval_id) [
      | inl e ↦ absurd (ground arith)
      | inr (j, e) ↦ elim (Option-cases v.decision) [
        | inl f ↦ absurd (ground arith)
        | inr (g, f) ↦ (refl, ground arith, ground arith)
      ]
    ]
invoke-resumed is_digest id v RecoveryAction.rebuild_from_business_facts k d h = absurd (cc)
invoke-resumed is_digest id v RecoveryAction.keep_waiting k d h = absurd (cc)
invoke-resumed is_digest id v RecoveryAction.no_op k d h = absurd (cc)
invoke-resumed is_digest id v RecoveryAction.replay_idempotent_execution k d h = absurd (cc)
invoke-resumed is_digest id v RecoveryAction.verify_existing_work_order k d h = absurd (cc)
invoke-resumed is_digest id v RecoveryAction.continue_checkpoint k d h = absurd (cc)

-- how the graph is invoked for each action
abbrev IsContinuing : RecoveryAction → Type 0
IsContinuing a =
    (a ≡ RecoveryAction.replay_idempotent_execution)
    ⊎ (a ≡ RecoveryAction.verify_existing_work_order)
    ⊎ (a ≡ RecoveryAction.continue_checkpoint)

abbrev IsInvoked : RecoveryAction → Invocation → Type 0
IsInvoked a inv =
    ((inv ≡ not_invoked) ↔ ((a ≡ RecoveryAction.no_op) ⊎ (a ≡ RecoveryAction.keep_waiting)))
    × ((v : RecoveryView) → inv ≡ rebuilt v → a ≡ RecoveryAction.rebuild_from_business_facts)
    × (inv ≡ continued → IsContinuing a)

not_invoked-IsInvoked :
    (a : RecoveryAction)
    → (a ≡ RecoveryAction.no_op) ⊎ (a ≡ RecoveryAction.keep_waiting)
    → IsInvoked a not_invoked
not_invoked-IsInvoked a h = ((λ e. h, λ e. refl), (λ v e. absurd cc), λ e. absurd cc)

rebuilt-IsInvoked :
    (v : RecoveryView) → IsInvoked RecoveryAction.rebuild_from_business_facts (rebuilt v)
rebuilt-IsInvoked v = (
  (λ e. absurd cc, λ e. elim e [ inl f ↦ absurd cc | inr f ↦ absurd cc ]),
  (λ w e. refl),
  λ e. absurd cc,
)

resumed-IsInvoked :
    (k : Uuid) (d : ApprovalDecision) → IsInvoked RecoveryAction.resume_decision (resumed k d)
resumed-IsInvoked k d = (
  (λ e. absurd cc, λ e. elim e [ inl f ↦ absurd cc | inr f ↦ absurd cc ]),
  (λ w e. absurd cc),
  λ e. absurd cc,
)

continued-IsInvoked : (a : RecoveryAction) → IsContinuing a → IsInvoked a continued
continued-IsInvoked a h = ((λ e. absurd cc, λ e. absurd (ground arith)), (λ w e. absurd cc), λ e. h)

invoke-IsInvoked :
    (is_digest : Digest → Bool) (id : Uuid) (v : RecoveryView) (a : RecoveryAction)
    (inv : Invocation)
    → invoke is_digest id v a ≡ ok inv
    → IsInvoked a inv
invoke-IsInvoked is_digest id v RecoveryAction.resume_decision inv h =
    elim (Option-cases v.approval_id) [
      | inl e ↦ absurd (ground arith)
      | inr (j, e) ↦ elim (Option-cases v.decision) [
        | inl f ↦ absurd (ground arith)
        | inr (g, f) ↦
            let same : inv ≡ resumed j g = ground arith in rw same (resumed-IsInvoked j g)
      ]
    ]
invoke-IsInvoked is_digest id v RecoveryAction.rebuild_from_business_facts inv h =
    rw (sym (ok_same _ inv h)) (rebuilt-IsInvoked v)
invoke-IsInvoked is_digest id v RecoveryAction.keep_waiting inv h =
    rw (sym (ok_same _ inv h)) (not_invoked-IsInvoked _ (inr refl))
invoke-IsInvoked is_digest id v RecoveryAction.no_op inv h =
    rw (sym (ok_same _ inv h)) (not_invoked-IsInvoked _ (inl refl))
invoke-IsInvoked is_digest id v RecoveryAction.replay_idempotent_execution inv h =
    rw (sym (ok_same _ inv h)) (continued-IsInvoked _ (inl refl))
invoke-IsInvoked is_digest id v RecoveryAction.verify_existing_work_order inv h =
    rw (sym (ok_same _ inv h)) (continued-IsInvoked _ (inr (inl refl)))
invoke-IsInvoked is_digest id v RecoveryAction.continue_checkpoint inv h =
    rw (sym (ok_same _ inv h)) (continued-IsInvoked _ (inr (inr refl)))

-- what the actions that go on say of the checkpoint
goes_on_lem :
    (s : OperationStatus) (c : CheckpointPhase) (approval work_order : Bool) {f : RecoveryFacts}
    → recovery_facts s c approval work_order ≡ ok f
    → (choose_recovery_action f ≡ RecoveryAction.rebuild_from_business_facts
        → (is_terminal s ≡ false) × (c ≡ CheckpointPhase.missing))
      × (IsContinuing (choose_recovery_action f)
          → (is_terminal s ≡ false) × (c ≡ CheckpointPhase.runnable))
unfolding recovery_facts choose_recovery_action
goes_on_lem s c approval work_order built = ground arith

no_approval :
    (o : Option (Uuid × Approval)) (k : Option Uuid) (d : Option ApprovalDecision)
    → IsApproval o k d
    → (not (is_none k) ≡ false) ↔ (o ≡ none)
no_approval none k d (e, _) = (λ h. refl, λ h. ground arith)
no_approval (some (j, a)) k d (e, _, _) = (λ h. absurd (ground arith), λ h. absurd cc)

-- an invocation that is left out, in the terms of the rows
idle_lem :
    (s : OperationStatus) {a : RecoveryAction} {inv : Invocation} {p : CheckpointPhase} {b : Bool}
    {o : Option (Uuid × Approval)}
    → (inv ≡ not_invoked) ↔ ((a ≡ RecoveryAction.no_op) ⊎ (a ≡ RecoveryAction.keep_waiting))
    → (a ≡ RecoveryAction.no_op) ↔ (is_terminal s ≡ true)
    → (a ≡ RecoveryAction.keep_waiting)
      ↔ ((is_terminal s ≡ false) × (p ≡ CheckpointPhase.interrupted) × (b ≡ false))
    → (b ≡ false) ↔ (o ≡ none)
    → (inv ≡ not_invoked) ↔ (
        (is_terminal s ≡ true)
        ⊎ ((is_terminal s ≡ false) × (p ≡ CheckpointPhase.interrupted) × (o ≡ none)))
idle_lem s idle stops waits unapproved = (
  λ e. elim (idle.0 e) [
    | inl f ↦ inl (stops.0 f)
    | inr f ↦ let (live, stopped, none_of) = waits.0 f in inr (live, stopped, unapproved.0 none_of)
  ],
  λ e. elim e [
    | inl f ↦ idle.1 (inl (stops.1 f))
    | inr (live, stopped, none_of) ↦ idle.1 (inr (waits.1 (live, stopped, unapproved.1 none_of)))
  ],
)

module _ (is_digest : Digest → Bool) (id : Uuid) (c : Checkpoint) (db : Db) where
  -- what holds of an operation that was recovered
  abbrev pub IsRecovery : Operation → OperationStatus → RecoveryAction → Invocation → Type 0
  IsRecovery op s a inv =
      ((a ≡ RecoveryAction.no_op) ↔ (is_terminal s ≡ true))
      × ((inv ≡ not_invoked) ↔ (
          (is_terminal s ≡ true)
          ⊎ ((is_terminal s ≡ false)
              × (checkpoint_phase c ≡ CheckpointPhase.interrupted)
              × (find_approval id op.approval_cycle db.approvals ≡ none))))
      × ((v : RecoveryView)
          → inv ≡ rebuilt v
          → (is_terminal s ≡ false) × (checkpoint_phase c ≡ CheckpointPhase.missing))
      × (inv ≡ continued
          → (is_terminal s ≡ false) × (checkpoint_phase c ≡ CheckpointPhase.runnable))
      × ((k : Uuid) (d : ApprovalDecision)
          → inv ≡ resumed k d
          → (is_terminal s ≡ false)
            × (checkpoint_phase c ≡ CheckpointPhase.interrupted)
            × (ap : Approval) × (find_approval id op.approval_cycle db.approvals ≡ some (k, ap))
            × (ap.decision ≡ some d))
      × (a ≡ RecoveryAction.verify_existing_work_order
          → (row : Uuid × WorkOrder) × (find_order id db ≡ some row))
      × (a ≡ RecoveryAction.replay_idempotent_execution → find_order id db ≡ none)

  -- A recovery that returns has found the operation in a known status, chooses to do nothing
  -- exactly in a terminal status, and leaves the graph alone exactly there and, in the other
  -- statuses, at an interrupted checkpoint without an approval on record for the current
  -- approval cycle. Only outside of the terminal statuses it rebuilds the graph's state, at a
  -- missing checkpoint, continues the graph, at a runnable one, and resumes it, at an
  -- interrupted one and with the decision on record for the current cycle. It verifies a work
  -- order only when the operation has one, and replays the execution only when it has none.
  pub recover-ok :
      (a : RecoveryAction) (inv : Invocation)
      → recover is_digest id c db ≡ ok (a, inv)
      → (op : Operation) × (s : OperationStatus) × (get id db.operations ≡ some op)
        × (op.status ≡ some s)
        × IsRecovery op s a inv
  unfolding recover
  recover-ok a inv h =
      let (v, view, h_1) = bind-ok (load_recovery_view is_digest id db) _ (a, inv) h in
      let (_, _, h_2) = bind-ok (validate_checkpoint id v c (checkpoint_phase c)) _ (a, inv) h_1 in
      let (facts, built, h_3) =
        bind-ok
          (recovery_facts v.status (checkpoint_phase c) (not (is_none v.approval_id))
            (not (is_none v.work_order_id)))
          _ (a, inv) h_2 in
      let (i, invoked, h_4) =
        bind-ok (invoke is_digest id v (choose_recovery_action facts)) _ (a, inv) h_3 in
      let w = load_recovery_view-IsView is_digest id db v view in
      let (stops, resumes, waits, verifies, _, replays) =
        choose_recovery_action_cases v.status (checkpoint_phase c) (not (is_none v.approval_id))
          (not (is_none v.work_order_id)) built in
      let action : a ≡ choose_recovery_action facts = ground arith in
      let same : i ≡ inv = ground arith in
      let (idle, rebuilds, continues) =
        invoke-IsInvoked is_digest id v a inv (rw (action, sym same) invoked) in
      let (missing, runnable) =
        goes_on_lem v.status (checkpoint_phase c) (not (is_none v.approval_id))
          (not (is_none v.work_order_id)) built in
      let unapproved = no_approval _ v.approval_id v.decision w.approval in
      (
        w.op,
        v.status,
        w.found,
        w.status,
        (
          rw action stops,
          idle_lem v.status idle (rw action stops) (rw action waits) unapproved,
          (λ u e. missing (sym action ∙ rebuilds u e)),
          (λ e. runnable (rw (sym action) (continues e))),
          (λ k d e.
              let (chosen, kept, known) =
                invoke-resumed is_digest id v (choose_recovery_action facts) k d
                  (invoked ∙ rw (same, e) refl) in
              let (live, stopped, _) = resumes.0 chosen in
              let (ap, on_record, is_d) =
                approval-found _ k d v.approval_id v.decision w.approval kept known in
              (live, stopped, ap, on_record, is_d)),
          (λ e. order-found _ v.work_order_id w.order (verifies.0 (sym action ∙ e)).2),
          (λ e. no_order _ v.work_order_id w.order (replays (sym action ∙ e)).1),
        ),
      )
