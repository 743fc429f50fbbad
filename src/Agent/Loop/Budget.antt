-- ===== src/Agent/Loop/Budget.antt =====
-- The calls that the loop makes, and what it reads.
use opercerta.Common.{◌≡◌, sym, ◌∙◌, arith, false, List, [], ◌∷◌, ◌++◌, inl, inr, Bool-cases}
use mathlib.Core.List.{append-nil, append_assoc}
use opercerta.Domain.Errors.{bind-ok, ok_same, ok, ◌>>=◌}
use opercerta.Agent.Contracts.{GoalEncoding, ToolCallProposal, AgentToolCall}
use opercerta.Agent.Policy.{ToolPolicy, authorize}
use opercerta.Agent.Policy.Budget.{Authorized, then_}
use opercerta.Agent.Executor.{ToolObservation, execute}
use opercerta.Agent.Loop.{read_tool_value}
use opercerta.Agent.Loop.Nodes.{Setup, authorize_all, is_completed, execute_all}

-- a call is one of some calls
pub data IsCall (p : ToolCallProposal) : List ToolCallProposal → Type 0 where
  this : {ps : List ToolCallProposal} → IsCall p (p ∷ ps)
  other : {q : ToolCallProposal} {ps : List ToolCallProposal} → IsCall p ps → IsCall p (q ∷ ps)

IsCall-append :
    {p : ToolCallProposal} {ps : List ToolCallProposal} (qs : List ToolCallProposal)
    → IsCall p ps
    → IsCall p (ps ++ qs)
IsCall-append qs this = this
IsCall-append qs (other h) = other (IsCall-append qs h)

abbrev pub policy_with : Setup → GoalEncoding → ToolPolicy
policy_with x g = record {
  goal = g;
  max_tool_calls = x.budget.max_tool_calls;
  include_knowledge = x.knowledge_enabled;
}

module _ (x : Setup) where
  -- every observation is what a read behind one of the calls came to
  pub data Reads (ps : List ToolCallProposal) : List ToolObservation → Type 0 where
    no_reads : Reads ps []
    read_ :
        {os : List ToolObservation} {p : ToolCallProposal} {o : ToolObservation}
        → Reads ps os
        → IsCall p ps
        → execute x.sha256 x.read p ≡ ok o
        → Reads ps (os ++ o ∷ [])

  pub Reads-append :
      {ps : List ToolCallProposal} {os : List ToolObservation} (qs : List ToolCallProposal)
      → Reads ps os
      → Reads (ps ++ qs) os
  Reads-append qs no_reads = no_reads
  Reads-append qs (read_ r c h) = read_ (Reads-append qs r) (IsCall-append qs c) h

  pub execute_all-Reads :
      (completed : List ToolObservation) (all ps : List ToolCallProposal)
      (os os' : List ToolObservation)
      → ((p : ToolCallProposal) → IsCall p ps → IsCall p all)
      → Reads all os
      → execute_all x completed ps os ≡ ok os'
      → Reads all os'
  unfolding execute_all
  execute_all-Reads completed all [] os os' sub r h = rw (sym (ok_same os os' h)) r
  execute_all-Reads completed all (p ∷ ps) os os' sub r h =
      elim (Bool-cases (is_completed x completed p)) [
        | inl done ↦
            execute_all-Reads completed all ps os os' (λ q c. sub q (other c)) r (ground arith)
        | inr fresh ↦
            let (o, read, rest) = bind-ok (execute x.sha256 x.read p) _ os' (unread fresh) in
            execute_all-Reads completed all ps (os ++ o ∷ []) os' (λ q c. sub q (other c))
              (read_ r (sub p this) read) rest
      ]
    where
      unread :
          is_completed x completed p ≡ false
          → (execute x.sha256 x.read p >>= λ o. execute_all x completed ps (os ++ o ∷ [])) ≡ ok os'
      unread fresh = ground arith

  module _ (g : GoalEncoding) where
    pub authorize_all-Authorized :
        (calls : List AgentToolCall) (ps ps' : List ToolCallProposal)
        → Authorized x.safe_identifier (policy_with x g) ps
        → authorize_all x (policy_with x g) calls ps ≡ ok ps'
        → Authorized x.safe_identifier (policy_with x g) ps'
          × ((qs : List ToolCallProposal) × (ps' ≡ ps ++ qs))
    unfolding authorize_all
    authorize_all-Authorized [] ps ps' a h =
        let same = ok_same ps ps' h in (rw (sym same) a, ([], sym same ∙ sym (append-nil ps)))
    authorize_all-Authorized (c ∷ cs) ps ps' a h =
        let (p, one, rest) =
          bind-ok
            (authorize x.safe_identifier (policy_with x g) c.tool_call_id
              (read_tool_value c.tool_name) c.arguments ps)
            _ ps' h in
        let (b, (qs, e)) =
          authorize_all-Authorized cs (ps ++ p ∷ []) ps'
            (then_ a c.tool_call_id (read_tool_value c.tool_name) c.arguments one) rest in
        (b, (p ∷ qs, e ∙ append_assoc ps (p ∷ []) qs))
