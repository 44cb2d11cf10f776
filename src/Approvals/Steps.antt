-- ===== src/Approvals/Steps.antt =====
-- The steps of a route and the tasks of its nodes, as `start`, `advance` and `_open` of
-- apps/api/src/flo/modules/approvals/engine.py write them.
use xlr8_flo.Common.{
  ℕ, ◌+◌, ◌*◌, String, Bool, false, ◌&&◌, Option, none, some, List, [], ◌∷◌, ◌++◌, map,
  if◌then◌else◌,
}
use xlr8_flo.Common.Equality.{◌===◌, String_eq}
use xlr8_flo.Approvals.Graph.{Approvers, Node, Route, branch, step, open_step, completed, carried}
use xlr8_flo.Approvals.Tables.{is_returned, Instance, Task, opened, Decision, is_deciding}
use xlr8_flo.Approvals.Evidence.{user_of, on_task, rows}

-- The steps before a node, carried over from another instance.
unfoldable pub carried_over : String → ℕ → Route → Route
carried_over node_id source [] = []
carried_over node_id source (branch b ∷ rest) = branch b ∷ carried_over node_id source rest
carried_over node_id source (step s ∷ rest) =
    let later_steps = carried_over node_id source rest in
    if s.node_id === node_id
    then []
    else step (record s { state = carried; source_instance_id = some source }) ∷ later_steps

-- The entries of a node, updated.
unfoldable pub update_step : String → (List ℕ → List ℕ) → Route → Route
update_step node_id deciders [] = []
update_step node_id deciders (branch b ∷ rest) = branch b ∷ update_step node_id deciders rest
update_step node_id deciders (step s ∷ rest) =
    (if s.node_id === node_id
      then step (record s { state = completed; decided_by = deciders s.decided_by })
      else step s)
    ∷ update_step node_id deciders rest

abbrev pub deciders_of : ℕ → ℕ → List Decision → List ℕ
deciders_of actor_id task_id decisions =
    let made = rows (λ d. on_task task_id d && is_deciding d.outcome) decisions in
    actor_id ∷ map user_of made ++ map (λ d. d.actor_id) made

abbrev pub last_of : List Task → Option Task
last_of [] = none
last_of (t ∷ []) = some t
last_of (t ∷ u ∷ ts) = last_of (u ∷ ts)

unfoldable pub tasks_where : (Task → Bool) → List Task → List Task
tasks_where p [] = []
tasks_where p (t ∷ ts) = let rest = tasks_where p ts in if p t then t ∷ rest else rest

abbrev pub was_returned : Task → Bool
was_returned t = elim t.outcome [ none ↦ false | some o ↦ is_returned o ]

abbrev pub due_after : ℕ → Option ℕ → Option ℕ
due_after now none = none
due_after now (some days) = some (now + days * 86400)

abbrev pub escalation : Option ℕ → Option Approvers → Option (ℕ × Approvers)
escalation (some days) (some approvers) = some (days, approvers)
escalation _ _ = none

abbrev pub label : Node → String
label n = elim n.name [ none ↦ n.id | some name ↦ if name === "" then n.id else name ]

-- The task of a node, as `_open` writes it, and the instance that stands there.
abbrev pub new_task : ℕ → ℕ → Instance → Node → Task
new_task now task_id i n = record {
  id = task_id;
  instance_id = i.id;
  node_id = n.id;
  name = label n;
  approver_rule = n.approvers;
  mode = n.mode;
  allow_repeat = n.allow_repeat;
  status = opened;
  outcome = none;
  created_at = now;
  due_at = due_after now n.due_days;
  completed_at = none;
  escalated_at = none;
  escalation_rule = escalation n.escalate_after_days n.escalate_to;
}

abbrev pub opened_at : Instance → Node → Instance
opened_at i n = record i {
  route =
      i.route
      ++ step
          (record { node_id = n.id; state = open_step; decided_by = []; source_instance_id = none })
        ∷ [];
  current_node_id = some n.id;
}
