-- ===== src/Approvals/Graph.antt =====
-- Workflow graphs (apps/api/src/flo/modules/approvals/schemas.py) and the walk along them
-- (apps/api/src/flo/modules/approvals/preview.py). The words that describe a branch are not modelled:
-- an entry of the route keeps what they are made from.
pub mod Choices
pub mod Trail
pub mod Ends
use xlr8_flo.Common.{
  ℕ, zero, suc, ◌+◌, String, Bool, true, false, Option, none, some, List, [], ◌∷◌, ◌++◌,
  if◌then◌else◌, find, length,
}
use xlr8_flo.Common.Equality.{◌===◌, String_eq}
use xlr8_flo.Common.Problems.{
  Problem, conflict, condition_error, key_error, Result, ok, err, ◌>>=◌, ◌>>◌,
}
use xlr8_flo.Approvals.Conditions.{Condition, Attributes, LeafTrace, evaluate}
use xlr8_flo.Approvals.Grammar.{Json, parse_condition}

-- Approvers
pub data Approvers : Type 0 where
  role : String → Approvers
  users : List ℕ → Approvers
  permission : Approvers

pub data Mode : Type 0 where
  any_one everyone : Mode
  quorum : ℕ → Mode

pub data NodeKind : Type 0 where
  start condition approval finish : NodeKind

-- An approval node has approvers and a mode, by the validator `approval_fields`; those of the other
-- kinds are not read.
pub record Node : Type 0 where
  pub id : String
  pub kind : NodeKind
  pub name : Option String
  pub approvers : Approvers
  pub mode : Mode
  pub due_days : Option ℕ
  pub escalate_after_days : Option ℕ
  pub escalate_to : Option Approvers
  pub allow_repeat : Bool

pub record Edge : Type 0 where
  pub source : String
  pub target : String
  pub when : Option Json
  pub default : Bool

pub record WorkflowGraph : Type 0 where
  pub nodes : List Node
  pub edges : List Edge

pub data RouteStepState : Type 0 where
  upcoming open_step completed carried : RouteStepState

-- An entry of `approval_instance.route`: a branch that was tried at a condition, with the branch that
-- was taken in the last one, or a step.
pub record Branch : Type 0 where
  pub condition_node_id : String
  pub target : String
  pub result : Bool
  pub trace : List LeafTrace
  pub taken : Option (Option Json × Bool)

pub record Step : Type 0 where
  pub node_id : String
  pub state : RouteStepState
  pub decided_by : List ℕ
  pub source_instance_id : Option ℕ

pub data RouteEntry : Type 0 where
  branch : Branch → RouteEntry
  step : Step → RouteEntry

abbrev pub Route : Type 0
Route = List RouteEntry

-- `nodes[id]`
unfoldable pub node_of : String → List Node → Option Node
unfolding find
node_of id nodes = find (λ n. n.id === id) nodes

-- `[e for e in graph.edges if e.from_ == node.id]`, each with its index in the list, which is also
-- that of the first edge equal to it when it is the first of those to be chosen.
unfoldable pub edges_from : String → ℕ → List Edge → List (ℕ × Edge)
edges_from id i [] = []
edges_from id i (e ∷ es) =
    let rest = edges_from id (i + 1) es in if e.source === id then (i, e) ∷ rest else rest

abbrev pub is_end : NodeKind → Bool
is_end finish = true
is_end _ = false

abbrev pub is_approval : NodeKind → Bool
is_approval approval = true
is_approval _ = false

abbrev pub route_blocked : Problem
route_blocked = conflict "route_blocked"

-- `except conditions.ConditionError`
abbrev pub blocked : Result (Bool × List LeafTrace) → Result (Bool × List LeafTrace)
blocked (err (condition_error field)) = err route_blocked
blocked r = r

unfoldable pub first_default : List (ℕ × Edge) → Option (ℕ × Edge)
first_default [] = none
first_default ((i, e) ∷ es) = if e.default then some (i, e) else first_default es

abbrev pub head : List (ℕ × Edge) → Option (ℕ × Edge)
head [] = none
head (e ∷ es) = some e

-- The last entry is updated with the branch that was taken.
unfoldable pub mark_last : (Option Json × Bool) → Route → Route
mark_last taken [] = []
mark_last taken (branch b ∷ []) = branch (record b { taken = some taken }) ∷ []
mark_last taken (step s ∷ []) = step s ∷ []
mark_last taken (x ∷ y ∷ rest) = x ∷ mark_last taken (y ∷ rest)

abbrev pub or_default : Option (ℕ × Edge) → List (ℕ × Edge) → Option (ℕ × Edge)
or_default (some e) edges = some e
or_default none edges = first_default edges

abbrev pub read_when : Option Json → Result (Option Condition)
read_when none = ok none
read_when (some j) = do c ← parse_condition j; ok (some c)

abbrev pub untried : String → Edge → Route → Route
untried id e [] =
    branch (record {
      condition_node_id = id;
      target = e.target;
      result = false;
      trace = [];
      taken = none;
    })
    ∷ []
untried id e (x ∷ xs) = x ∷ xs

-- One pass of the loop: the index of the edge that is taken, the edge, and the entries for the route.
abbrev pub Choice : Type 0
Choice = ℕ × Edge × Route

-- WalkResult, with the route that the walk leaves.
pub record Walk : Type 0 where
  pub node : Node
  pub path : List String
  pub path_edges : List ℕ
  pub route : Route

abbrev pub moved : Walk → ℕ → Edge → Route → Node → Walk
moved w i e entries n = record {
  node = n;
  path = w.path ++ e.target ∷ [];
  path_edges = w.path_edges ++ i ∷ [];
  route = w.route ++ entries;
}

abbrev pub arrive : Bool → Walk → (Walk → Option (Result Walk)) → Option (Result Walk)
arrive true w continue = some (ok w)
arrive false w continue = continue w

abbrev pub enter :
    Walk → ℕ → Edge → Route → Option Node → (Walk → Option (Result Walk)) → Option (Result Walk)
enter w i e entries none continue = some (err key_error)
enter w i e entries (some n) continue = arrive (is_approval n.kind) (moved w i e entries n) continue

-- One pass: it ends at an end, and at an approval that it enters.
unfoldable pub pass :
    WorkflowGraph
    → Walk
    → Bool
    → Result Choice
    → (Walk → Option (Result Walk))
    → Option (Result Walk)
pass graph w true choice continue = some (ok w)
pass graph w false (err e) continue = some (err e)
pass graph w false (ok (i, e, entries)) continue =
    enter w i e entries (node_of e.target graph.nodes) continue

abbrev pub taken_branch : String → Route → Option (ℕ × Edge) → Result Choice
taken_branch id tried none = err route_blocked
taken_branch id tried (some (i, e)) = do
  c ← read_when e.when
  ok (i, e, mark_last (e.when, e.default) (untried id e tried))

abbrev pub taken_edge : Option (ℕ × Edge) → Result Choice
taken_edge none = err route_blocked
taken_edge (some (i, e)) = ok (i, e, [])

module _ (casefold : String → String) where
  -- One edge of a condition, and the rest of them if its condition does not hold.
  abbrev pub try_one :
      Attributes
      → String
      → ℕ × Edge
      → Option Json
      → Route
      → (Route → Result (Option (ℕ × Edge) × Route))
      → Result (Option (ℕ × Edge) × Route)
  try_one attributes id (i, e) none tried rest = rest tried
  try_one attributes id (i, e) (some j) tried rest = do
    c ← parse_condition j
    (result, trace) ← blocked (evaluate casefold c attributes)
    let tried₁ : Route =
        tried
        ++ branch (record {
          condition_node_id = id;
          target = e.target;
          result = result;
          trace = trace;
          taken = none;
        })
          ∷ []
    if result then ok (some (i, e), tried₁) else rest tried₁

  -- The edges of a condition in order, up to the first whose condition holds.
  unfoldable pub try_edges :
      Attributes → String → List (ℕ × Edge) → Route → Result (Option (ℕ × Edge) × Route)
  try_edges attributes id [] tried = ok (none, tried)
  try_edges attributes id ((i, e) ∷ es) tried =
      try_one attributes id (i, e) e.when tried (λ t. try_edges attributes id es t)

  abbrev pub choose_at : NodeKind → Attributes → String → List (ℕ × Edge) → Result Choice
  choose_at condition attributes id edges = do
    (chosen, tried) ← try_edges attributes id edges []
    taken_branch id tried (or_default chosen edges)
  choose_at _ attributes id edges = taken_edge (head edges)

  -- The edge that the walk takes from a node that is no end.
  unfoldable pub choose : WorkflowGraph → Attributes → Node → Result Choice
  choose graph attributes n = choose_at n.kind attributes n.id (edges_from n.id 0 graph.edges)

  -- The loop, for as many passes; `none` tells that they did not suffice.
  unfoldable pub walk_from : ℕ → WorkflowGraph → Attributes → Walk → Option (Result Walk)
  walk_from zero graph attributes w = if is_end w.node.kind then some (ok w) else none
  walk_from (suc passes) graph attributes w =
      pass graph w (is_end w.node.kind) (choose graph attributes w.node)
        (λ w₁. walk_from passes graph attributes w₁)

  abbrev pub begin :
      WorkflowGraph → Attributes → String → Route → Option Node → Option (Result Walk)
  begin graph attributes from_node route none = some (err key_error)
  begin graph attributes from_node route (some n) =
      walk_from (length graph.nodes) graph attributes
        (record { node = n; path = from_node ∷ []; path_edges = []; route = route })

  -- `walk`, from a node that is named.
  unfoldable pub walk : WorkflowGraph → Attributes → String → Route → Option (Result Walk)
  walk graph attributes from_node route =
      begin graph attributes from_node route (node_of from_node graph.nodes)
