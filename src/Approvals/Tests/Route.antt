-- ===== src/Approvals/Tests/Route.antt =====
-- A workflow at work: a condition on the amount leads to an approval or to the end.
use mathlib.Core.Path.{subst}
use xlr8_flo.Common.{
  ℕ, zero, suc, all, some-injective, none-ne-some, ◌<◌, ◌≡◌, refl, ◌||◌, String, true, false, none,
  some, [], ◌∷◌, arith, find, if◌then◌else◌, any,
}
use xlr8_flo.Common.Equality.{◌===◌, String_eq}
use xlr8_flo.Common.Problems.{Result, ok, raise_if}
use xlr8_flo.Money.{currency_exponent, exponent_of, is_code, is_upper, is_lower}
use xlr8_flo.Money.Currencies.{iso4217}
use xlr8_flo.Approvals.Values.{priced, span_digits, number, parse_amount, from_iso}
use xlr8_flo.Approvals.Conditions.{
  Condition, leaf, gt, get, compare_values, compare, visit_leaf, visit, evaluate,
}
use xlr8_flo.Approvals.Grammar.{each, limits, read_items, validate, parse_condition}
use xlr8_flo.Approvals.Grammar.RoundTrip.{to_json}
use xlr8_flo.Approvals.Graph.{
  Node, Edge, WorkflowGraph, permission, any_one, quorum, NodeKind, start, condition, approval,
  finish, Route, branch, node_of, edges_from, first_default, mark_last, try_edges, choose, pass,
  walk_from, Walk, walk, is_approval, is_end,
}
use xlr8_flo.Approvals.Graph.Trail.{Trail, walk-Trail}
use xlr8_flo.Approvals.Graph.Ends.{walk-terminates}
use xlr8_flo.Approvals.Graph.Choices.{get_elem?}
use xlr8_flo.Approvals.Tests.Conditions.{same_case, request, amount_trace}

abbrev pub over_1000 : Condition
over_1000 = leaf (record {
  field = "amount";
  op = gt;
  value = priced (record { amount = "1000.00"; currency = "EUR" });
})

abbrev pub plain : String → NodeKind → Node
plain id kind = record {
  id = id;
  kind = kind;
  name = none;
  approvers = permission;
  mode = any_one;
  due_days = none;
  escalate_after_days = none;
  escalate_to = none;
  allow_repeat = false;
}

abbrev pub manager : Node
manager = record (plain "manager" approval) { mode = quorum 2; due_days = some 3 }

abbrev pub graph : WorkflowGraph
graph = record {
  nodes = plain "start" start ∷ plain "amount" condition ∷ manager ∷ plain "end" finish ∷ [];
  edges =
      record { source = "start"; target = "amount"; when = none; default = false }
      ∷ record {
        source = "amount";
        target = "manager";
        when = some (to_json over_1000);
        default = false;
      }
      ∷ record { source = "amount"; target = "end"; when = none; default = true }
      ∷ record { source = "manager"; target = "end"; when = none; default = false }
      ∷ [];
}

abbrev pub first_route : Route
first_route =
    branch (record {
      condition_node_id = "amount";
      target = "manager";
      result = true;
      trace = amount_trace ∷ [];
      taken = some (some (to_json over_1000), false);
    })
    ∷ []

abbrev pub reached : Walk
reached = record {
  node = manager;
  path = "start" ∷ "amount" ∷ "manager" ∷ [];
  path_edges = 0 ∷ 1 ∷ [];
  route = first_route;
}

walk_runs : walk same_case graph request "start" [] ≡ some (ok reached)
unfolding walk walk_from pass choose try_edges edges_from mark_last node_of find first_default
    parse_condition limits validate each read_items evaluate visit visit_leaf get compare
    compare_values parse_amount from_iso span_digits number raise_if any currency_exponent
    exponent_of is_code is_upper is_lower iso4217 all
walk_runs = refl

walk-Trail_example :
    Trail graph "start" "manager" ("start" ∷ "amount" ∷ "manager" ∷ []) (0 ∷ 1 ∷ [])
    × ((is_approval approval || is_end approval) ≡ true)
walk-Trail_example = walk-Trail same_case request graph "start" [] walk_runs

abbrev rank : String → ℕ
rank id =
    if id === "start" then 3 else if id === "amount" then 2 else if id === "manager" then 1 else 0

abbrev Falls : Edge → Type 0
Falls e = rank e.target < rank e.source

edges_fall : (i : ℕ) (e : Edge) → get_elem? graph.edges i ≡ some e → rank e.target < rank e.source
edges_fall zero e h = subst Falls (some-injective h) (omega arith)
edges_fall (suc zero) e h = subst Falls (some-injective h) (omega arith)
edges_fall (suc (suc zero)) e h = subst Falls (some-injective h) (omega arith)
edges_fall (suc (suc (suc zero))) e h = subst Falls (some-injective h) (omega arith)
edges_fall (suc (suc (suc (suc i)))) e h = absurd (none-ne-some h)

walk-terminates_example : (r : Result Walk) × (walk same_case graph request "start" [] ≡ some r)
walk-terminates_example =
    walk-terminates same_case request graph rank "start" [] edges_fall (omega arith)
