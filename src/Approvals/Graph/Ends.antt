-- ===== src/Approvals/Graph/Ends.antt =====
-- The end of the loop of `walk` in apps/api/src/flo/modules/approvals/preview.py.
use xlr8_flo.Common.{
  ℕ, zero, suc, ◌<◌, ◌≡◌, refl, ap, inl, inr, String, Bool, true, false, Option, none, some, length,
  arith, Bool-cases, find_sound,
}
use xlr8_flo.Common.Equality.{◌===◌, ===_sound, String_eq}
use xlr8_flo.Common.Problems.{key_error, Result, ok, err}
use xlr8_flo.Approvals.Conditions.{Attributes}
use xlr8_flo.Approvals.Graph.{
  Node, Edge, WorkflowGraph, Route, node_of, is_end, is_approval, choose, Choice, Walk, moved,
  enter, pass, walk_from, begin, walk,
}
use xlr8_flo.Approvals.Graph.Choices.{get_elem?, choose-from}

abbrev Returned : Option (Result Walk) → Type 0
Returned o = (r : Result Walk) × (o ≡ some r)

module _ (graph : WorkflowGraph) (w : Walk) where
  enter_returns :
      (i : ℕ) (e : Edge) (entries : Route) (o : Option Node)
      (continue : Walk → Option (Result Walk))
      → ((n : Node) → o ≡ some n → Returned (continue (moved w i e entries n)))
      → Returned (enter w i e entries o continue)
  enter_returns i e entries none continue on = (err key_error, refl)
  enter_returns i e entries (some n) continue on = elim (Bool-cases (is_approval n.kind)) [
    | inl stops ↦ (ok (moved w i e entries n), rw (stops))
    | inr goes ↦ rw (goes) (on n refl)
  ]

  -- A pass returns when the rest of the walk does.
  pass_returns :
      (b : Bool) (c : Result Choice) (continue : Walk → Option (Result Walk))
      → ((i : ℕ) (e : Edge) (entries : Route) (n : Node)
          → c ≡ ok (i, e, entries)
          → node_of e.target graph.nodes ≡ some n
          → Returned (continue (moved w i e entries n)))
      → Returned (pass graph w b c continue)
  unfolding pass
  pass_returns true c continue on = (ok w, refl)
  pass_returns false (err e) continue on = (err e, refl)
  pass_returns false (ok (i, e, entries)) continue on =
      enter_returns i e entries (node_of e.target graph.nodes) continue
        (λ n found. on i e entries n refl found)

module _ (casefold : String → String) (attributes : Attributes) where
  walk_from-returns :
      (graph : WorkflowGraph) (rank : String → ℕ) (passes : ℕ) (w : Walk)
      → ((i : ℕ) (e : Edge) → get_elem? graph.edges i ≡ some e → rank e.target < rank e.source)
      → rank w.node.id < passes
      → Returned (walk_from casefold passes graph attributes w)
  unfolding walk_from node_of
  walk_from-returns graph rank zero w falls low = absurd (omega arith)
  walk_from-returns graph rank (suc passes) w falls low =
      pass_returns graph w (is_end w.node.kind) (choose casefold graph attributes w.node) _
        (λ i e entries n chosen found.
          let (at, source) = choose-from casefold attributes graph w.node chosen in
          let same : n.id ≡ e.target =
            ===_sound n.id e.target
              (find_sound (λ (m : Node). m.id === e.target) graph.nodes found) in
          walk_from-returns graph rank passes (moved w i e entries n) falls
            (omega (arith, falls i e at, ap rank same, ap rank source)))

  -- On an acyclic graph, which has numbers for its nodes that fall along each edge, from a node whose
  -- number is below the count of the nodes, the passes of the walk suffice: it returns or raises.
  pub walk-terminates :
      (graph : WorkflowGraph) (rank : String → ℕ) (from_node : String) (route : Route)
      → ((i : ℕ) (e : Edge) → get_elem? graph.edges i ≡ some e → rank e.target < rank e.source)
      → rank from_node < length graph.nodes
      → (r : Result Walk) × (walk casefold graph attributes from_node route ≡ some r)
  unfolding walk node_of
  walk-terminates graph rank from_node route falls low = begun (node_of from_node graph.nodes) refl
    where
      begun :
          (o : Option Node)
          → node_of from_node graph.nodes ≡ o
          → Returned (begin casefold graph attributes from_node route o)
      begun none found = (err key_error, refl)
      begun (some n) found =
          let same : n.id ≡ from_node =
            ===_sound n.id from_node
              (find_sound (λ (m : Node). m.id === from_node) graph.nodes found) in
          walk_from-returns graph rank (length graph.nodes) _ falls (omega (arith, ap rank same))
