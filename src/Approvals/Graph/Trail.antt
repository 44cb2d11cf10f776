-- ===== src/Approvals/Graph/Trail.antt =====
-- The path of a walk, and its length (apps/api/src/flo/modules/approvals/preview.py).
use mathlib.Core.Path.{subst}
use xlr8_flo.Common.{
  ℕ, zero, suc, ◌≡◌, refl, sym, inl, inr, String, true, ◌||◌, Option, none, some, List, [], ◌∷◌,
  ◌++◌, length, or_right, Bool-cases, some-injective, none-ne-some, find_sound,
}
use xlr8_flo.Common.Equality.{◌===◌, ===_sound, String_eq}
use xlr8_flo.Common.Problems.{ok, ok-injective, err-ne-ok}
use xlr8_flo.Approvals.Conditions.{Attributes}
use xlr8_flo.Approvals.Graph.{
  Node, Edge, WorkflowGraph, Route, node_of, is_end, is_approval, choose, Walk, moved, walk_from,
  begin, walk,
}
use xlr8_flo.Approvals.Graph.Choices.{get_elem?, pass_result, choose-from}

-- A path of the graph from one node to another, with the indices of its edges.
pub data Trail (graph : WorkflowGraph) (from_node : String)
    : String → List String → List ℕ → Type 0 where
  at_start : Trail graph from_node from_node (from_node ∷ []) []
  onward :
      {id : String} {path : List String} {edges : List ℕ} (i : ℕ) (e : Edge)
      → Trail graph from_node id path edges
      → get_elem? graph.edges i ≡ some e
      → e.source ≡ id
      → Trail graph from_node e.target (path ++ e.target ∷ []) (edges ++ i ∷ [])

module _ (casefold : String → String) (attributes : Attributes) where
  -- A walk whose path leads to its node, which has been found in the graph.
  pub record Sound (graph : WorkflowGraph) (from_node : String) (w : Walk) : Type 0 where
    pub trail : Trail graph from_node w.node.id w.path w.path_edges

  moved-Sound :
      (graph : WorkflowGraph) (from_node : String) (w : Walk) (i : ℕ) (e : Edge) (entries : Route)
      (n : Node)
      → Sound graph from_node w
      → choose casefold graph attributes w.node ≡ ok (i, e, entries)
      → node_of e.target graph.nodes ≡ some n
      → Sound graph from_node (moved w i e entries n)
  unfolding node_of
  moved-Sound graph from_node w i e entries n s chosen found =
      let (at, source) = choose-from casefold attributes graph w.node chosen in
      let same : n.id ≡ e.target =
        ===_sound n.id e.target (find_sound (λ (m : Node). m.id === e.target) graph.nodes found) in
      record {
        trail =
            subst
              (λ id. Trail graph from_node id (w.path ++ e.target ∷ []) (w.path_edges ++ i ∷ []))
              (sym same) (onward i e s.trail at source);
      }

  abbrev Ended : Walk → Type 0
  Ended w = (is_approval w.node.kind || is_end w.node.kind) ≡ true

  abbrev Done : WorkflowGraph → String → Walk → Type 0
  Done graph from_node q = Sound graph from_node q × Ended q

  walk_from-Sound :
      (passes : ℕ) (graph : WorkflowGraph) (from_node : String) (w : Walk) {r : Walk}
      → Sound graph from_node w
      → walk_from casefold passes graph attributes w ≡ some (ok r)
      → Sound graph from_node r × Ended r
  unfolding walk_from
  walk_from-Sound zero graph from_node w s h = elim (Bool-cases (is_end w.node.kind)) [
    | inl finished ↦
        subst (Done graph from_node) (ok-injective (some-injective (rw (finished) at h)))
          (s, rw (finished) (or_right _))
    | inr open_end ↦ absurd (none-ne-some (rw (open_end) at h))
  ]
  walk_from-Sound (suc passes) graph from_node w {r} s h =
      pass_result graph w (is_end w.node.kind) (choose casefold graph attributes w.node) _
        (Done graph from_node) (λ e. (s, rw (e) (or_right _)))
        (λ i e entries n chosen found a.
          (moved-Sound graph from_node w i e entries n s chosen found, rw (a)))
        (λ i e entries n chosen found q k.
          walk_from-Sound passes graph from_node (moved w i e entries n)
            (moved-Sound graph from_node w i e entries n s chosen found) k)
        h

  -- A walk that returns has gone along a path of the graph, from the node it was given to the node it
  -- returns, which is an approval or an end; the indices it returns are those of the path's edges.
  pub walk-Trail :
      (graph : WorkflowGraph) (from_node : String) (route : Route) {r : Walk}
      → walk casefold graph attributes from_node route ≡ some (ok r)
      → Trail graph from_node r.node.id r.path r.path_edges
        × ((is_approval r.node.kind || is_end r.node.kind) ≡ true)
  unfolding walk node_of
  walk-Trail graph from_node route {r} h = walked (node_of from_node graph.nodes) refl h
    where
      walked :
          (o : Option Node)
          → node_of from_node graph.nodes ≡ o
          → begin casefold graph attributes from_node route o ≡ some (ok r)
          → Trail graph from_node r.node.id r.path r.path_edges
            × ((is_approval r.node.kind || is_end r.node.kind) ≡ true)
      walked none found k = absurd (err-ne-ok (some-injective k))
      walked (some n) found k =
          let same : n.id ≡ from_node =
            ===_sound n.id from_node
              (find_sound (λ (m : Node). m.id === from_node) graph.nodes found) in
          let (sound, ended) =
            walk_from-Sound (length graph.nodes) graph from_node _
              (record {
                trail =
                    subst (λ id. Trail graph from_node id (from_node ∷ []) []) (sym same) at_start;
              })
              k in
          (sound.trail, ended)
