-- ===== src/Approvals/Graph/Choices.antt =====
-- The edge that a walk takes: the choice at a node of `walk` in
-- apps/api/src/flo/modules/approvals/preview.py, which is an edge that leaves the node.
use mathlib.Core.Path.{subst}
use xlr8_flo.Common.{
  ℕ, zero, suc, ◌+◌, ◌≡◌, refl, sym, ap, ◌∙◌, inl, inr, String, Bool, true, false, Option, none,
  some, List, [], ◌∷◌, arith, Bool-cases, some-injective, if-some, none-ne-some,
}
use xlr8_flo.Common.Equality.{◌===◌, ===_sound, String_eq}
use xlr8_flo.Common.Problems.{Result, ok, err, >>=-eq-ok, ok-injective, err-ne-ok, if-ok}
use xlr8_flo.Approvals.Conditions.{Attributes, evaluate}
use xlr8_flo.Approvals.Grammar.{parse_condition}
use xlr8_flo.Approvals.Graph.{
  Node, Edge, WorkflowGraph, Route, node_of, edges_from, is_approval, blocked, first_default, head,
  or_default, try_one, try_edges, choose_at, choose, Choice, taken_branch, taken_edge, Walk, moved,
  arrive, enter, pass, read_when, NodeKind, condition, start, approval, finish,
}

-- The element at an index.
abbrev pub get_elem? {ℓ} : {A : Type ℓ} → List A → ℕ → Option A
get_elem? [] i = none
get_elem? (x ∷ xs) zero = some x
get_elem? (x ∷ xs) (suc i) = get_elem? xs i

-- The edge of an index, in a list whose head has the index `k`, that leaves a node.
abbrev pub Leaves : List Edge → String → ℕ → (ℕ × Edge) → Type 0
Leaves es id k (i, e) = (j : ℕ) × (i ≡ k + j) × (get_elem? es j ≡ some e) × (e.source ≡ id)

abbrev pub AllLeave : List Edge → String → List (ℕ × Edge) → Type 0
AllLeave es id [] = Unit
AllLeave es id (c ∷ cs) = Leaves es id 0 c × AllLeave es id cs

abbrev pub AllFrom : List Edge → String → ℕ → List (ℕ × Edge) → Type 0
AllFrom es id k [] = Unit
AllFrom es id k (c ∷ cs) = Leaves es id k c × AllFrom es id k cs

pub AllFrom-suc :
    (x : Edge) (es : List Edge) (id : String) (k : ℕ) (cs : List (ℕ × Edge))
    → AllFrom es id (k + 1) cs
    → AllFrom (x ∷ es) id k cs
AllFrom-suc x es id k [] h = tt
AllFrom-suc x es id k ((i, e) ∷ cs) h =
    let (j, at, found, source) = h.0 in
    ((suc j, omega arith, found, source), AllFrom-suc x es id k cs h.1)

pub edges_from-AllFrom :
    (id : String) (k : ℕ) (es : List Edge) → AllFrom es id k (edges_from id k es)
unfolding edges_from
edges_from-AllFrom id k [] = tt
edges_from-AllFrom id k (e ∷ es) =
    let rest = AllFrom-suc e es id k _ (edges_from-AllFrom id (k + 1) es) in
    elim (Bool-cases (e.source === id)) [
      | inl same ↦ rw (same) ((0, omega arith, refl, ===_sound e.source id same), rest)
      | inr other ↦ rw (other) rest
    ]

-- What is chosen is one of the edges.
pub first_default-from :
    (es : List Edge) (id : String) (k : ℕ) (cs : List (ℕ × Edge)) {c : ℕ × Edge}
    → AllFrom es id k cs
    → first_default cs ≡ some c
    → Leaves es id k c
unfolding first_default
first_default-from es id k [] all h = absurd (cc)
first_default-from es id k ((i, e) ∷ cs) {c} all h = elim (if-some e.default (i, e) _ h) [
  | inl found ↦ subst (Leaves es id k) found all.0
  | inr later ↦ first_default-from es id k cs all.1 later
]

pub head-from :
    (es : List Edge) (id : String) (k : ℕ) (cs : List (ℕ × Edge)) {c : ℕ × Edge}
    → AllFrom es id k cs
    → head cs ≡ some c
    → Leaves es id k c
head-from es id k [] all h = absurd (cc)
head-from es id k (c ∷ cs) all h = subst (Leaves es id k) (some-injective h) all.0

pub or_default-from :
    (es : List Edge) (id : String) (k : ℕ) (o : Option (ℕ × Edge)) (cs : List (ℕ × Edge))
    {c : ℕ × Edge}
    → ((d : ℕ × Edge) → o ≡ some d → Leaves es id k d)
    → AllFrom es id k cs
    → or_default o cs ≡ some c
    → Leaves es id k c
or_default-from es id k none cs chosen all h = first_default-from es id k cs all h
or_default-from es id k (some d) cs chosen all h = chosen _ h

pub taken_branch-from :
    (es : List Edge) (id : String) (k : ℕ) (tried : Route) (o : Option (ℕ × Edge)) {i : ℕ}
    {e : Edge} {entries : Route}
    → ((d : ℕ × Edge) → o ≡ some d → Leaves es id k d)
    → taken_branch id tried o ≡ ok (i, e, entries)
    → Leaves es id k (i, e)
taken_branch-from es id k tried none chosen h = absurd (err-ne-ok h)
taken_branch-from es id k tried (some (j, d)) chosen h =
    let (_, _, h₁) = >>=-eq-ok (read_when d.when) _ h in
    subst (λ (c : Choice). Leaves es id k (c.0, c.1)) (ok-injective h₁) (chosen (j, d) refl)

pub taken_edge-from :
    (es : List Edge) (id : String) (k : ℕ) (o : Option (ℕ × Edge)) {i : ℕ} {e : Edge}
    {entries : Route}
    → ((d : ℕ × Edge) → o ≡ some d → Leaves es id k d)
    → taken_edge o ≡ ok (i, e, entries)
    → Leaves es id k (i, e)
taken_edge-from es id k none chosen h = absurd (err-ne-ok h)
taken_edge-from es id k (some (j, d)) chosen h =
    subst (λ (c : Choice). Leaves es id k (c.0, c.1)) (ok-injective h) (chosen (j, d) refl)

module _ (graph : WorkflowGraph) (w : Walk) where
  pub enter_result :
      (i : ℕ) (e : Edge) (entries : Route) (o : Option Node)
      (continue : Walk → Option (Result Walk)) (P : Walk → Type 0) {r : Walk}
      → ((n : Node) → o ≡ some n → is_approval n.kind ≡ true → P (moved w i e entries n))
      → ((n : Node) → o ≡ some n → continue (moved w i e entries n) ≡ some (ok r) → P r)
      → enter w i e entries o continue ≡ some (ok r)
      → P r
  enter_result i e entries none continue P stop on h = absurd (err-ne-ok (some-injective h))
  enter_result i e entries (some n) continue P {r} stop on h = arrived (is_approval n.kind) refl h
    where
      arrived :
          (b : Bool)
          → is_approval n.kind ≡ b
          → arrive b (moved w i e entries n) continue ≡ some (ok r)
          → P r
      arrived true a k = subst P (ok-injective (some-injective k)) (stop n refl a)
      arrived false a k = on n refl k

  -- What holds of the walk that a pass returns.
  pub pass_result :
      (b : Bool) (c : Result Choice) (continue : Walk → Option (Result Walk)) (P : Walk → Type 0)
      {r : Walk}
      → (b ≡ true → P w)
      → ((i : ℕ) (e : Edge) (entries : Route) (n : Node)
          → c ≡ ok (i, e, entries)
          → node_of e.target graph.nodes ≡ some n
          → is_approval n.kind ≡ true
          → P (moved w i e entries n))
      → ((i : ℕ) (e : Edge) (entries : Route) (n : Node)
          → c ≡ ok (i, e, entries)
          → node_of e.target graph.nodes ≡ some n
          → Unit {0}
          → continue (moved w i e entries n) ≡ some (ok r)
          → P r)
      → pass graph w b c continue ≡ some (ok r)
      → P r
  unfolding pass
  pass_result true c continue P finished stop on h =
      subst P (ok-injective (some-injective h)) (finished refl)
  pass_result false (err e) continue P finished stop on h = absurd (err-ne-ok (some-injective h))
  pass_result false (ok (i, e, entries)) continue P finished stop on h =
      enter_result i e entries (node_of e.target graph.nodes) continue P
        (λ n found a. stop i e entries n refl found a)
        (λ n found k. on i e entries n refl found tt k) h

module _ (casefold : String → String) (attributes : Attributes) where
  pub try_one-from :
      (P : ℕ × Edge → Type 0) (id : String) (c : ℕ × Edge) (o : Option _) (tried : Route)
      (rest : Route → Result (Option (ℕ × Edge) × Route)) {d : ℕ × Edge} {r : Route}
      → P c
      → ((t : Route) (e : ℕ × Edge) (s : Route) → rest t ≡ ok (some e, s) → P e)
      → try_one casefold attributes id c o tried rest ≡ ok (some d, r)
      → P d
  try_one-from P id (i, e) none tried rest first later h = later tried _ _ h
  try_one-from P id (i, e) (some j) tried rest {d} first later h =
      let (c, _, h₁) = >>=-eq-ok (parse_condition j) _ h in
      let (p, _, h₂) = >>=-eq-ok (blocked (evaluate casefold c attributes)) _ h₁ in
      elim (if-ok p.0 _ _ h₂) [
        | inl (_, taken) ↦
            subst P
              (some-injective (ap (λ (q : Option (ℕ × Edge) × Route). q.0) (ok-injective taken)))
              first
        | inr (_, next) ↦ later _ _ _ next
      ]

  pub try_edges-from :
      (es : List Edge) (id : String) (k : ℕ) (cs : List (ℕ × Edge)) (tried : Route) {c : ℕ × Edge}
      {r : Route}
      → AllFrom es id k cs
      → try_edges casefold attributes id cs tried ≡ ok (some c, r)
      → Leaves es id k c
  unfolding try_edges
  try_edges-from es id k [] tried all h =
      absurd (none-ne-some (ap (λ (q : Option (ℕ × Edge) × Route). q.0) (ok-injective h)))
  try_edges-from es id k ((i, e) ∷ cs) tried all h =
      try_one-from (Leaves es id k) id (i, e) e.when tried _ all.0
        (λ t d s next. try_edges-from es id k cs t all.1 next) h

  pub choose_at-from :
      (kind : NodeKind) (es : List Edge) (id : String) (k : ℕ) (cs : List (ℕ × Edge)) {i : ℕ}
      {e : Edge} {entries : Route}
      → AllFrom es id k cs
      → choose_at casefold kind attributes id cs ≡ ok (i, e, entries)
      → Leaves es id k (i, e)
  choose_at-from condition es id k cs all h =
      let (p, tried, h₁) = >>=-eq-ok (try_edges casefold attributes id cs []) _ h in
      taken_branch-from es id k p.1 (or_default p.0 cs)
        (λ d found.
          or_default-from es id k p.0 cs
            (λ c chosen.
              try_edges-from es id k cs [] {r = p.1} all (tried ∙ ap (λ o. ok (o, p.1)) chosen))
            all found)
        h₁
  choose_at-from start es id k cs all h =
      taken_edge-from es id k (head cs) (λ d found. head-from es id k cs all found) h
  choose_at-from approval es id k cs all h =
      taken_edge-from es id k (head cs) (λ d found. head-from es id k cs all found) h
  choose_at-from finish es id k cs all h =
      taken_edge-from es id k (head cs) (λ d found. head-from es id k cs all found) h

  pub choose-from :
      (graph : WorkflowGraph) (n : Node) {i : ℕ} {e : Edge} {entries : Route}
      → choose casefold graph attributes n ≡ ok (i, e, entries)
      → (get_elem? graph.edges i ≡ some e) × (e.source ≡ n.id)
  unfolding choose
  choose-from graph n {i} {e} h =
      let (j, at, found, source) =
        choose_at-from n.kind graph.edges n.id 0 _ (edges_from-AllFrom n.id 0 graph.edges) h in
      let same : i ≡ j = omega arith in
      (subst (λ k. get_elem? graph.edges k ≡ some e) (sym same) found, source)
