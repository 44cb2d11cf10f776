-- ===== src/Ledger/Transfers/Legs.antt =====
-- The legs of a transfer: `plan_legs` of apps/api/src/flo/modules/budget/transfers.py.
use xlr8_flo.Common.{
  ℕ, suc, ◌≡◌, refl, sym, ap, ◌∙◌, inl, inr, Bool, ◌||◌, Option, none, some, List, [], ◌∷◌, ◌==◌,
  ==_iff, if◌then◌else◌, find, find_sound, arith,
}
use xlr8_flo.Common.Int.{ℤ, pos, ◌+ℤ◌, ◌-ℤ◌, neg, int_laws}
use xlr8_flo.Common.Problems.{ok, >>=-eq-ok, if-ok, ok-injective}
use xlr8_flo.Ledger.Tables.{Db, Project, JsonValue}
use xlr8_flo.Ledger.Paths.{TreePath, path_between}
use xlr8_flo.Ledger.Paths.Route.{last_of, Route, path_between-Route}
use xlr8_flo.Ledger.Transfers.{
  Leg, or_raise, node_at, hop_legs, direct_legs, route_legs, plan_legs, is_roll_up,
}

-- What the legs give to a project, less what they take from it.
pub net : ℕ → List Leg → ℤ
net p [] = pos 0
net p (l ∷ ls) = (if l.node.id == p then l.amount else pos 0) +ℤ net p ls

-- An amount for one project, and nothing for the others.
abbrev pub only : ℕ → ℕ → ℤ → ℤ
only q p x = if q == p then x else pos 0

or_raise-ok : (found : Option Project) {n : Project} → or_raise found ≡ ok n → found ≡ some n
unfolding or_raise
or_raise-ok none h = cc
or_raise-ok (some p) h = ap some (ok-injective h)

node_at-id : (id : ℕ) (nodes : List Project) {n : Project} → node_at id nodes ≡ ok n → n.id ≡ id
unfolding node_at
node_at-id id nodes {n} h =
    (==_iff n.id id).0
      (find_sound (λ p. p.id == id) nodes (or_raise-ok (find (λ p. p.id == id) nodes) h))

neg-sub : (x : ℤ) → neg x ≡ pos 0 -ℤ x
neg-sub x = omega int_laws

zero-sub : pos 0 ≡ pos 0 -ℤ pos 0
zero-sub = omega int_laws

only-neg : (q p : ℕ) (x : ℤ) → only q p (neg x) ≡ pos 0 -ℤ only q p x
only-neg q p x = ground (arith, neg-sub x, zero-sub)

net-hop :
    (p a b c : ℕ) (x : ℤ) (legs : List Leg)
    → net p legs ≡ only c p x -ℤ only b p x
    → only a p (neg x) +ℤ (only b p x +ℤ net p legs) ≡ only c p x -ℤ only a p x
net-hop p a b c x legs h = rw (only-neg a p x, h) (omega int_laws)

nothing : (x : ℤ) → pos 0 ≡ x -ℤ x
nothing x = omega int_laws

leg_share :
    (p : ℕ) (n : Project) (id : ℕ) (x : ℤ)
    → n.id ≡ id
    → (if n.id == p then x else pos 0) ≡ only id p x
leg_share p n id x same = rw (same)

-- Along a route each node passes on what it gets.
hop_legs-net :
    (hop : ℕ) (nodes : List Project) (x : ℤ) (a : ℕ) (rest : List ℕ) {legs : List Leg} (p : ℕ)
    → hop_legs hop nodes x (a ∷ rest) ≡ ok legs
    → net p legs ≡ only (last_of a rest) p x -ℤ only a p x
unfolding hop_legs net
hop_legs-net hop nodes x a [] {legs} p h = ap (net p) (sym (ok-injective h)) ∙ nothing (only a p x)
hop_legs-net hop nodes x a (b ∷ rest) {legs} p h =
    let (source, at_a, h₁) = >>=-eq-ok (node_at a nodes) _ h in
    let (target, at_b, h₂) = >>=-eq-ok (node_at b nodes) _ h₁ in
    let (later, tail, h₃) = >>=-eq-ok (hop_legs (suc hop) nodes x (b ∷ rest)) _ h₂ in
    let rest_net = hop_legs-net (suc hop) nodes x b rest p tail in
    ap (net p) (sym (ok-injective h₃))
    ∙ rw
        (
          leg_share p source a (neg x) (node_at-id a nodes at_a),
          leg_share p target b x (node_at-id b nodes at_b),
        )
        (net-hop p a b (last_of b rest) x later rest_net)

direct_legs-net :
    (nodes : List Project) (a b : ℕ) (x : ℤ) {legs : List Leg} (p : ℕ)
    → direct_legs nodes a b x ≡ ok legs
    → net p legs ≡ only b p x -ℤ only a p x
unfolding direct_legs net
direct_legs-net nodes a b x {legs} p h =
    let (source, at_a, h₁) = >>=-eq-ok (node_at a nodes) _ h in
    let (target, at_b, h₂) = >>=-eq-ok (node_at b nodes) _ h₁ in
    ap (net p) (sym (ok-injective h₂))
    ∙ rw
        (
          leg_share p source a (neg x) (node_at-id a nodes at_a),
          leg_share p target b x (node_at-id b nodes at_b),
        )
        (net-hop p a b b x [] (nothing (only b p x)))

route_legs-net :
    (m : Option ℕ) (nodes : List Project) (path : TreePath) (a b : ℕ) (x : ℤ) {legs : List Leg}
    (p : ℕ)
    → ((c : ℕ) → m ≡ some c → Route a b path c)
    → route_legs m nodes path a b x ≡ ok legs
    → net p legs ≡ only b p x -ℤ only a p x
unfolding route_legs
route_legs-net none nodes path a b x p route h = direct_legs-net nodes a b x p h
route_legs-net (some c) nodes path a b x p route h =
    let r = route c refl in
    hop_legs-net 0 nodes x a r.rest p (ap (hop_legs 0 nodes x) (sym r.nodes) ∙ h)
    ∙ ap (λ i. only i p x -ℤ only a p x) r.end

-- Whatever the plan of a transfer along the path between two projects (one direct hop, or a chain
-- of hops through the tree), its legs together give the amount to the recipient, take it from the
-- giver, and leave every other project with what it had.
pub plan_legs-net :
    (nodes : List Project) (a b : ℕ) (db : Db) (siblings : Bool) (mode : JsonValue) (x : ℤ)
    {path : TreePath} {legs : List Leg}
    → path_between a b db ≡ ok path
    → plan_legs nodes path a b siblings mode x ≡ ok legs
    → (p : ℕ) → net p legs ≡ only b p x -ℤ only a p x
unfolding plan_legs
plan_legs-net nodes a b db siblings mode x {path} found h p =
    elim (if-ok (siblings || is_roll_up mode) (direct_legs nodes a b x)
      (route_legs path.lca nodes path a b x) h) [
        | inl (_, direct) ↦ direct_legs-net nodes a b x p direct
        | inr (_, routed) ↦
            route_legs-net path.lca nodes path a b x p
              (λ c met. path_between-Route a b db c found met) routed
      ]
