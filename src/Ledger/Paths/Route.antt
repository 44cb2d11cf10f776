-- ===== src/Ledger/Paths/Route.antt =====
-- The route of `common_path` (apps/api/src/flo/modules/projects/hierarchy.py).
use mathlib.Core.Path.{subst}
use mathlib.Core.List.{reverse, reverse-cons}
use xlr8_flo.Common.{
  some-injective, ℕ, suc, ◌≡◌, refl, sym, ap, ◌∙◌, inl, inr, false, Option, none, some, List, [],
  ◌∷◌, ◌++◌, ◌==◌, ==_iff, Option-cases, Bool-cases, find_sound,
}
use xlr8_flo.Common.Problems.{ok, >>=-eq-ok, >>-eq-ok, ok-injective}
use xlr8_flo.Ledger.Tables.{Db, Project, project_of}
use xlr8_flo.Ledger.Paths.{
  TreePath, is_empty, upward, walk_up, before, meeting, path_to, path_between,
}

abbrev pub last_of : ℕ → List ℕ → ℕ
last_of a [] = a
last_of a (b ∷ rest) = last_of b rest

-- A list of nodes that starts at the project of a number.
record Starts (id : ℕ) (ps : List Project) : Type 0 where
  pub node : Project
  pub rest : List Project
  pub shape : ps ≡ node ∷ rest
  pub number : node.id ≡ id

pub project_number : (id : ℕ) (db : Db) {p : Project} → project_of id db ≡ some p → p.id ≡ id
unfolding project_of
project_number id db {p} h = (==_iff p.id id).0 (find_sound (λ q. q.id == id) db.projects h)

upward-Starts :
    (n id : ℕ) (db : Db)
    → is_empty (upward (suc n) (some id) db) ≡ false
    → Starts id (upward (suc n) (some id) db)
unfolding upward
upward-Starts n id db h = elim (Option-cases (project_of id db)) [
  | inl absent ↦ cc (rw (absent, is_empty, upward) at h)
  | inr (p, found) ↦ record {
    node = p;
    rest = upward n p.parent_id db;
    shape = rw (found, upward);
    number = project_number id db found;
  }
]

walk_up-Starts : (id : ℕ) (db : Db) {ps : List Project} → walk_up id db ≡ ok ps → Starts id ps
unfolding walk_up
walk_up-Starts id db h =
    let (full, h₁) = >>-eq-ok _ _ _ h in
    subst (Starts id) (ok-injective h₁) (upward-Starts 5 id db full)

last-append : (a : ℕ) (xs : List ℕ) (y : ℕ) → last_of a (xs ++ y ∷ []) ≡ y
last-append a [] y = refl
last-append a (x ∷ xs) y = last-append x xs y

last-route : (a c : ℕ) (xs ys : List ℕ) → last_of a (xs ++ c ∷ ys) ≡ last_of c ys
last-route a c [] ys = refl
last-route a c (x ∷ xs) ys = last-route x c xs ys

-- The way up starts at its project, the meeting node included.
before-starts :
    (c : ℕ) (p : Project) (ps : List Project) (ys : List ℕ)
    → (rest : List ℕ) × (before c (p ∷ ps) ++ c ∷ ys ≡ p.id ∷ rest)
unfolding before
before-starts c p ps ys = elim (Bool-cases (p.id == c)) [
  | inl met ↦ (ys, rw (met) (ap (λ i. i ∷ ys) (sym ((==_iff p.id c).0 met))))
  | inr apart ↦ (before c ps ++ c ∷ ys, rw (apart))
]

-- The way down ends at its project.
before-ends :
    (c : ℕ) (q : Project) (qs : List Project) → last_of c (reverse (before c (q ∷ qs))) ≡ q.id
unfolding before
before-ends c q qs = elim (Bool-cases (q.id == c)) [
  | inl met ↦ rw (met) (sym ((==_iff q.id c).0 met))
  | inr apart ↦ rw (apart) (
      ap (last_of c) (reverse-cons q.id (before c qs)) ∙ last-append c (reverse (before c qs)) q.id)
]

-- The nodes of a route, from the way up to the way down.
abbrev pub route_of : TreePath → ℕ → List ℕ
route_of path c = path.up ++ c ∷ path.down

-- A path with a meeting node, as a route.
pub record Route (a b : ℕ) (path : TreePath) (c : ℕ) : Type 0 where
  pub rest : List ℕ
  pub nodes : route_of path c ≡ a ∷ rest
  pub end : last_of a rest ≡ b

routed :
    (a b c : ℕ) (p q : Project) (ps qs : List Project)
    → p.id ≡ a
    → q.id ≡ b
    → Route a b
        (record { up = before c (p ∷ ps); lca = some c; down = reverse (before c (q ∷ qs)) })
        c
routed a b c p q ps qs first second =
    let (rest, starts) = before-starts c p ps (reverse (before c (q ∷ qs))) in
    record {
      rest = rest;
      nodes = starts ∙ ap (λ i. i ∷ rest) first;
      end =
          ap (λ i. last_of i rest) (sym first)
          ∙ ap (last_of a) (sym starts)
          ∙ last-route a c (before c (p ∷ ps)) (reverse (before c (q ∷ qs)))
          ∙ before-ends c q qs
          ∙ second;
    }

path_to-Route :
    (a b c : ℕ) (m : Option Project) (xs ys : List Project)
    → Starts a xs
    → Starts b ys
    → (path_to m xs ys).lca ≡ some c
    → Route a b (path_to m xs ys) c
unfolding path_to
path_to-Route a b c none xs ys f g h = cc
path_to-Route a b c (some n) xs ys f g h =
    subst (λ i. Route a b (path_to (some n) xs ys) i) (some-injective h)
      (subst (λ l. Route a b (path_to (some n) l ys) n.id) (sym f.shape)
        (subst (λ l. Route a b (path_to (some n) (f.node ∷ f.rest) l) n.id) (sym g.shape)
          (routed a b n.id f.node g.node f.rest g.rest f.number g.number)))

-- Where the path between two projects has a meeting node, its nodes (the way up, that node, the way
-- down) start at the first project and end at the second.
pub path_between-Route :
    (a b : ℕ) (db : Db) (c : ℕ) {path : TreePath}
    → path_between a b db ≡ ok path
    → path.lca ≡ some c
    → Route a b path c
unfolding path_between
path_between-Route a b db c {path} h met =
    let (xs, first, h₁) = >>=-eq-ok (walk_up a db) _ h in
    let (ys, second, h₂) = >>=-eq-ok (walk_up b db) _ h₁ in
    let same : path_to (meeting xs ys) xs ys ≡ path = ok-injective h₂ in
    subst (λ p. Route a b p c) same
      (path_to-Route a b c (meeting xs ys) xs ys (walk_up-Starts a db first)
        (walk_up-Starts b db second) (ap (λ p. p.lca) same ∙ met))
