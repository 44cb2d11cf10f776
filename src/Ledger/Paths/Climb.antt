-- ===== src/Ledger/Paths/Climb.antt =====
-- The ways up of `common_path` in the tree (apps/api/src/flo/modules/projects/hierarchy.py).
use mathlib.Core.Path.{subst}
use mathlib.Core.List.{reverse, reverse-reverse}
use xlr8_flo.Common.{
  some-injective, ℕ, zero, suc, ◌≡◌, refl, sym, ap, ◌∙◌, inl, inr, Bool, true, false, Option, none,
  some, List, [], ◌∷◌, ◌==◌, ==_iff, Option-cases, Bool-cases, find, find_sound, any,
}
use xlr8_flo.Common.Membership.{In, find-In, any_complete}
use xlr8_flo.Common.Problems.{ok, >>=-eq-ok, >>-eq-ok, ok-injective}
use xlr8_flo.Ledger.Tables.{Db, Project, project_of}
use xlr8_flo.Ledger.Paths.{TreePath, upward, walk_up, before, meeting, path_to, path_between}
use xlr8_flo.Ledger.Paths.Route.{project_number}

-- The nodes from a project up to one of its ancestors, that ancestor left out: each has the next as its
-- parent.
pub data Climb (db : Db) : ℕ → List ℕ → ℕ → Type 0 where
  arrived : {c : ℕ} → Climb db c [] c
  to_parent :
      {a b c : ℕ} {p : Project} {nodes : List ℕ}
      → project_of a db ≡ some p
      → p.parent_id ≡ some b
      → Climb db b nodes c
      → Climb db a (a ∷ nodes) c

-- A test for the project of a number.
abbrev numbered : ℕ → Project → Bool
numbered c m = m.id == c

module _ (db : Db) (c : ℕ) where
  parent-Climb :
      (levels id : ℕ) (parent : Option ℕ) {p : Project}
      → project_of id db ≡ some p
      → p.parent_id ≡ parent
      → ((b : ℕ)
          → any (numbered c) (upward levels (some b) db) ≡ true
          → Climb db b (before c (upward levels (some b) db)) c)
      → any (numbered c) (upward levels parent db) ≡ true
      → Climb db id (id ∷ before c (upward levels parent db)) c
  unfolding upward any
  parent-Climb zero id none found same later h = absurd (cc)
  parent-Climb (suc levels) id none found same later h = absurd (cc)
  parent-Climb levels id (some b) found same later h = to_parent found same (later b h)

  -- The nodes of a walk before a node that it meets are a way up to it.
  before-Climb :
      (levels id : ℕ)
      → any (numbered c) (upward levels (some id) db) ≡ true
      → Climb db id (before c (upward levels (some id) db)) c
  unfolding upward before any
  before-Climb zero id h = absurd (cc)
  before-Climb (suc levels) id h = elim (Option-cases (project_of id db)) [
    | inl absent ↦ absurd (cc (rw (absent, any, upward) at h))
    | inr (p, found) ↦
        let number = project_number id db found in
        elim (Bool-cases (p.id == c)) [
          | inl here ↦
              rw (found, upward, before, here)
                (subst (λ i. Climb db i [] c) (sym ((==_iff p.id c).0 here) ∙ number) arrived)
          | inr there ↦
              rw (found, upward, before, there)
                (subst (λ i. Climb db id (i ∷ before c (upward levels p.parent_id db)) c)
                  (sym number)
                  (parent-Climb levels id p.parent_id found refl (λ b k. before-Climb levels b k)
                    (rw (found, any, upward, there) at h)))
        ]
  ]

  walk_up-Climb :
      (id : ℕ) {ps : List Project}
      → walk_up id db ≡ ok ps
      → any (numbered c) ps ≡ true
      → Climb db id (before c ps) c
  unfolding walk_up
  walk_up-Climb id h met =
      let same = ok-injective ((>>-eq-ok _ _ _ h).1) in
      subst (λ ps. Climb db id (before c ps) c) same
        (before-Climb 6 id (ap (any (numbered c)) same ∙ met))

-- The nodes before the first that passes a test fail it.
before-fails :
    (p : Project → Bool) (q : ℕ → Bool) (xs : List Project) {n : Project}
    → ((m : Project) → p m ≡ q m.id)
    → find p xs ≡ some n
    → (x : ℕ) → In x (before n.id xs)
    → q x ≡ false
unfolding find before
before-fails p q [] same h x k = absurd (cc)
before-fails p q (m ∷ ms) {n} same h x k = elim (Bool-cases (p m)) [
  | inl hit ↦
      let first : m ≡ n = some-injective (rw (hit) at h) in
      absurd (rw ((==_iff m.id n.id).1 (ap (λ r. r.id) first)) at k)
  | inr miss ↦
      let later = rw (miss) at h in
      elim (Bool-cases (m.id == n.id)) [
        | inl stop ↦ absurd (rw (stop) at k)
        | inr on ↦ elim (rw (on) at k) [
          | inl here ↦ ap q here ∙ sym (same m) ∙ miss
          | inr there ↦ before-fails p q ms same later x there
        ]
      ]
]

-- A path that joins two projects at a common ancestor, the first that the way up reaches.
pub record Joined (db : Db) (a b : ℕ) (path : TreePath) (c : ℕ) : Type 0 where
  pub up_from : Climb db a path.up c
  pub down_to : Climb db b (reverse path.down) c
  pub lowest : (x : ℕ) → In x path.up → any (numbered x) (upward 6 (some b) db) ≡ false

joined :
    (a b : ℕ) (db : Db) {xs ys : List Project} {n : Project}
    → walk_up a db ≡ ok xs
    → walk_up b db ≡ ok ys
    → meeting xs ys ≡ some n
    → Joined db a b (path_to (some n) xs ys) n.id
unfolding meeting path_to walk_up
joined a b db {xs} {ys} {n} first second met =
    let common : Project → Bool = λ k. any (λ m. m.id == k.id) ys in
    let in_second : any (numbered n.id) ys ≡ true = find_sound common xs met in
    let in_first : any (numbered n.id) xs ≡ true =
      any_complete (numbered n.id) xs n (find-In common xs met) ((==_iff n.id n.id).1 refl) in
    record {
      up_from = walk_up-Climb db n.id a first in_first;
      down_to =
          subst (λ l. Climb db b l n.id) (sym (reverse-reverse (before n.id ys)))
            (walk_up-Climb db n.id b second in_second);
      lowest = λ x k.
          ap (any (numbered x)) (ok-injective ((>>-eq-ok _ _ _ second).1))
          ∙ before-fails common (λ i. any (numbered i) ys) xs (λ m. refl) met x k;
    }

path_to-Joined :
    (a b c : ℕ) (db : Db) {xs ys : List Project}
    → walk_up a db ≡ ok xs
    → walk_up b db ≡ ok ys
    → (m : Option Project) → meeting xs ys ≡ m
    → (path_to m xs ys).lca ≡ some c
    → Joined db a b (path_to m xs ys) c
unfolding path_to
path_to-Joined a b c db first second none found met = absurd (cc)
path_to-Joined a b c db {xs} {ys} first second (some n) found met =
    subst (Joined db a b (path_to (some n) xs ys)) (some-injective met)
      (joined a b db first second found)

-- Where the path between two projects has a meeting node, the way up goes from the first project from
-- parent to parent to that node, the way down backwards does so from the second project, and no node
-- of the way up is the second project or one of the ancestors within its walk.
pub path_between-Joined :
    (a b : ℕ) (db : Db) (c : ℕ) {path : TreePath}
    → path_between a b db ≡ ok path
    → path.lca ≡ some c
    → Joined db a b path c
unfolding path_between
path_between-Joined a b db c {path} h met =
    let (xs, first, h₁) = >>=-eq-ok (walk_up a db) _ h in
    let (ys, second, h₂) = >>=-eq-ok (walk_up b db) _ h₁ in
    let same : path_to (meeting xs ys) xs ys ≡ path = ok-injective h₂ in
    subst (λ p. Joined db a b p c) same
      (path_to-Joined a b c db first second (meeting xs ys) refl (ap (λ p. p.lca) same ∙ met))
