-- ===== src/Ledger/Paths.antt =====
-- The project tree: Hierarchy.walk and common_path of
-- apps/api/src/flo/modules/projects/hierarchy.py.
pub mod Climb
pub mod Route
use xlr8_flo.Common.{
  ℕ, zero, suc, Bool, true, false, ◌||◌, Option, none, some, List, [], ◌∷◌, ◌++◌, ◌==◌,
  if◌then◌else◌, find, any,
}
use xlr8_flo.Common.Problems.{not_found, Result, ok, err, ◌>>=◌, ◌>>◌, raise_if}
use xlr8_flo.Ledger.Tables.{Db, Project, project_of}
use mathlib.Core.List.{reverse}

-- A project and its ancestors, from the project up.
unfoldable pub upward : ℕ → Option ℕ → Db → List Project
upward zero id db = []
upward (suc levels) none db = []
upward (suc levels) (some id) db = elim (project_of id db) [
  | none ↦ []
  | some p ↦ p ∷ upward levels p.parent_id db
]

abbrev is_empty {ℓ} : {A : Type ℓ} → List A → Bool
is_empty [] = true
is_empty (_ ∷ _) = false

-- `walk([id], upward=True)`, where depth_guard stops at 6.
unfoldable pub walk_up : ℕ → Db → Result (List Project)
unfolding upward
walk_up id db = do raise_if (is_empty (upward 6 (some id) db)) not_found; ok (upward 6 (some id) db)

-- PathRead
pub record TreePath : Type 0 where
  pub up : List ℕ
  pub lca : Option ℕ
  pub down : List ℕ

-- The numbers of the nodes before the first that has the given one.
unfoldable pub before : ℕ → List Project → List ℕ
before id [] = []
before id (p ∷ ps) = if p.id == id then [] else p.id ∷ before id ps

unfoldable pub meeting : List Project → List Project → Option Project
meeting first second = find (λ n. any (λ m. m.id == n.id) second) first

unfoldable pub path_to : Option Project → List Project → List Project → TreePath
path_to none first second = record { up = []; lca = none; down = [] }
path_to (some n) first second = record {
  up = before n.id first;
  lca = some n.id;
  down = reverse (before n.id second);
}

-- `common_path`, and with it `path_between`.
unfoldable pub path_between : ℕ → ℕ → Db → Result TreePath
path_between a b db = do
  first ← walk_up a db
  second ← walk_up b db
  ok (path_to (meeting first second) first second)
