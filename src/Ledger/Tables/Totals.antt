-- ===== src/Ledger/Tables/Totals.antt =====
-- Balances against entries: the comparison that `_snapshot` of
-- apps/api/src/flo/modules/budget/reconcile.py makes for every project and bucket.
use mathlib.Core.Option
use mathlib.Core.Path.{subst}
use xlr8_flo.Common.{
  ℕ, ◌≡◌, ◌≢◌, refl, sym, ap, ◌∙◌, inl, inr, Bool, true, false, ◌&&◌, Option, none, some, List, [],
  ◌∷◌, ◌++◌, arith, ◌==◌, ==_iff, if◌then◌else◌, find, find-append_none, find-append_some,
  find_sound, Bool-cases, Option-cases,
}
use xlr8_flo.Common.Int.{ℤ, pos, ◌+ℤ◌, int_laws}
use xlr8_flo.Common.Problems.{ok, ok-injective}
use xlr8_flo.Ledger.Types.{LedgerBucket, allocated, reserved, committed, LedgerEntry, bucket_beq}
use xlr8_flo.Ledger.Tables.{
  Db, Balance, Project, balance_of, project_of, empty_balance, available, lock_balance, add_to,
  bucket_of, update_row, sum_where,
}

-- A bucket of a project's balance row; a project without a row holds nothing.
abbrev pub held : LedgerBucket → Option Balance → ℤ
held k none = pos 0
held k (some b) = bucket_of k b

unfoldable pub balance_total : ℕ → LedgerBucket → Db → ℤ
balance_total p k db = held k (balance_of p db)

abbrev pub posts_to : ℕ → LedgerBucket → LedgerEntry → Bool
posts_to p k e = e.project_id == p && bucket_beq e.bucket k

-- SUM(amount) … GROUP BY project_id, bucket
unfoldable pub ledger_total : ℕ → LedgerBucket → Db → ℤ
ledger_total p k db = sum_where (posts_to p k) db.entries

-- No drift: what `reconcile_org` reports on is absent.
pub record Reconciles (db : Db) : Type 0 where
  pub at : (p : ℕ) (k : LedgerBucket) → balance_total p k db ≡ ledger_total p k db

pub sum_where-append :
    (p : LedgerEntry → Bool) (xs ys : List LedgerEntry)
    → sum_where p (xs ++ ys) ≡ sum_where p xs +ℤ sum_where p ys
unfolding sum_where
sum_where-append p [] ys = omega int_laws
sum_where-append p (x ∷ xs) ys = rw (sum_where-append p xs ys) (omega int_laws)

pub sum_where-one :
    (p : LedgerEntry → Bool) (e : LedgerEntry)
    → sum_where p (e ∷ []) ≡ (if p e then e.amount else pos 0)
unfolding sum_where
sum_where-one p e = omega int_laws

-- The update that one entry of `x` in bucket `j` of project `q` makes to a row.
abbrev bumped : ℕ → LedgerBucket → ℤ → Balance → Balance
bumped q j x b = if b.project_id == q then add_to j x b else b

bumped-project :
    (q : ℕ) (j : LedgerBucket) (x : ℤ) (b : Balance) → (bumped q j x b).project_id ≡ b.project_id
bumped-project q j x b = ground arith

find-update_row :
    (p q : ℕ) (j : LedgerBucket) (x : ℤ) (bs : List Balance)
    → find (λ b. b.project_id == p) (update_row q j x bs)
      ≡ Option.map (bumped q j x) (find (λ b. b.project_id == p) bs)
unfolding find update_row
find-update_row p q j x [] = refl
find-update_row p q j x (b ∷ bs) =
    rw (bumped-project q j x b) (elim (Bool-cases (b.project_id == p)) [
      | inl e ↦ rw e refl
      | inr e ↦ rw e (find-update_row p q j x bs)
    ])

bucket_of-add_to :
    (k j : LedgerBucket) (x : ℤ) (b : Balance)
    → bucket_of k (add_to j x b) ≡ bucket_of k b +ℤ (if bucket_beq j k then x else pos 0)
bucket_of-add_to allocated allocated x b = omega int_laws
bucket_of-add_to allocated reserved x b = omega int_laws
bucket_of-add_to allocated committed x b = omega int_laws
bucket_of-add_to allocated LedgerBucket.actual x b = omega int_laws
bucket_of-add_to reserved allocated x b = omega int_laws
bucket_of-add_to reserved reserved x b = omega int_laws
bucket_of-add_to reserved committed x b = omega int_laws
bucket_of-add_to reserved LedgerBucket.actual x b = omega int_laws
bucket_of-add_to committed allocated x b = omega int_laws
bucket_of-add_to committed reserved x b = omega int_laws
bucket_of-add_to committed committed x b = omega int_laws
bucket_of-add_to committed LedgerBucket.actual x b = omega int_laws
bucket_of-add_to LedgerBucket.actual allocated x b = omega int_laws
bucket_of-add_to LedgerBucket.actual reserved x b = omega int_laws
bucket_of-add_to LedgerBucket.actual committed x b = omega int_laws
bucket_of-add_to LedgerBucket.actual LedgerBucket.actual x b = omega int_laws

held-bumped_self :
    (p q : ℕ) (k j : LedgerBucket) (x : ℤ) (bs : List Balance) (b : Balance)
    → (q == p) ≡ true
    → find (λ c. c.project_id == q) bs ≡ some b
    → held k (Option.map (bumped q j x) (find (λ c. c.project_id == p) bs))
      ≡ held k (find (λ c. c.project_id == p) bs)
        +ℤ (if (q == p) && bucket_beq j k then x else pos 0)
held-bumped_self p q k j x bs b same found =
    let q≡p : q ≡ p = (==_iff q p).0 same in
    let found' : find (λ c. c.project_id == p) bs ≡ some b =
      ap (λ i. find (λ c. c.project_id == i) bs) (sym q≡p) ∙ found in
    rw (found', same, find_sound (λ c. c.project_id == q) bs found) (bucket_of-add_to k j x b)

plus-zero : (a : ℤ) → a ≡ a +ℤ pos 0
plus-zero a = omega int_laws

held-bumped_other :
    (p q : ℕ) (k j : LedgerBucket) (x : ℤ) (bs : List Balance)
    → (q == p) ≡ false
    → held k (Option.map (bumped q j x) (find (λ c. c.project_id == p) bs))
      ≡ held k (find (λ c. c.project_id == p) bs)
        +ℤ (if (q == p) && bucket_beq j k then x else pos 0)
held-bumped_other p q k j x bs other = elim (Option-cases (find (λ c. c.project_id == p) bs)) [
  | inl absent ↦ rw (absent, other) (plus-zero (pos 0))
  | inr (c, found) ↦
      let mine : (c.project_id == p) ≡ true = find_sound (λ d. d.project_id == p) bs found in
      let apart : (c.project_id == q) ≡ false = ground arith in
      rw (found, other, apart) (plus-zero (bucket_of k c))
]

-- What an UPDATE of one bucket of one project does to every bucket of every project.
pub held-update_row :
    (p q : ℕ) (k j : LedgerBucket) (x : ℤ) (bs : List Balance) (b : Balance)
    → find (λ c. c.project_id == q) bs ≡ some b
    → held k (find (λ c. c.project_id == p) (update_row q j x bs))
      ≡ held k (find (λ c. c.project_id == p) bs)
        +ℤ (if (q == p) && bucket_beq j k then x else pos 0)
held-update_row p q k j x bs b found = rw (find-update_row p q j x bs) (elim (Bool-cases (q == p)) [
  | inl same ↦ held-bumped_self p q k j x bs b same found
  | inr other ↦ held-bumped_other p q k j x bs other
])

held-empty : (k : LedgerBucket) (p : Project) → bucket_of k (empty_balance p) ≡ pos 0
unfolding empty_balance
held-empty allocated p = refl
held-empty reserved p = refl
held-empty committed p = refl
held-empty LedgerBucket.actual p = refl

held-one :
    (q : ℕ) (k : LedgerBucket) (p : Project)
    → held k (find (λ b. b.project_id == q) (empty_balance p ∷ [])) ≡ pos 0
unfolding find
held-one q k p = elim (Bool-cases ((empty_balance p).project_id == q)) [
  | inl e ↦ rw e (held-empty k p)
  | inr e ↦ rw e refl
]

held-append_empty :
    (q : ℕ) (k : LedgerBucket) (bs : List Balance) (p : Project)
    → held k (find (λ b. b.project_id == q) (bs ++ empty_balance p ∷ []))
      ≡ held k (find (λ b. b.project_id == q) bs)
held-append_empty q k bs p = elim (Option-cases (find (λ b. b.project_id == q) bs)) [
  | inl absent ↦
      rw (find-append_none (λ b. b.project_id == q) bs (empty_balance p ∷ []) absent, absent)
        (held-one q k p)
  | inr (c, found) ↦
      rw (find-append_some (λ b. b.project_id == q) bs (empty_balance p ∷ []) found, found)
]

-- What locking, and creating, a balance row leaves as it was.
pub record Locked (p : ℕ) (db : Db) (b : Balance) (db' : Db) : Type 0 where
  pub row : balance_of p db' ≡ some b
  pub entries : db'.entries ≡ db.entries
  pub next_id : db'.next_id ≡ db.next_id
  pub projects : db'.projects ≡ db.projects
  pub totals : (q : ℕ) (k : LedgerBucket) → balance_total q k db' ≡ balance_total q k db

-- A balance row that is there is the one that is locked, and nothing is written.
pub lock_balance_of_row :
    (p : ℕ) (db : Db) (b : Balance) → balance_of p db ≡ some b → lock_balance p db ≡ ok (b, db)
unfolding lock_balance
lock_balance_of_row p db b found = rw (found, lock_balance)

pub currency-add_to :
    (k : LedgerBucket) (x : ℤ) (b : Balance) → (add_to k x b).currency ≡ b.currency
currency-add_to k x b = ground arith

-- The row of the project after the update of a bucket.
pub find-update_row_self :
    (q : ℕ) (j : LedgerBucket) (x : ℤ) (bs : List Balance) (b : Balance)
    → find (λ c. c.project_id == q) bs ≡ some b
    → find (λ c. c.project_id == q) (update_row q j x bs) ≡ some (add_to j x b)
find-update_row_self q j x bs b found =
    rw (find-update_row q q j x bs, found, find_sound (λ c. c.project_id == q) bs found)

module _ (p : ℕ) (db : Db) where
  lock_found :
      (c : Balance) {r : Balance × Db}
      → balance_of p db ≡ some c
      → lock_balance p db ≡ ok r
      → ok (c, db) ≡ ok r
  unfolding lock_balance
  lock_found c found h = rw (found, lock_balance) at h

  lock_new :
      (j : Project) {r : Balance × Db}
      → balance_of p db ≡ none
      → project_of p db ≡ some j
      → lock_balance p db ≡ ok r
      → ok (empty_balance j, record db { balances = db.balances ++ empty_balance j ∷ [] }) ≡ ok r
  unfolding lock_balance
  lock_new j absent found h = rw (absent, found, lock_balance) at h

  lock_missing :
      {r : Balance × Db}
      → balance_of p db ≡ none
      → project_of p db ≡ none
      → lock_balance p db ≢ ok r
  unfolding lock_balance
  lock_missing absent missing h = cc (rw (absent, missing, lock_balance) at h)

  new_row :
      (j : Project)
      → balance_of p db ≡ none
      → project_of p db ≡ some j
      → balance_of p (record db { balances = db.balances ++ empty_balance j ∷ [] })
        ≡ some (empty_balance j)
  unfolding balance_of project_of
  new_row j absent found =
      find-append_none (λ b. b.project_id == p) db.balances (empty_balance j ∷ []) absent
      ∙ unfold find empty_balance in rw (find_sound (λ i. i.id == p) db.projects found)

pub lock_balance-Locked :
    (p : ℕ) (db : Db) {b : Balance} {db' : Db} → lock_balance p db ≡ ok (b, db') → Locked p db b db'
unfolding lock_balance
lock_balance-Locked p db {b} {db'} h = elim (Option-cases (balance_of p db)) [
  | inl absent ↦ elim (Option-cases (project_of p db)) [
    | inl missing ↦ absurd (lock_missing p db absent missing h)
    | inr (j, found) ↦
        let same : ◌≡◌ {A = Balance × Db}
            (empty_balance j, record db { balances = db.balances ++ empty_balance j ∷ [] })
            (b, db') =
          ok-injective (lock_new p db j absent found h) in
        subst (λ r. Locked p db r.0 r.1) same
          (record {
            row = new_row p db j absent found;
            entries = refl;
            next_id = refl;
            projects = refl;
            totals = λ q k. unfold balance_total balance_of in held-append_empty q k db.balances j;
          })
  ]
  | inr (c, found) ↦
      let same : ◌≡◌ {A = Balance × Db} (c, db) (b, db') =
        ok-injective (lock_found p db c found h) in
      subst (λ r. Locked p db r.0 r.1) same
        (record {
          row = found;
          entries = refl;
          next_id = refl;
          projects = refl;
          totals = λ q k. refl;
        })
]

-- The funds of a project; one without a balance row has none.
abbrev pub funds_of : Option Balance → ℤ
funds_of none = pos 0
funds_of (some b) = available b

available-empty : (p : Project) → available (empty_balance p) ≡ pos 0
unfolding available empty_balance
available-empty p = omega int_laws

-- Locking a balance changes neither the funds of its project nor any table but the balances.
pub record SameElsewhere (db db' : Db) : Type 0 where
  pub units : db'.units ≡ db.units
  pub settings : db'.settings ≡ db.settings

pub lock_balance-funds :
    (p : ℕ) (db : Db) {b : Balance} {db' : Db}
    → lock_balance p db ≡ ok (b, db')
    → (available b ≡ funds_of (balance_of p db)) × SameElsewhere db db'
lock_balance-funds p db {b} {db'} h = elim (Option-cases (balance_of p db)) [
  | inl absent ↦ elim (Option-cases (project_of p db)) [
    | inl missing ↦ absurd (lock_missing p db absent missing h)
    | inr (j, found) ↦
        let same : ◌≡◌ {A = Balance × Db}
            (empty_balance j, record db { balances = db.balances ++ empty_balance j ∷ [] })
            (b, db') =
          ok-injective (lock_new p db j absent found h) in
        subst (λ r. (available r.0 ≡ funds_of (balance_of p db)) × SameElsewhere db r.1) same
          (available-empty j ∙ ap funds_of (sym absent), record { units = refl; settings = refl })
  ]
  | inr (c, found) ↦
      let same : ◌≡◌ {A = Balance × Db} (c, db) (b, db') =
        ok-injective (lock_found p db c found h) in
      subst (λ r. (available r.0 ≡ funds_of (balance_of p db)) × SameElsewhere db r.1) same
        (ap funds_of (sym found), record { units = refl; settings = refl })
]
