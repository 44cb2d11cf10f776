-- ===== src/Kernel/Jobs/Counting.antt =====
-- What a claim and an execution do to the numbers of done and of dead rows (runner.py and queue.py of
-- apps/api/src/flo/kernel/jobs).
use mathlib.Core.Path.{subst}
use xlr8_flo.Common.{
  ℕ, suc, ◌+◌, ◌≡◌, refl, sym, ◌∙◌, inl, inr, String, Bool, true, false, ◌&&◌, none, some, List, [],
  ◌∷◌, map, arith, if◌then◌else◌, ◌==◌, ==_iff, leb, any, Bool-cases, and_elim, or-false, not-false,
  not-not, not-true, true-ne-false,
}
use xlr8_flo.Common.Problems.{Result, ok, err, >>=-eq-ok, >>-eq-ok, ok-injective}
use xlr8_flo.Kernel.Jobs.{
  Job, JobState, queued, running, done, dead, is_running, is_queued, due, same_job, started,
  start_row, transition, complete, retry, bury, buried, backoff_seconds, Handled, returned,
  transient, permanent, other, Outcome, was_done, was_retried, was_dead, record_dead,
  complete_or_bury, settle,
}
use xlr8_flo.Kernel.Jobs.Claim.{unique}

-- The rows that satisfy a test.
unfoldable pub count : (Job → Bool) → List Job → ℕ
count p [] = 0
count p (j ∷ js) = let rest = count p js in if p j then suc rest else rest

abbrev pub is_done : Job → Bool
is_done j = elim j.state [ done ↦ true | _ ↦ false ]

abbrev pub is_dead : Job → Bool
is_dead j = elim j.state [ dead ↦ true | _ ↦ false ]

module _ (p q : Job → Bool) (f : Job → Job) where
  abbrev updated : List Job → List Job
  updated db = map (λ r. if q r then f r else r) db

  -- An update that does not change what is counted.
  count_same :
      ((r : Job) → q r ≡ true → p (f r) ≡ p r) → (db : List Job) → count p (updated db) ≡ count p db
  unfolding count
  count_same same [] = refl
  count_same same (x ∷ xs) = elim (Bool-cases (q x)) [
    | inl hit ↦ rw (hit, same x hit, count_same same xs)
    | inr miss ↦ rw (miss, count_same same xs)
  ]

  count_absent : (db : List Job) → any q db ≡ false → count p (updated db) ≡ count p db
  unfolding count any
  count_absent [] h = refl
  count_absent (x ∷ xs) h = let (miss, rest) = or-false (q x) _ h in rw (miss, count_absent xs rest)

  -- An update of one row that is counted after it and not before.
  count_once :
      (n : ℕ)
      → ((r : Job) → q r ≡ true → r.id ≡ n)
      → ((r : Job) → q r ≡ true → p r ≡ false)
      → ((r : Job) → q r ≡ true → p (f r) ≡ true)
      → (db : List Job) → unique db ≡ true
      → any q db ≡ true
      → count p (updated db) ≡ suc (count p db)
  unfolding count any unique
  count_once n number before after [] u h = absurd (cc)
  count_once n number before after (x ∷ xs) u h =
      let (apart, rest) = and_elim _ _ u in
      elim (Bool-cases (q x)) [
        | inl hit ↦
            let alone = no_other x xs (number x hit) (not-not _ apart) in
            rw (hit, after x hit, before x hit, count_absent xs alone)
        | inr miss ↦
            let later = count_once n number before after xs rest (rw (miss) at h) in
            elim (Bool-cases (p x)) [
              | inl counted ↦ rw (miss, counted, later)
              | inr not_counted ↦ rw (miss, not_counted, later)
            ]
      ]
    where
      no_other :
          (x : Job) (xs : List Job)
          → x.id ≡ n
          → any (λ r. r.id == x.id) xs ≡ false
          → any q xs ≡ false
      no_other x [] same k = refl
      no_other x (y ∷ ys) same k =
          let (other_id, rest) = or-false (y.id == x.id) _ k in
          let miss : q y ≡ false = not-true (q y) (λ hit.
            true-ne-false (sym ((==_iff y.id x.id).1 (number y hit ∙ sym same)) ∙ other_id)) in
          rw (miss, no_other x ys same rest)

-- How many rows of an outcome's kind an execution adds.
abbrev pub done_of : Outcome → ℕ
done_of was_done = 1
done_of _ = 0

abbrev pub dead_of : Outcome → ℕ
dead_of was_dead = 1
dead_of _ = 0

abbrev pub Tallied : Outcome → List Job → List Job → Type 0
Tallied o db db' =
    (count is_done db' ≡ done_of o + count is_done db)
    × (count is_dead db' ≡ dead_of o + count is_dead db)

running_not_done :
    (s : JobState) → is_running s ≡ true → ◌≡◌ {A = Bool} (elim s [ done ↦ true | _ ↦ false ]) false
running_not_done running h = refl
running_not_done queued h = refl
running_not_done done h = cc
running_not_done JobState.failed h = refl
running_not_done dead h = refl

running_not_dead :
    (s : JobState) → is_running s ≡ true → ◌≡◌ {A = Bool} (elim s [ dead ↦ true | _ ↦ false ]) false
running_not_dead running h = refl
running_not_dead queued h = refl
running_not_dead done h = refl
running_not_dead JobState.failed h = refl
running_not_dead dead h = cc

queued_neither :
    (s : JobState)
    → is_queued s ≡ true
    → ◌≡◌ {A = Bool} (elim s [ done ↦ true | _ ↦ false ]) false
      × ◌≡◌ {A = Bool} (elim s [ dead ↦ true | _ ↦ false ]) false
queued_neither queued h = (refl, refl)
queued_neither running h = (refl, refl)
queued_neither done h = cc
queued_neither JobState.failed h = (refl, refl)
queued_neither dead h = cc

module _ (j : Job) (db : List Job) where
  abbrev mine : Job → Bool
  mine r = same_job j r && is_running r.state

  mine_id : (r : Job) → mine r ≡ true → r.id ≡ j.id
  mine_id r h =
      let (same, _) = and_elim (same_job j r) (is_running r.state) h in
      sym ((==_iff j.id r.id).0 ((and_elim (j.id == r.id) _ same).0))

  not_done : (r : Job) → mine r ≡ true → is_done r ≡ false
  not_done r h = running_not_done r.state ((and_elim (same_job j r) (is_running r.state) h).1)

  not_dead : (r : Job) → mine r ≡ true → is_dead r ≡ false
  not_dead r h = running_not_dead r.state ((and_elim (same_job j r) (is_running r.state) h).1)

  module _ (u : unique db ≡ true) where
    complete-Tallied :
        (now : ℕ) {db' : List Job} → complete now j db ≡ ok db' → Tallied was_done db db'
    unfolding complete transition
    complete-Tallied now h =
        let f : Job → Job =
          λ r. record r { state = done; locked_at = none; finished_at = some now } in
        let (there, h₁) = >>-eq-ok _ _ _ h in
        let finished =
          count_once is_done mine f j.id mine_id not_done (λ r _. refl) db u (not-false _ there) in
        let lost = count_same is_dead mine f (λ r m. sym (not_dead r m)) db in
        let both : Tallied was_done db (updated is_done mine f db) =
          (omega (arith, finished), omega (arith, lost)) in
        subst (Tallied was_done db) (ok-injective h₁) both

    record_dead-Tallied :
        (now : ℕ) (error : String) {r : Outcome × List Job}
        → record_dead now error j db ≡ ok r
        → Tallied r.0 db r.1
    unfolding record_dead bury transition
    record_dead-Tallied now error h =
        let (db₁, sets, same) = >>=-eq-ok _ _ h in
        let (there, h₁) = >>-eq-ok _ _ _ sets in
        let finished = count_same is_done mine (buried now error) (λ r m. sym (not_done r m)) db in
        let lost =
          count_once is_dead mine (buried now error) j.id mine_id not_dead (λ r _. refl) db u
            (not-false _ there) in
        let both : Tallied was_dead db (updated is_dead mine (buried now error) db) =
          (omega (arith, finished), omega (arith, lost)) in
        subst (λ q. Tallied q.0 db q.1) (ok-injective same)
          (subst (Tallied was_dead db) (ok-injective h₁) both)

    retry-Tallied :
        (now delay : ℕ) (error : String) {db' : List Job}
        → retry now delay error j db ≡ ok db'
        → Tallied was_retried db db'
    unfolding retry transition
    retry-Tallied now delay error h =
        let f : Job → Job = λ r. record r {
          state = queued;
          locked_at = none;
          run_after = now + delay;
          last_error = some error;
        } in
        let (there, h₁) = >>-eq-ok _ _ _ h in
        let finished = count_same is_done mine f (λ r m. sym (not_done r m)) db in
        let lost = count_same is_dead mine f (λ r m. sym (not_dead r m)) db in
        let both : Tallied was_retried db (updated is_done mine f db) =
          (omega (arith, finished), omega (arith, lost)) in
        subst (Tallied was_retried db) (ok-injective h₁) both

    complete_or_bury-Tallied :
        (now : ℕ) (m : Result (List Job)) {r : Outcome × List Job}
        → complete now j db ≡ m
        → complete_or_bury now j db m ≡ ok r
        → Tallied r.0 db r.1
    unfolding complete_or_bury
    complete_or_bury-Tallied now (ok db₁) ended h =
        subst (λ q. Tallied q.0 db q.1) (ok-injective h) (complete-Tallied now ended)
    complete_or_bury-Tallied now (err e) ended h = record_dead-Tallied now "RuntimeError" h

    pub settle-Tallied :
        (seconds_of : ℕ → ℕ) (fraction now : ℕ) (what : Handled) {r : Outcome × List Job}
        → settle seconds_of fraction now what j db ≡ ok r
        → Tallied r.0 db r.1
    unfolding settle
    settle-Tallied seconds_of fraction now returned h = complete_or_bury-Tallied now _ refl h
    settle-Tallied seconds_of fraction now (transient error) h =
        elim (Bool-cases (leb j.max_attempts j.attempts)) [
          | inl spent ↦ record_dead-Tallied now error (rw (spent) at h)
          | inr left ↦
              let (delay, _, h₁) =
                >>=-eq-ok (backoff_seconds j.attempts fraction) _ (rw (left) at h) in
              let (db₁, sets, same) = >>=-eq-ok (retry now (seconds_of delay) error j db) _ h₁ in
              subst (λ q. Tallied q.0 db q.1) (ok-injective same)
                (retry-Tallied now (seconds_of delay) error sets)
        ]
    settle-Tallied seconds_of fraction now (permanent error) h = record_dead-Tallied now error h
    settle-Tallied seconds_of fraction now (other error) h = record_dead-Tallied now error h

-- A claim leaves the done and the dead rows as many as they were.
pub start_row-counts :
    (now : ℕ) (j : Job) (db : List Job)
    → (count is_done (start_row now j db) ≡ count is_done db)
      × (count is_dead (start_row now j db) ≡ count is_dead db)
unfolding start_row
start_row-counts now j db =
    let q : Job → Bool = λ r. same_job j r && due now r in
    let waits : (r : Job) → q r ≡ true → is_queued r.state ≡ true =
      λ r h. (and_elim (is_queued r.state) _ ((and_elim (same_job j r) (due now r) h).1)).0 in
    (
      count_same is_done q (started now) (λ r h. sym ((queued_neither r.state (waits r h)).0)) db,
      count_same is_dead q (started now) (λ r h. sym ((queued_neither r.state (waits r h)).1)) db,
    )
