-- ===== src/Projects/Lifecycle.antt =====
-- The state machine of a project: apps/api/src/flo/modules/projects/lifecycle.py, and the commands
-- of service.py that drive it.
pub mod Legal
pub mod Closed
pub mod Closing
pub mod FourEyes
use xlr8_flo.Common.{
  ℕ, zero, suc, ◌+◌, String, Bool, true, false, not, ◌&&◌, ◌||◌, Option, none, some, List, [], ◌∷◌,
  ◌++◌, ◌==◌, ltb, if◌then◌else◌, find, any, map, ◌≡◌, ◌↔◌, refl, arith,
}
use xlr8_flo.Common.Text.{strip, len, is_blank}
use xlr8_flo.Common.Int.{ℤ, pos, ◌-ℤ◌, ltb_ℤ}
use xlr8_flo.Common.Equality.{Eq, ◌===◌, ℕ_eq, Option_eq, String_eq}
use xlr8_flo.Common.Problems.{
  Problem, not_found, validation_failed, conflict, forbidden, bad_request, Result, ok, err, ◌>>=◌,
  ◌>>◌, raise_if,
}
use xlr8_flo.Ledger.Tables.{
  ProjectStatus, draft, approval_pending, active, deferred, completed, abandoned,
}

abbrev status_rank : ProjectStatus → ℕ
status_rank draft = 0
status_rank approval_pending = 1
status_rank active = 2
status_rank deferred = 3
status_rank completed = 4
status_rank abandoned = 5

abbrev status_beq : ProjectStatus → ProjectStatus → Bool
status_beq a b = status_rank a == status_rank b

pub status_beq_iff : (a b : ProjectStatus) → (status_beq a b ≡ true) ↔ (a ≡ b)
status_beq_iff a b = (λ h. ground arith, λ h. ground arith)

instance abbrev pub ProjectStatus_eq : Eq ProjectStatus
ProjectStatus_eq = record { equal = status_beq; equal_iff = status_beq_iff }

-- TRANSITIONS: the permission, and whether a reason is needed.
abbrev pub rule_of : ProjectStatus → ProjectStatus → Option (String × Bool)
rule_of draft approval_pending = some ("project.submit", false)
rule_of approval_pending active = some ("project.approve", false)
rule_of approval_pending draft = some ("project.approve", true)
rule_of draft abandoned = some ("project.update", false)
rule_of active deferred = some ("project.update", true)
rule_of deferred active = some ("project.update", false)
rule_of active completed = some ("project.complete", false)
rule_of active abandoned = some ("project.complete", true)
rule_of deferred abandoned = some ("project.complete", true)
rule_of _ _ = none

-- The columns of `project` that the lifecycle reads.
pub record ProjectRow : Type 0 where
  pub id : ℕ
  pub status : ProjectStatus
  pub version : ℕ
  pub name : String
  pub bu_id : Option ℕ
  pub department_code : String
  pub ledger_account_code : String
  pub currency : String

-- A row of `project_status_event`.
pub record StatusEvent : Type 0 where
  pub project_id : ℕ
  pub from_status : ProjectStatus
  pub to_status : ProjectStatus
  pub actor_id : Option ℕ
  pub system_actor : Option String
  pub reason : Option String
  pub override : Bool

-- `blocked`: what a project holds, and its open documents.
pub record Blocked : Type 0 where
  pub reserved : ℤ
  pub committed : ℤ
  pub open_documents : ℤ

pub record TransitionCreate : Type 0 where
  pub to : ProjectStatus
  pub reason : Option String
  pub override : Bool

-- The tables, the events newest first.
pub record Projects : Type 0 where
  pub rows : List ProjectRow
  pub events : List StatusEvent

-- What the other modules answer about a project: its holdings with the registered counters of open
-- documents, whether an approval runs, and `require_workflow`.
pub record Views : Type 0 where
  pub blocked_of : ℕ → Blocked
  pub active_instance : ℕ → Bool
  pub require_workflow : Option ℕ → Result (Unit {0})

unfoldable pub row_of : ℕ → List ProjectRow → Option ProjectRow
row_of id rows = find (λ p. p.id == id) rows

unfoldable pub holds_anything : Blocked → Bool
holds_anything b =
    ltb_ℤ (pos 0) b.reserved || ltb_ℤ (pos 0) b.committed || ltb_ℤ (pos 0) b.open_documents

abbrev pub override_permission : String
override_permission = "project.close.override"

-- The closing rule.
unfoldable pub blocked_by_holdings : Blocked → Bool → (String → Bool) → String → Option Problem
blocked_by_holdings b override permitted reason =
    if not (holds_anything b)
    then none
    else if override && permitted override_permission
    then (if ltb (len reason) 20 then some (validation_failed "reason") else none)
    else some (conflict "closing_blocked")

abbrev pub when : Bool → Problem → List Problem
when true p = p ∷ []
when false p = []

abbrev pub given : Option Problem → List Problem
given none = []
given (some p) = p ∷ []

-- The problems that were appended, in order.
unfoldable pub joined : List (List Problem) → List Problem
joined [] = []
joined (ps ∷ rest) = ps ++ joined rest

-- `(body.reason or "").strip()`
abbrev pub reason_of : TransitionCreate → String
reason_of body = elim body.reason [ none ↦ "" | some r ↦ strip r ]

abbrev is_absent {ℓ} : {A : Type ℓ} → Option A → Bool
is_absent none = true
is_absent (some _) = false

unfoldable pub incomplete : ProjectRow → Bool
incomplete p =
    is_blank p.name
    || is_absent p.bu_id
    || is_blank p.department_code
    || is_blank p.ledger_account_code
    || is_blank p.currency

-- The actor of the newest submission.
unfoldable pub submitted_by : ℕ → List StatusEvent → Option ℕ → Bool
submitted_by id events actor =
    elim (find (λ e. e.project_id == id && e.to_status === approval_pending) events) [
      | none ↦ false
      | some e ↦ e.actor_id === actor
    ]

abbrev pub is_closing : ProjectStatus → Bool
is_closing completed = true
is_closing abandoned = true
is_closing _ = false

-- The problems of a transition that has a rule.
unfoldable pub problems_of :
    Option ℕ
    → (String → Bool)
    → Views
    → List StatusEvent
    → ProjectRow
    → Blocked
    → TransitionCreate
    → String
    → Bool
    → List Problem
unfolding incomplete
problems_of actor permitted views events p blocked body permission needs_reason = joined (
    when (not (permitted permission)) (forbidden permission)
    ∷ when (body.override && not (permitted override_permission)) (forbidden override_permission)
    ∷ when (needs_reason && len (reason_of body) == 0) (validation_failed "reason")
    ∷ when (body.to === approval_pending && incomplete p) (validation_failed "missing")
    ∷ when
        (p.status === approval_pending
          && (body.to === active || body.to === draft)
          && views.active_instance p.id)
        (conflict "approval_workflow_active")
    ∷ when (p.status === approval_pending && body.to === active && submitted_by p.id events actor)
        (forbidden "submitter")
    ∷ (if is_closing body.to
        then given (blocked_by_holdings blocked body.override permitted (reason_of body))
        else [])
    ∷ [])

-- Lifecycle.evaluate
unfoldable pub evaluate :
    Option ℕ
    → (String → Bool)
    → Views
    → List StatusEvent
    → ProjectRow
    → Blocked
    → TransitionCreate
    → List Problem
evaluate actor permitted views events p blocked body = elim (rule_of p.status body.to) [
  | none ↦ conflict "invalid_transition" ∷ []
  | some rule ↦ problems_of actor permitted views events p blocked body rule.0 rule.1
]

unfoldable pub set_status : ℕ → ProjectStatus → List ProjectRow → List ProjectRow
set_status id to [] = []
set_status id to (p ∷ ps) =
    (if p.id == id then record p { status = to; version = p.version + 1 } else p)
    ∷ set_status id to ps

-- Lifecycle.write
unfoldable pub write :
    Option ℕ → Option String → ProjectRow → TransitionCreate → Projects → Projects
unfolding set_status
write actor system p body db = record {
  rows = set_status p.id body.to db.rows;
  events =
      record {
        project_id = p.id;
        from_status = p.status;
        to_status = body.to;
        actor_id = elim system [ none ↦ actor | some _ ↦ none ];
        system_actor = system;
        reason = body.reason;
        override = body.override;
      }
      ∷ db.events;
}

-- The If-Match header: absent, not an integer, or one.
pub data IfMatch : Type 0 where
  absent malformed : IfMatch
  version : ℕ → IfMatch

unfoldable pub expected_version : IfMatch → Result ℕ
expected_version absent = err bad_request
expected_version malformed = err bad_request
expected_version (version n) = ok n

abbrev pub head_problem : List Problem → Result (Unit {0})
head_problem [] = ok tt
head_problem (p ∷ _) = err p

-- `if problems: raise problems[0]`
unfoldable pub raise_first : List Problem → Result (Unit {0})
raise_first ps = head_problem ps

unfoldable pub locked_row : Option ProjectRow → Result ProjectRow
locked_row none = err not_found
locked_row (some p) = ok p

-- ProjectService.transition
unfoldable pub transition :
    Option ℕ → (String → Bool) → Views → ℕ → TransitionCreate → IfMatch → Projects → Result Projects
transition actor permitted views id body if_match db = do
  expected ← expected_version if_match
  p ← locked_row (row_of id db.rows)
  raise_if (body.to === approval_pending && not (p.status === draft))
      (conflict "invalid_transition")
  raise_if (not (p.version == expected)) (conflict "stale_version")
  raise_first (evaluate actor permitted views db.events p (views.blocked_of id) body)
  if body.to === approval_pending then views.require_workflow p.bu_id else ok tt
  ok (write actor none p body db)

-- ProjectService.approval_outcome
unfoldable pub approval_outcome :
    Option ℕ → ℕ → ProjectStatus → Option String → Projects → Result Projects
approval_outcome actor id status reason db = do
  p ← locked_row (row_of id db.rows)
  raise_if (not (p.status === approval_pending)) (conflict "invalid_transition")
  ok (write actor none p (record { to = status; reason = reason; override = false }) db)

abbrev is_open : ProjectStatus → Bool
is_open active = true
is_open deferred = true
is_open _ = false

-- `_abandon`, which returns False for a project that is not open.
unfoldable pub abandon :
    Option ℕ → Option String → Views → ℕ → String → ℤ → Projects → Result (Bool × Projects)
abandon actor system views id reason own db = do
  p ← locked_row (row_of id db.rows)
  if not (is_open p.status) then ok (false, db) else do
    let b = views.blocked_of id
    raise_first (
        given (
          blocked_by_holdings (record b { open_documents = b.open_documents -ℤ own }) false
            (λ _. false) ""))
    ok (
      true,
      write actor system p (record { to = abandoned; reason = some reason; override = false }) db,
    )
