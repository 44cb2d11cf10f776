-- ===== src/Ledger/Transfers.antt =====
-- apps/api/src/flo/modules/budget/transfers.py
pub mod Legs
pub mod Advance
use xlr8_flo.Common.{
  ℕ, zero, suc, ◌/◌, ◌%◌, ltb, String, Bool, true, false, not, ◌&&◌, ◌||◌, Option, none, some, List,
  [], ◌∷◌, ◌++◌, ◌==◌, if◌then◌else◌, find, any, map,
}
use xlr8_flo.Common.Int.{ℤ, pos, ◌+ℤ◌, neg, ltb_ℤ, sum}
use xlr8_flo.Common.Equality.{◌===◌, ℤ_eq, ℕ_eq, String_eq, Option_eq}
use xlr8_flo.Common.Problems.{
  not_found, validation_failed, conflict, insufficient_budget, runtime_error, Result, ok, err,
  ◌>>=◌, ◌>>◌, raise_if,
}
use xlr8_flo.Money.{quantize}
use xlr8_flo.Ledger.Types.{transfer as transfer_type, LedgerEntry}
use xlr8_flo.Ledger.Tables.{
  Db, Tx, Balance, available, Project, ProjectStatus, draft, active, JsonValue, text, Evidence,
  AuditEvent, balance_of, project_of, entry_by_key,
}
use xlr8_flo.Ledger.Constraints.{is_some}
use xlr8_flo.Ledger.Settings.{
  allow_negative_budget, evidence_required, funding_mode, effective_setting, is_true,
}
use xlr8_flo.Ledger.Paths.{TreePath, path_between}
use xlr8_flo.Ledger.Post.{PostRequest, reused, post_entry}
use Prim.Native.String.{◌++◌ as ◌^^◌}

-- AllocationCreate and TransferCreate, with the actor, the key, and the number that `uuid4()` gives
-- a new group.
pub record TransferRequest : Type 0 where
  pub from_project_id : ℕ
  pub to_project_id : ℕ
  pub amount : ℤ
  pub currency : String
  pub effective_date : ℕ
  pub reason : Option String
  pub evidence_ref : Option String
  pub actor_id : ℕ
  pub idempotency_key : String
  pub fresh_group : ℕ

pub record Leg : Type 0 where
  pub node : Project
  pub amount : ℤ
  pub suffix : String

abbrev string_at : ℕ → List String → String
string_at _ [] = ""
string_at zero (s ∷ ss) = s
string_at (suc n) (s ∷ ss) = string_at n ss

abbrev digit : ℕ → String
digit n = string_at n ("0" ∷ "1" ∷ "2" ∷ "3" ∷ "4" ∷ "5" ∷ "6" ∷ "7" ∷ "8" ∷ "9" ∷ [])

-- A path has at most eleven nodes, so a hop has at most two digits.
abbrev decimal : ℕ → String
decimal n = if ltb n 10 then digit n else digit (n / 10) ^^ digit (n % 10)

unfoldable pub or_raise : Option Project → Result Project
or_raise none = err runtime_error
or_raise (some p) = ok p

-- `nodes[id]`, which raises on a key that is not there.
unfoldable pub node_at : ℕ → List Project → Result Project
unfolding or_raise
node_at id nodes = or_raise (find (λ p. p.id == id) nodes)

-- `for hop, (source, target) in enumerate(zip(route, route[1:]))`
unfoldable pub hop_legs : ℕ → List Project → ℤ → List ℕ → Result (List Leg)
hop_legs hop nodes x [] = ok []
hop_legs hop nodes x (a ∷ []) = ok []
hop_legs hop nodes x (a ∷ b ∷ rest) = do
  source ← node_at a nodes
  target ← node_at b nodes
  legs ← hop_legs (suc hop) nodes x (b ∷ rest)
  ok (
      record { node = source; amount = neg x; suffix = ":" ^^ decimal hop ^^ ":out" }
      ∷ record { node = target; amount = x; suffix = ":" ^^ decimal hop ^^ ":in" }
      ∷ legs)

unfoldable pub direct_legs : List Project → ℕ → ℕ → ℤ → Result (List Leg)
direct_legs nodes giver recipient x = do
  source ← node_at giver nodes
  target ← node_at recipient nodes
  ok (
      record { node = source; amount = neg x; suffix = ":out" }
      ∷ record { node = target; amount = x; suffix = ":in" }
      ∷ [])

unfoldable pub route_legs : Option ℕ → List Project → TreePath → ℕ → ℕ → ℤ → Result (List Leg)
route_legs none nodes path giver recipient x = direct_legs nodes giver recipient x
route_legs (some lca) nodes path giver recipient x = hop_legs 0 nodes x (path.up ++ lca ∷ path.down)

abbrev is_roll_up : JsonValue → Bool
is_roll_up (text mode) = mode === "roll_up"
is_roll_up _ = false

unfoldable pub plan_legs :
    List Project → TreePath → ℕ → ℕ → Bool → JsonValue → ℤ → Result (List Leg)
plan_legs nodes path giver recipient siblings mode x =
    if siblings || is_roll_up mode
    then direct_legs nodes giver recipient x
    else route_legs path.lca nodes path giver recipient x

-- `mode_for` of funding_policy.py: the setting at the unit of the root of the project's tree.
unfoldable pub mode_for : Project → Db → Result JsonValue
mode_for p db = elim (project_of p.root_id db) [
  | none ↦ err not_found
  | some root ↦ effective_setting root.bu_id funding_mode db
]

unfoldable pub evidence_of : ℕ → Db → Option String
evidence_of id db = elim (find (λ v. v.entry_id == id) db.evidence) [
  | none ↦ none
  | some v ↦ some v.ref
]

unfoldable pub record_evidence : Option String → Option String → ℕ → Db → Db
record_evidence none (some ref) id db = record db {
  evidence = db.evidence ++ record { entry_id = id; ref = ref } ∷ [];
}
record_evidence _ _ id db = db

-- The call of `post_entry` for a leg.
unfoldable pub leg_post : TransferRequest → ℕ → Option Bool → Leg → PostRequest
leg_post req group allow leg = record {
  links = record {
    entry_type = transfer_type;
    project_id = leg.node.id;
    source_type = "transfer";
    source_id = some group;
    effective_date = req.effective_date;
    transfer_group_id = some group;
    reverses_entry_id = none;
    releases_entry_id = none;
    converts_entry_id = none;
    reason = req.reason;
    department_code = leg.node.department_code;
    ledger_account_code = leg.node.ledger_account_code;
  };
  bucket = none;
  amount = leg.amount;
  currency = req.currency;
  actor_id = req.actor_id;
  idempotency_key = req.idempotency_key ^^ leg.suffix;
  allow_negative = allow;
  skip_period_check = false;
}

unfoldable pub post_leg : TransferRequest → ℕ → Option Bool → Bool → Leg → Tx LedgerEntry
unfolding evidence_of record_evidence
post_leg req group allow repeated leg db = do
  (e, db₁) ← post_entry (leg_post req group allow leg) db
  raise_if (repeated && not (evidence_of e.id db₁ === req.evidence_ref)) reused
  ok (e, record_evidence (evidence_of e.id db₁) req.evidence_ref e.id db₁)

unfoldable pub post_each :
    TransferRequest → ℕ → Option Bool → Bool → List Leg → Tx (List LedgerEntry)
post_each req group allow repeated [] db = ok ([], db)
post_each req group allow repeated (leg ∷ legs) db = do
  (e, db₁) ← post_leg req group allow repeated leg db
  (es, db₂) ← post_each req group allow repeated legs db₁
  ok (e ∷ es, db₂)

-- `(prior.transfer_group_id if prior else None) or uuid4()`
unfoldable pub group_of : Option LedgerEntry → ℕ → ℕ
group_of none fresh = fresh
group_of (some e) fresh = elim e.transfer_group_id [ none ↦ fresh | some g ↦ g ]

-- The entry under the key of the first leg.
unfoldable pub prior_of : TransferRequest → List Leg → Db → Option LedgerEntry
prior_of req [] db = none
prior_of req (leg ∷ legs) db = entry_by_key (req.idempotency_key ^^ leg.suffix) db

unfoldable pub post_legs : TransferRequest → List Leg → Option Bool → Tx (List LedgerEntry)
post_legs req legs allow db = do
  let prior = prior_of req legs db
  (es, db₁) ← post_each req (group_of prior req.fresh_group) allow (is_some prior) legs db
  raise_if (not (sum (map (λ e. e.amount) es) === pos 0)) (conflict "transfer_invariant_violation")
  ok (es, db₁)

unfoldable pub get_project : ℕ → Db → Result Project
get_project id db = elim (project_of id db) [ none ↦ err not_found | some p ↦ ok p ]

unfoldable pub get_all : List ℕ → Db → Result (List Project)
unfolding get_project
get_all [] db = ok []
get_all (id ∷ ids) db = do p ← get_project id db; ps ← get_all ids db; ok (p ∷ ps)

abbrev listed : Option ℕ → List ℕ
listed none = []
listed (some id) = id ∷ []

-- The nodes whose balances are locked, in no order and perhaps repeated.
unfoldable pub locked_ids : TransferRequest → TreePath → List ℕ
locked_ids req path =
    req.from_project_id ∷ req.to_project_id ∷ path.up ++ path.down ++ listed path.lca

abbrev is_open : ProjectStatus → Bool
is_open draft = true
is_open active = true
is_open _ = false

-- `detail`: a currency that differs, or a receiving node that is neither draft nor active.
unfoldable pub ineligible :
    TransferRequest → Bool → Project → Project → List Project → List Leg → Bool
ineligible req siblings giving receiving nodes legs =
    any (λ p. not (p.currency === req.currency))
      (if siblings then giving ∷ receiving ∷ [] else nodes)
    || any (λ l. ltb_ℤ (pos 0) l.amount && not (is_open l.node.status)) legs

unfoldable pub evidence_missing : List Project → Db → Result Bool
evidence_missing [] db = ok false
evidence_missing (p ∷ ps) db = do
  value ← effective_setting p.bu_id evidence_required db
  rest ← if is_true value then ok true else evidence_missing ps db
  ok rest

-- The checks of a transfer whose first leg is new.
unfoldable pub check_eligible :
    TransferRequest
    → Bool
    → TreePath
    → Project
    → Project
    → List Project
    → List Leg
    → Db
    → Result (Unit {0})
unfolding evidence_missing
check_eligible req siblings path giving receiving nodes legs db = do
  raise_if (not siblings && not (is_some path.lca)) (conflict "transfer_not_eligible")
  raise_if (ineligible req siblings giving receiving nodes legs) (conflict "transfer_not_eligible")
  missing ←
      if is_some req.evidence_ref then ok false else evidence_missing (giving ∷ receiving ∷ []) db
  raise_if missing (validation_failed "invalid_ledger_entry")

abbrev held_by : Option Balance → ℤ
held_by none = pos 0
held_by (some b) = available b

-- `running`, before the legs.
unfoldable pub running_from : Db → ℕ → ℤ
running_from db id = held_by (balance_of id db)

-- The forecast of the funds of each node, leg by leg.
unfoldable pub check_running : String → (ℕ → ℤ) → List Leg → Db → Result (Unit {0})
check_running currency running [] db = ok tt
check_running currency running (leg ∷ legs) db = do
  x ← quantize leg.amount currency
  let projected = running leg.node.id +ℤ x
  allowed ←
      if ltb_ℤ x (pos 0) && ltb_ℤ projected (pos 0)
      then (effective_setting leg.node.bu_id allow_negative_budget db >>= λ v. ok (is_true v))
      else ok true
  raise_if (not allowed) (insufficient_budget (running leg.node.id) (neg x))
  check_running currency (λ id. if id == leg.node.id then projected else running id) legs db

unfoldable pub transfer_audit : TransferRequest → ℕ → Project → Db → Db
transfer_audit req group giving db = record db {
  audit =
      db.audit
      ++ record {
        action = "budget.transfer";
        actor_id = req.actor_id;
        target_id = group;
        bu_id = giving.bu_id;
        entry = none;
      }
        ∷ [];
}

-- The legs, planned and posted; `siblings` share a parent and a depth.
unfoldable pub transfer_along :
    TransferRequest → Bool → TreePath → Project → Project → JsonValue → Tx (List LedgerEntry)
unfolding get_all transfer_audit
transfer_along req siblings path giving receiving mode db = do
  let ids = locked_ids req path
  raise_if (any (λ id. not (is_some (balance_of id db))) ids) not_found
  nodes ← get_all ids db
  legs ← plan_legs nodes path giving.id receiving.id siblings mode req.amount
  let prior = prior_of req legs db
  if is_some prior then ok tt else check_eligible req siblings path giving receiving nodes legs db
  if is_some prior then ok tt else check_running req.currency (running_from db) legs db
  (es, db₁) ← post_legs req legs none db
  ok (
    es,
    if is_some prior then db₁ else transfer_audit req (group_of prior req.fresh_group) giving db₁,
  )

unfoldable pub transfer : TransferRequest → Tx (List LedgerEntry)
unfolding get_project
transfer req db = do
  raise_if (req.from_project_id == req.to_project_id) (validation_failed "same_project")
  giving ← get_project req.from_project_id db
  receiving ← get_project req.to_project_id db
  let siblings = giving.parent_id === receiving.parent_id && giving.depth == receiving.depth
  path ← path_between giving.id receiving.id db
  mode ← mode_for giving db
  transfer_along req siblings path giving receiving mode db
