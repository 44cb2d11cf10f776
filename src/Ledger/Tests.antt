-- ===== src/Ledger/Tests.antt =====
-- The budget commands at work, on one tree of two projects.
mod Releases
mod Commitments
mod Reversals
mod Transfers
use xlr8_flo.Common.{
  ℕ, ◌≡◌, ◌≢◌, refl, ◌⊎◌, not, all, true, false, Option, none, some, List, [], ◌∷◌, ◌++◌, find, any,
}
use xlr8_flo.Common.Int.{pos, negsuc, ◌+ℤ◌, ◌-ℤ◌, ◌≤ℤ◌, neg, sum}
use xlr8_flo.Common.Problems.{
  Result, ok, err, conflict, insufficient_budget, raise_if, ok-injective,
}
use xlr8_flo.Money.Currencies.{iso4217}
use xlr8_flo.Money.{
  is_upper, is_code, exponent_of, currency_exponent, half_up, round_half_up, quantize,
}
use xlr8_flo.Ledger.Types.{
  LedgerType, LedgerBucket, allocation, reservation, allocated, reserved, committed, bucket_allowed,
  LedgerEntry, Links, same_links,
}
use xlr8_flo.Ledger.Tables.{
  Db, Project, active, Balance, text, available, project_of, balance_of, entry_by_id, entry_by_key,
  reversal_of, empty_balance, lock_balance, update_row, sum_where, counts_against, remaining_of,
  assert_postable,
}
use xlr8_flo.Ledger.Tables.Totals.{Reconciles, balance_total, ledger_total, funds_of}
use xlr8_flo.Ledger.Settings.{override_at, nearest, setting_in, effective_setting}
use xlr8_flo.Ledger.Constraints.{
  is_some, type_bucket_ok, sign_ok, source_ok, links_ok, reference_ok, mirrors_entry, reversal_ok,
  row_ok, balance_ok,
}
use xlr8_flo.Ledger.Post.{
  PostRequest, Resolved, clashes, reverse_of, resolve_as, resolve, replay, replay_known,
  check_bucket, check_period, wrong_sign, posting_allowed, assert_posting_allowed, projected,
  negative_allowed, check_funds, new_entry, append_entry, insert_or_replay, insert_entry, post_new,
  answer, post_entry,
}
use xlr8_flo.Ledger.Reservations.{
  FundingRequest, ReleaseRequest, funding_post, reserve, release_post, post_release, amount_or,
  release_again, release_new, release_by_key, release_reserved, release_reservation,
}
use xlr8_flo.Ledger.Postings.{
  CodeCheck, ReverseRequest, locked_original, original_entry, release_commitment, check_codes,
  expected_source, conversion_release, release_source, convert, convert_if, consume_new, consume,
  commit, record_actual, reverse_post, check_reversible, reverse_entry,
}
use xlr8_flo.Ledger.Paths.{TreePath, upward, walk_up, before, meeting, path_to, path_between}
use xlr8_flo.Ledger.Transfers.{
  TransferRequest, Leg, or_raise, node_at, hop_legs, direct_legs, route_legs, plan_legs, mode_for,
  evidence_of, record_evidence, leg_post, post_leg, post_each, group_of, prior_of, post_legs,
  get_project, get_all, locked_ids, ineligible, evidence_missing, check_eligible, running_from,
  check_running, transfer_audit, transfer_along, transfer,
}
use xlr8_flo.Ledger.Post.Effect.{Kept, Added, share_of, post_entry-effect, post_entry-Reconciles}
use xlr8_flo.Ledger.Post.Replay.{post_entry-idempotent}
use xlr8_flo.Ledger.Post.Funds.{post_entry-available}
use xlr8_flo.Ledger.Post.Numbering.{Numbered}
use xlr8_flo.Ledger.Post.Rows.{wrong_sign-mirrors, derived_bucket_allowed}
use xlr8_flo.Ledger.Reservations.Draw.{release_reservation-within}
use xlr8_flo.Ledger.Postings.Draw.{release_commitment-within}
use xlr8_flo.Ledger.Postings.Reversal.{reverse_entry-undoes, reverse_entry-once}
use xlr8_flo.Ledger.Transfers.Legs.{net, only, plan_legs-net}
use xlr8_flo.Ledger.Transfers.Advance.{Balanced, transfer-keeps}
use xlr8_flo.Ledger.Commands.{
  Commands, post, move_funds, no_more, next, commands-keep, commands-Reconciles,
}

abbrev db_of {ℓ} : {A : Type ℓ} → Db → Result (A × Db) → Db
db_of default (ok (a, db)) = db
db_of default (err e) = default

abbrev value_of {ℓ} : {A : Type ℓ} → A → Result (A × Db) → A
value_of default (ok (a, db)) = a
value_of default (err e) = default

abbrev links : LedgerType → Links
links t = record {
  entry_type = t;
  project_id = 1;
  source_type = "manual";
  source_id = none;
  effective_date = 20000;
  transfer_group_id = none;
  reverses_entry_id = none;
  releases_entry_id = none;
  converts_entry_id = none;
  reason = some "Opening budget";
  department_code = "D1";
  ledger_account_code = "L1";
}

abbrev no_entry : LedgerEntry
no_entry = record {
  id = 0;
  bu_id = 0;
  actor_id = 0;
  idempotency_key = "";
  bucket = allocated;
  amount = pos 0;
  currency = "";
  links = links allocation;
}

abbrev unwrapped : Option LedgerEntry → LedgerEntry
unwrapped none = no_entry
unwrapped (some e) = e

false-ne-true : false ≢ true
false-ne-true h = cc

abbrev root : Project
root = record {
  id = 1;
  bu_id = 1;
  parent_id = none;
  root_id = 1;
  depth = 1;
  currency = "EUR";
  status = active;
  department_code = "D1";
  ledger_account_code = "L1";
}

abbrev child : Project
child = record root { id = 2; parent_id = some 1; depth = 2 }

abbrev start : Db
start = record {
  projects = root ∷ child ∷ [];
  units = record { id = 1; parent_id = none } ∷ [];
  settings = [];
  closed_periods = [];
  balances = [];
  entries = [];
  evidence = [];
  audit = [];
  next_id = 0;
}

-- 100 euros, in ten-thousandths.
abbrev opening : PostRequest
opening = record {
  links = links allocation;
  bucket = none;
  amount = pos 1000000;
  currency = "EUR";
  actor_id = 7;
  idempotency_key = "open";
  allow_negative = none;
  skip_period_check = false;
}

abbrev opened : Db
opened = db_of start (post_entry opening start)

abbrev opening_entry : LedgerEntry
opening_entry = value_of no_entry (post_entry opening start)

opening_runs : post_entry opening start ≡ ok (opening_entry, opened)
unfolding find any raise_if ◌+ℤ◌ ◌-ℤ◌ neg sum iso4217 is_upper is_code exponent_of currency_exponent
    half_up round_half_up quantize available project_of balance_of entry_by_id entry_by_key
    reversal_of empty_balance lock_balance update_row sum_where counts_against remaining_of
    assert_postable override_at nearest setting_in effective_setting sign_ok source_ok links_ok
    reference_ok mirrors_entry reversal_ok row_ok balance_ok clashes reverse_of resolve_as resolve
    replay replay_known check_bucket check_period wrong_sign posting_allowed assert_posting_allowed
    projected negative_allowed check_funds new_entry append_entry insert_or_replay insert_entry
    post_new answer post_entry same_links
opening_runs = refl

start-Reconciles : Reconciles start
unfolding balance_total ledger_total balance_of find sum_where
start-Reconciles = record { at = λ p k. refl }

opened-Reconciles : Reconciles opened
opened-Reconciles = post_entry-Reconciles opening start start-Reconciles opening_runs

post_entry-Reconciles_example : Reconciles opened
post_entry-Reconciles_example = post_entry-Reconciles opening start start-Reconciles opening_runs

post_entry-effect_example : Kept start opened ⊎ Added opening_entry start opened
post_entry-effect_example = post_entry-effect opening start opening_runs

post_entry-idempotent_example : post_entry opening opened ≡ ok (opening_entry, opened)
post_entry-idempotent_example = post_entry-idempotent opening start opening_runs

-- A second posting of the same project: 60 euros are held for a requisition.
abbrev holding : FundingRequest
holding = record {
  project_id = 1;
  amount = pos 600000;
  currency = "EUR";
  source_type = "requisition";
  source_id = some 5;
  effective_date = 20001;
  actor_id = 7;
  department_code = "D1";
  ledger_account_code = "L1";
  idempotency_key = "hold";
}

abbrev holding_post : PostRequest
holding_post = record {
  links = record (links reservation) {
    source_type = "requisition";
    source_id = some 5;
    effective_date = 20001;
    reason = none;
  };
  bucket = none;
  amount = pos 600000;
  currency = "EUR";
  actor_id = 7;
  idempotency_key = "hold";
  allow_negative = some false;
  skip_period_check = false;
}

abbrev held_entry : LedgerEntry
held_entry = value_of no_entry (reserve holding opened)

abbrev held_db : Db
held_db = db_of opened (reserve holding opened)

holding_runs : reserve holding opened ≡ ok (held_entry, held_db)
unfolding find any raise_if ◌+ℤ◌ ◌-ℤ◌ neg sum iso4217 is_upper is_code exponent_of currency_exponent
    half_up round_half_up quantize available project_of balance_of entry_by_id entry_by_key
    reversal_of empty_balance lock_balance update_row sum_where counts_against remaining_of
    assert_postable override_at nearest setting_in effective_setting sign_ok source_ok links_ok
    reference_ok mirrors_entry reversal_ok row_ok balance_ok clashes reverse_of resolve_as resolve
    replay replay_known check_bucket check_period wrong_sign posting_allowed assert_posting_allowed
    projected negative_allowed check_funds new_entry append_entry insert_or_replay insert_entry
    post_new answer post_entry same_links funding_post reserve release_post post_release amount_or
    release_again release_new release_by_key release_reserved release_reservation
holding_runs = refl

abbrev guarded_db : Db
guarded_db = db_of opened (post_entry holding_post opened)

abbrev guarded_entry : LedgerEntry
guarded_entry = value_of no_entry (post_entry holding_post opened)

guarded_runs : post_entry holding_post opened ≡ ok (guarded_entry, guarded_db)
unfolding find any raise_if ◌+ℤ◌ ◌-ℤ◌ neg sum iso4217 is_upper is_code exponent_of currency_exponent
    half_up round_half_up quantize available project_of balance_of entry_by_id entry_by_key
    reversal_of empty_balance lock_balance update_row sum_where counts_against remaining_of
    assert_postable override_at nearest setting_in effective_setting sign_ok source_ok links_ok
    reference_ok mirrors_entry reversal_ok row_ok balance_ok clashes reverse_of resolve_as resolve
    replay replay_known check_bucket check_period wrong_sign posting_allowed assert_posting_allowed
    projected negative_allowed check_funds new_entry append_entry insert_or_replay insert_entry
    post_new answer post_entry same_links
guarded_runs = refl

refused_overdraft : (bu : ℕ) → negative_allowed (some false) bu opened ≢ ok true
unfolding negative_allowed
refused_overdraft bu h = false-ne-true (ok-injective h)

post_entry-available_example :
    (b : Balance) × (balance_of 1 guarded_db ≡ some b)
    × ((pos 0 ≤ℤ available b) ⊎ (funds_of (balance_of 1 opened) ≤ℤ available b))
post_entry-available_example =
    post_entry-available holding_post opened refused_overdraft guarded_runs

-- 70 euros more are not there.
overdraft :
    post_entry (record holding_post { amount = pos 700000; idempotency_key = "more" }) guarded_db
    ≡ err (insufficient_budget (pos 400000) (pos 700000))
unfolding find any raise_if ◌+ℤ◌ ◌-ℤ◌ neg sum iso4217 is_upper is_code exponent_of currency_exponent
    half_up round_half_up quantize available project_of balance_of entry_by_id entry_by_key
    reversal_of empty_balance lock_balance update_row sum_where counts_against remaining_of
    assert_postable override_at nearest setting_in effective_setting sign_ok source_ok links_ok
    reference_ok mirrors_entry reversal_ok row_ok balance_ok clashes reverse_of resolve_as resolve
    replay replay_known check_bucket check_period wrong_sign posting_allowed assert_posting_allowed
    projected negative_allowed check_funds new_entry append_entry insert_or_replay insert_entry
    post_new answer post_entry same_links
overdraft = refl

-- 20 of the 60 euros are released.
abbrev releasing : ReleaseRequest
releasing = record {
  entry_id = 1;
  amount = some (pos 200000);
  actor_id = 7;
  reason = "Smaller order";
  idempotency_key = "free";
  effective_date = none;
  today = 20002;
}

abbrev nothing_released : Option LedgerEntry
nothing_released = none

abbrev any_code : CodeCheck
any_code kind code date = ok tt

wrong_sign-mirrors_example :
    wrong_sign reservation (negsuc 4) ≡ not (sign_ok reservation (negsuc 4))
wrong_sign-mirrors_example = wrong_sign-mirrors reservation (negsuc 4)

abbrev derived : Resolved
derived = record { bucket = some allocated; amount = pos 1000000; currency = "EUR" }

derived_runs : resolve_as allocation opening (empty_balance root) none start ≡ ok derived
unfolding find any raise_if ◌+ℤ◌ ◌-ℤ◌ neg sum iso4217 is_upper is_code exponent_of currency_exponent
    half_up round_half_up quantize available project_of balance_of entry_by_id entry_by_key
    reversal_of empty_balance lock_balance update_row sum_where counts_against remaining_of
    assert_postable override_at nearest setting_in effective_setting sign_ok source_ok links_ok
    reference_ok mirrors_entry reversal_ok row_ok balance_ok clashes reverse_of resolve_as resolve
    replay replay_known check_bucket check_period wrong_sign posting_allowed assert_posting_allowed
    projected negative_allowed check_funds new_entry append_entry insert_or_replay insert_entry
    post_new answer post_entry same_links
derived_runs = refl

derived_checked : check_bucket allocation none (some allocated) ≡ ok allocated
unfolding find any raise_if ◌+ℤ◌ ◌-ℤ◌ neg sum iso4217 is_upper is_code exponent_of currency_exponent
    half_up round_half_up quantize available project_of balance_of entry_by_id entry_by_key
    reversal_of empty_balance lock_balance update_row sum_where counts_against remaining_of
    assert_postable override_at nearest setting_in effective_setting sign_ok source_ok links_ok
    reference_ok mirrors_entry reversal_ok row_ok balance_ok clashes reverse_of resolve_as resolve
    replay replay_known check_bucket check_period wrong_sign posting_allowed assert_posting_allowed
    projected negative_allowed check_funds new_entry append_entry insert_or_replay insert_entry
    post_new answer post_entry same_links
derived_checked = refl

derived_bucket_allowed_example : type_bucket_ok allocation allocated ≡ true
derived_bucket_allowed_example =
    derived_bucket_allowed allocation opening (empty_balance root) none start derived allocated
      derived_runs derived_checked
