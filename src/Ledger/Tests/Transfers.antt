-- ===== src/Ledger/Tests/Transfers.antt =====
-- A transfer in a tree of projects at work, and a sequence of commands.
use xlr8_flo.Common.{◌≡◌, refl, false, none, some, List, [], ◌∷◌, ◌++◌, find, any}
use xlr8_flo.Common.Int.{pos, negsuc, ◌+ℤ◌, ◌-ℤ◌, neg, sum}
use xlr8_flo.Common.Problems.{ok, raise_if}
use xlr8_flo.Money.Currencies.{iso4217}
use xlr8_flo.Money.{
  is_upper, is_code, exponent_of, currency_exponent, half_up, round_half_up, quantize,
}
use xlr8_flo.Ledger.Types.{allocation, allocated, LedgerEntry, same_links}
use xlr8_flo.Ledger.Tables.{
  Db, text, available, project_of, balance_of, entry_by_id, entry_by_key, reversal_of,
  empty_balance, lock_balance, update_row, sum_where, counts_against, remaining_of, assert_postable,
}
use xlr8_flo.Ledger.Tables.Totals.{Reconciles, balance_total, ledger_total}
use xlr8_flo.Ledger.Settings.{override_at, nearest, setting_in, effective_setting}
use xlr8_flo.Ledger.Constraints.{
  sign_ok, source_ok, links_ok, reference_ok, mirrors_entry, reversal_ok, row_ok, balance_ok,
}
use xlr8_flo.Ledger.Post.{
  PostRequest, clashes, reverse_of, resolve_as, resolve, replay, replay_known, check_bucket,
  check_period, wrong_sign, posting_allowed, assert_posting_allowed, projected, negative_allowed,
  check_funds, new_entry, append_entry, insert_or_replay, insert_entry, post_new, answer,
  post_entry,
}
use xlr8_flo.Ledger.Paths.{TreePath, upward, walk_up, before, meeting, path_to, path_between}
use xlr8_flo.Ledger.Transfers.{
  TransferRequest, Leg, or_raise, node_at, hop_legs, direct_legs, route_legs, plan_legs, mode_for,
  evidence_of, record_evidence, leg_post, post_leg, post_each, group_of, prior_of, post_legs,
  get_project, get_all, locked_ids, ineligible, evidence_missing, check_eligible, running_from,
  check_running, transfer_audit, transfer_along, transfer,
}
use xlr8_flo.Ledger.Post.Effect.{post_entry-Reconciles}
use xlr8_flo.Ledger.Paths.Climb.{Joined, path_between-Joined}
use xlr8_flo.Ledger.Transfers.Legs.{net, only, plan_legs-net}
use xlr8_flo.Ledger.Transfers.Advance.{Balanced, transfer-keeps}
use xlr8_flo.Ledger.Commands.{
  Commands, post, move_funds, no_more, next, commands-keep, commands-Reconciles,
}
use xlr8_flo.Ledger.Tests.{
  db_of, value_of, links, no_entry, root, child, start, opening, opened, opening_runs,
  start-Reconciles, opened-Reconciles, any_code,
}

-- The child project gets 5 euros of its own, and then 10 from its parent.
abbrev child_opening : PostRequest
child_opening = record opening {
  links = record (links allocation) { project_id = 2 };
  amount = pos 50000;
  idempotency_key = "open child";
}

abbrev both_db : Db
both_db = db_of opened (post_entry child_opening opened)

abbrev both_entry : LedgerEntry
both_entry = value_of no_entry (post_entry child_opening opened)

both_runs : post_entry child_opening opened ≡ ok (both_entry, both_db)
unfolding find any raise_if ◌+ℤ◌ ◌-ℤ◌ neg sum iso4217 is_upper is_code exponent_of currency_exponent
    half_up round_half_up quantize available project_of balance_of entry_by_id entry_by_key
    reversal_of empty_balance lock_balance update_row sum_where counts_against remaining_of
    assert_postable override_at nearest setting_in effective_setting sign_ok source_ok links_ok
    reference_ok mirrors_entry reversal_ok row_ok balance_ok clashes reverse_of resolve_as resolve
    replay replay_known check_bucket check_period wrong_sign posting_allowed assert_posting_allowed
    projected negative_allowed check_funds new_entry append_entry insert_or_replay insert_entry
    post_new answer post_entry same_links
both_runs = refl

abbrev moving : TransferRequest
moving = record {
  from_project_id = 1;
  to_project_id = 2;
  amount = pos 100000;
  currency = "EUR";
  effective_date = 20004;
  reason = none;
  evidence_ref = none;
  actor_id = 7;
  idempotency_key = "move";
  fresh_group = 9;
}

abbrev no_entries : List LedgerEntry
no_entries = []

abbrev moved_db : Db
moved_db = db_of both_db (transfer moving both_db)

abbrev moved_entries : List LedgerEntry
moved_entries = value_of no_entries (transfer moving both_db)

moving_runs : transfer moving both_db ≡ ok (moved_entries, moved_db)
unfolding find any raise_if ◌+ℤ◌ ◌-ℤ◌ neg sum iso4217 is_upper is_code exponent_of currency_exponent
    half_up round_half_up quantize available project_of balance_of entry_by_id entry_by_key
    reversal_of empty_balance lock_balance update_row sum_where counts_against remaining_of
    assert_postable override_at nearest setting_in effective_setting sign_ok source_ok links_ok
    reference_ok mirrors_entry reversal_ok row_ok balance_ok clashes reverse_of resolve_as resolve
    replay replay_known check_bucket check_period wrong_sign posting_allowed assert_posting_allowed
    projected negative_allowed check_funds new_entry append_entry insert_or_replay insert_entry
    post_new answer post_entry same_links upward walk_up before meeting path_to path_between
    or_raise node_at hop_legs direct_legs route_legs plan_legs mode_for evidence_of record_evidence
    leg_post post_leg post_each group_of prior_of post_legs get_project get_all locked_ids
    ineligible evidence_missing check_eligible running_from check_running transfer_audit
    transfer_along transfer
moving_runs = refl

both_reconcile : Reconciles both_db
both_reconcile = post_entry-Reconciles child_opening opened opened-Reconciles both_runs

transfer-keeps_example :
    Reconciles moved_db
    × Balanced moved_entries
    × ((added : List LedgerEntry) × (moved_db.entries ≡ both_db.entries ++ added))
transfer-keeps_example = transfer-keeps moving both_db both_reconcile moving_runs

allocated_after_move :
    (balance_total 1 allocated moved_db ≡ pos 900000)
    × (balance_total 2 allocated moved_db ≡ pos 150000)
unfolding balance_total find any raise_if ◌+ℤ◌ ◌-ℤ◌ neg sum iso4217 is_upper is_code exponent_of
    currency_exponent half_up round_half_up quantize available project_of balance_of entry_by_id
    entry_by_key reversal_of empty_balance lock_balance update_row sum_where counts_against
    remaining_of assert_postable override_at nearest setting_in effective_setting sign_ok source_ok
    links_ok reference_ok mirrors_entry reversal_ok row_ok balance_ok clashes reverse_of resolve_as
    resolve replay replay_known check_bucket check_period wrong_sign posting_allowed
    assert_posting_allowed projected negative_allowed check_funds new_entry append_entry
    insert_or_replay insert_entry post_new answer post_entry same_links upward walk_up before
    meeting path_to path_between or_raise node_at hop_legs direct_legs route_legs plan_legs mode_for
    evidence_of record_evidence leg_post post_leg post_each group_of prior_of post_legs get_project
    get_all locked_ids ineligible evidence_missing check_eligible running_from check_running
    transfer_audit transfer_along transfer
allocated_after_move = (refl, refl)

abbrev down : TreePath
down = record { up = []; lca = some 1; down = 2 ∷ [] }

abbrev hop : List Leg
hop =
    record { node = root; amount = negsuc 99999; suffix = ":0:out" }
    ∷ record { node = child; amount = pos 100000; suffix = ":0:in" }
    ∷ []

down_found : path_between 1 2 both_db ≡ ok down
unfolding find any raise_if ◌+ℤ◌ ◌-ℤ◌ neg sum iso4217 is_upper is_code exponent_of currency_exponent
    half_up round_half_up quantize available project_of balance_of entry_by_id entry_by_key
    reversal_of empty_balance lock_balance update_row sum_where counts_against remaining_of
    assert_postable override_at nearest setting_in effective_setting sign_ok source_ok links_ok
    reference_ok mirrors_entry reversal_ok row_ok balance_ok clashes reverse_of resolve_as resolve
    replay replay_known check_bucket check_period wrong_sign posting_allowed assert_posting_allowed
    projected negative_allowed check_funds new_entry append_entry insert_or_replay insert_entry
    post_new answer post_entry same_links upward walk_up before meeting path_to path_between
    or_raise node_at hop_legs direct_legs route_legs plan_legs mode_for evidence_of record_evidence
    leg_post post_leg post_each group_of prior_of post_legs get_project get_all locked_ids
    ineligible evidence_missing check_eligible running_from check_running transfer_audit
    transfer_along transfer
down_found = refl

hop_planned : plan_legs (root ∷ child ∷ []) down 1 2 false (text "roll_down") (pos 100000) ≡ ok hop
unfolding find any raise_if ◌+ℤ◌ ◌-ℤ◌ neg sum iso4217 is_upper is_code exponent_of currency_exponent
    half_up round_half_up quantize available project_of balance_of entry_by_id entry_by_key
    reversal_of empty_balance lock_balance update_row sum_where counts_against remaining_of
    assert_postable override_at nearest setting_in effective_setting sign_ok source_ok links_ok
    reference_ok mirrors_entry reversal_ok row_ok balance_ok clashes reverse_of resolve_as resolve
    replay replay_known check_bucket check_period wrong_sign posting_allowed assert_posting_allowed
    projected negative_allowed check_funds new_entry append_entry insert_or_replay insert_entry
    post_new answer post_entry same_links upward walk_up before meeting path_to path_between
    or_raise node_at hop_legs direct_legs route_legs plan_legs mode_for evidence_of record_evidence
    leg_post post_leg post_each group_of prior_of post_legs get_project get_all locked_ids
    ineligible evidence_missing check_eligible running_from check_running transfer_audit
    transfer_along transfer
hop_planned = refl

plan_legs-net_example : net 2 hop ≡ only 2 2 (pos 100000) -ℤ only 1 2 (pos 100000)
plan_legs-net_example =
    plan_legs-net (root ∷ child ∷ []) 1 2 both_db false (text "roll_down") (pos 100000) down_found
      hop_planned 2

abbrev rise : TreePath
rise = record { up = 2 ∷ []; lca = some 1; down = [] }

rise_found : path_between 2 1 both_db ≡ ok rise
unfolding find any raise_if ◌+ℤ◌ ◌-ℤ◌ neg sum iso4217 is_upper is_code exponent_of currency_exponent
    half_up round_half_up quantize available project_of balance_of entry_by_id entry_by_key
    reversal_of empty_balance lock_balance update_row sum_where counts_against remaining_of
    assert_postable override_at nearest setting_in effective_setting sign_ok source_ok links_ok
    reference_ok mirrors_entry reversal_ok row_ok balance_ok clashes reverse_of resolve_as resolve
    replay replay_known check_bucket check_period wrong_sign posting_allowed assert_posting_allowed
    projected negative_allowed check_funds new_entry append_entry insert_or_replay insert_entry
    post_new answer post_entry same_links upward walk_up before meeting path_to path_between
    or_raise node_at hop_legs direct_legs route_legs plan_legs mode_for evidence_of record_evidence
    leg_post post_leg post_each group_of prior_of post_legs get_project get_all locked_ids
    ineligible evidence_missing check_eligible running_from check_running transfer_audit
    transfer_along transfer
rise_found = refl

path_between-Joined_example : Joined both_db 2 1 rise 1
path_between-Joined_example = path_between-Joined 2 1 both_db 1 rise_found refl

abbrev year : Commands any_code start moved_db
year =
    next (post opening opening_runs)
      (next (post child_opening both_runs) (next (move_funds moving moving_runs) no_more))

commands-keep_example :
    Reconciles moved_db × ((added : List LedgerEntry) × (moved_db.entries ≡ start.entries ++ added))
commands-keep_example = commands-keep any_code start-Reconciles year

commands-Reconciles_example : balance_total 2 allocated moved_db ≡ ledger_total 2 allocated moved_db
commands-Reconciles_example = commands-Reconciles any_code refl refl year 2 allocated
