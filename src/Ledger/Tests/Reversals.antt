-- ===== src/Ledger/Tests/Reversals.antt =====
-- A reversal at work.
use xlr8_flo.Common.{ℕ, ◌≡◌, refl, false, none, some, find, any}
use xlr8_flo.Common.Int.{◌+ℤ◌, ◌-ℤ◌, neg, sum}
use xlr8_flo.Common.Problems.{ok, err, conflict, raise_if}
use xlr8_flo.Money.Currencies.{iso4217}
use xlr8_flo.Money.{
  is_upper, is_code, exponent_of, currency_exponent, half_up, round_half_up, quantize,
}
use xlr8_flo.Ledger.Types.{LedgerBucket, LedgerEntry, same_links}
use xlr8_flo.Ledger.Tables.{
  Db, available, project_of, balance_of, entry_by_id, entry_by_key, reversal_of, empty_balance,
  lock_balance, update_row, sum_where, counts_against, remaining_of, assert_postable,
}
use xlr8_flo.Ledger.Tables.Totals.{balance_total}
use xlr8_flo.Ledger.Settings.{override_at, nearest, setting_in, effective_setting}
use xlr8_flo.Ledger.Constraints.{
  is_some, sign_ok, source_ok, links_ok, reference_ok, mirrors_entry, reversal_ok, row_ok,
  balance_ok,
}
use xlr8_flo.Ledger.Post.{
  clashes, reverse_of, resolve_as, resolve, replay, replay_known, check_bucket, check_period,
  wrong_sign, posting_allowed, assert_posting_allowed, projected, negative_allowed, check_funds,
  new_entry, append_entry, insert_or_replay, insert_entry, post_new, answer, post_entry,
}
use xlr8_flo.Ledger.Postings.{
  ReverseRequest, locked_original, original_entry, release_commitment, check_codes, expected_source,
  conversion_release, release_source, convert, convert_if, consume_new, consume, commit,
  record_actual, reverse_post, check_reversible, reverse_entry,
}
use xlr8_flo.Ledger.Post.Effect.{share_of}
use xlr8_flo.Ledger.Postings.Reversal.{reverse_entry-undoes, reverse_entry-once}
use xlr8_flo.Ledger.Tests.{db_of, value_of, no_entry, opened, opening_entry}

-- The opening allocation is reversed, after nothing was spent.
abbrev undoing : ReverseRequest
undoing = record {
  entry_id = 0;
  actor_id = 7;
  effective_date = 20003;
  reason = "Wrong project";
  idempotency_key = "undo";
}

abbrev undone_entry : LedgerEntry
undone_entry = value_of no_entry (reverse_entry undoing opened)

abbrev undone_db : Db
undone_db = db_of opened (reverse_entry undoing opened)

undoing_runs : reverse_entry undoing opened ≡ ok (undone_entry, undone_db)
unfolding find any raise_if ◌+ℤ◌ ◌-ℤ◌ neg sum iso4217 is_upper is_code exponent_of currency_exponent
    half_up round_half_up quantize available project_of balance_of entry_by_id entry_by_key
    reversal_of empty_balance lock_balance update_row sum_where counts_against remaining_of
    assert_postable override_at nearest setting_in effective_setting sign_ok source_ok links_ok
    reference_ok mirrors_entry reversal_ok row_ok balance_ok clashes reverse_of resolve_as resolve
    replay replay_known check_bucket check_period wrong_sign posting_allowed assert_posting_allowed
    projected negative_allowed check_funds new_entry append_entry insert_or_replay insert_entry
    post_new answer post_entry same_links locked_original original_entry release_commitment
    check_codes expected_source conversion_release release_source convert convert_if consume_new
    consume commit record_actual reverse_post check_reversible reverse_entry
undoing_runs = refl

opening_found : entry_by_id (some 0) opened ≡ some opening_entry
unfolding find any raise_if ◌+ℤ◌ ◌-ℤ◌ neg sum iso4217 is_upper is_code exponent_of currency_exponent
    half_up round_half_up quantize available project_of balance_of entry_by_id entry_by_key
    reversal_of empty_balance lock_balance update_row sum_where counts_against remaining_of
    assert_postable override_at nearest setting_in effective_setting sign_ok source_ok links_ok
    reference_ok mirrors_entry reversal_ok row_ok balance_ok clashes reverse_of resolve_as resolve
    replay replay_known check_bucket check_period wrong_sign posting_allowed assert_posting_allowed
    projected negative_allowed check_funds new_entry append_entry insert_or_replay insert_entry
    post_new answer post_entry same_links
opening_found = refl

undo_unused : entry_by_key "undo" opened ≡ none
unfolding find any raise_if ◌+ℤ◌ ◌-ℤ◌ neg sum iso4217 is_upper is_code exponent_of currency_exponent
    half_up round_half_up quantize available project_of balance_of entry_by_id entry_by_key
    reversal_of empty_balance lock_balance update_row sum_where counts_against remaining_of
    assert_postable override_at nearest setting_in effective_setting sign_ok source_ok links_ok
    reference_ok mirrors_entry reversal_ok row_ok balance_ok clashes reverse_of resolve_as resolve
    replay replay_known check_bucket check_period wrong_sign posting_allowed assert_posting_allowed
    projected negative_allowed check_funds new_entry append_entry insert_or_replay insert_entry
    post_new answer post_entry same_links
undo_unused = refl

reverse_entry-undoes_example :
    (undone_entry.reverses_entry_id ≡ some opening_entry.id)
    × (undone_entry.bucket ≡ opening_entry.bucket)
    × (undone_entry.amount ≡ neg opening_entry.amount)
    × ((p : ℕ) (k : LedgerBucket)
        → balance_total p k undone_db ≡ balance_total p k opened -ℤ share_of p k opening_entry)
    × (is_some (reversal_of opening_entry.id opened) ≡ false)
reverse_entry-undoes_example =
    reverse_entry-undoes undoing opening_entry opened opening_found undo_unused undoing_runs

abbrev undoing_again : ReverseRequest
undoing_again = record undoing { idempotency_key = "undo again" }

again_unused : entry_by_key "undo again" undone_db ≡ none
unfolding find any raise_if ◌+ℤ◌ ◌-ℤ◌ neg sum iso4217 is_upper is_code exponent_of currency_exponent
    half_up round_half_up quantize available project_of balance_of entry_by_id entry_by_key
    reversal_of empty_balance lock_balance update_row sum_where counts_against remaining_of
    assert_postable override_at nearest setting_in effective_setting sign_ok source_ok links_ok
    reference_ok mirrors_entry reversal_ok row_ok balance_ok clashes reverse_of resolve_as resolve
    replay replay_known check_bucket check_period wrong_sign posting_allowed assert_posting_allowed
    projected negative_allowed check_funds new_entry append_entry insert_or_replay insert_entry
    post_new answer post_entry same_links locked_original original_entry release_commitment
    check_codes expected_source conversion_release release_source convert convert_if consume_new
    consume commit record_actual reverse_post check_reversible reverse_entry
again_unused = refl

reverse_entry-once_example :
    reverse_entry undoing_again undone_db ≡ err (conflict "entry_already_reversed")
reverse_entry-once_example =
    reverse_entry-once undoing undoing_again opened undo_unused undoing_runs refl again_unused
