-- ===== src/Ledger/Tests/Commitments.antt =====
-- A commitment that consumes a reservation, and its release, at work.
use xlr8_flo.Common.{◌≡◌, refl, all, none, some, find, any}
use xlr8_flo.Common.Int.{pos, ◌+ℤ◌, ◌-ℤ◌, ◌≤ℤ◌, neg, sum}
use xlr8_flo.Common.Problems.{ok, raise_if}
use xlr8_flo.Money.Currencies.{iso4217}
use xlr8_flo.Money.{
  is_upper, is_code, exponent_of, currency_exponent, half_up, round_half_up, quantize,
}
use xlr8_flo.Ledger.Types.{reserved, committed, LedgerEntry, same_links}
use xlr8_flo.Ledger.Tables.{
  Db, available, project_of, balance_of, entry_by_id, entry_by_key, reversal_of, empty_balance,
  lock_balance, update_row, sum_where, counts_against, remaining_of, assert_postable,
}
use xlr8_flo.Ledger.Tables.Totals.{balance_total}
use xlr8_flo.Ledger.Settings.{override_at, nearest, setting_in, effective_setting}
use xlr8_flo.Ledger.Constraints.{
  sign_ok, source_ok, links_ok, reference_ok, mirrors_entry, reversal_ok, row_ok, balance_ok,
}
use xlr8_flo.Ledger.Post.{
  clashes, reverse_of, resolve_as, resolve, replay, replay_known, check_bucket, check_period,
  wrong_sign, posting_allowed, assert_posting_allowed, projected, negative_allowed, check_funds,
  new_entry, append_entry, insert_or_replay, insert_entry, post_new, answer, post_entry,
}
use xlr8_flo.Ledger.Reservations.{
  FundingRequest, ReleaseRequest, funding_post, reserve, release_post, post_release, amount_or,
  release_again, release_new, release_by_key, release_reserved, release_reservation,
}
use xlr8_flo.Ledger.Postings.{
  locked_original, original_entry, release_commitment, check_codes, expected_source,
  conversion_release, release_source, convert, convert_if, consume_new, consume, commit,
  record_actual, reverse_post, check_reversible, reverse_entry,
}
use xlr8_flo.Ledger.Post.Numbering.{Numbered}
use xlr8_flo.Ledger.Postings.Draw.{release_commitment-within}
use xlr8_flo.Ledger.Tests.{
  releasing, nothing_released, db_of, value_of, no_entry, unwrapped, holding, held_db, any_code,
}

-- 40 euros become a commitment, which consumes the reservation as far as it goes.
abbrev ordering : FundingRequest
ordering = record holding { amount = pos 400000; idempotency_key = "order" }

abbrev ordered_entry : LedgerEntry
ordered_entry = value_of no_entry (commit any_code (some 1) ordering held_db)

abbrev ordered_db : Db
ordered_db = db_of held_db (commit any_code (some 1) ordering held_db)

ordering_runs : commit any_code (some 1) ordering held_db ≡ ok (ordered_entry, ordered_db)
unfolding find any raise_if ◌+ℤ◌ ◌-ℤ◌ neg sum iso4217 is_upper is_code exponent_of currency_exponent
    half_up round_half_up quantize available project_of balance_of entry_by_id entry_by_key
    reversal_of empty_balance lock_balance update_row sum_where counts_against remaining_of
    assert_postable override_at nearest setting_in effective_setting sign_ok source_ok links_ok
    reference_ok mirrors_entry reversal_ok row_ok balance_ok clashes reverse_of resolve_as resolve
    replay replay_known check_bucket check_period wrong_sign posting_allowed assert_posting_allowed
    projected negative_allowed check_funds new_entry append_entry insert_or_replay insert_entry
    post_new answer post_entry same_links funding_post reserve release_post post_release amount_or
    release_again release_new release_by_key release_reserved release_reservation locked_original
    original_entry release_commitment check_codes expected_source conversion_release release_source
    convert convert_if consume_new consume commit record_actual reverse_post check_reversible
    reverse_entry
ordering_runs = refl

buckets_after_order :
    (balance_total 1 reserved ordered_db ≡ pos 200000)
    × (balance_total 1 committed ordered_db ≡ pos 400000)
unfolding balance_total find any raise_if ◌+ℤ◌ ◌-ℤ◌ neg sum iso4217 is_upper is_code exponent_of
    currency_exponent half_up round_half_up quantize available project_of balance_of entry_by_id
    entry_by_key reversal_of empty_balance lock_balance update_row sum_where counts_against
    remaining_of assert_postable override_at nearest setting_in effective_setting sign_ok source_ok
    links_ok reference_ok mirrors_entry reversal_ok row_ok balance_ok clashes reverse_of resolve_as
    resolve replay replay_known check_bucket check_period wrong_sign posting_allowed
    assert_posting_allowed projected negative_allowed check_funds new_entry append_entry
    insert_or_replay insert_entry post_new answer post_entry same_links funding_post reserve
    release_post post_release amount_or release_again release_new release_by_key release_reserved
    release_reservation locked_original original_entry release_commitment check_codes
    expected_source conversion_release release_source convert convert_if consume_new consume commit
    record_actual reverse_post check_reversible reverse_entry
buckets_after_order = (refl, refl)

-- 10 of the 40 euros of the commitment are released.
abbrev loosening : ReleaseRequest
loosening = record releasing {
  entry_id = 3;
  amount = some (pos 100000);
  idempotency_key = "loosen";
}

abbrev loosened_db : Db
loosened_db = db_of ordered_db (release_commitment loosening ordered_db)

abbrev loosened_entry : LedgerEntry
loosened_entry = unwrapped (value_of nothing_released (release_commitment loosening ordered_db))

loosening_runs : release_commitment loosening ordered_db ≡ ok (some loosened_entry, loosened_db)
unfolding find any raise_if ◌+ℤ◌ ◌-ℤ◌ neg sum iso4217 is_upper is_code exponent_of currency_exponent
    half_up round_half_up quantize available project_of balance_of entry_by_id entry_by_key
    reversal_of empty_balance lock_balance update_row sum_where counts_against remaining_of
    assert_postable override_at nearest setting_in effective_setting sign_ok source_ok links_ok
    reference_ok mirrors_entry reversal_ok row_ok balance_ok clashes reverse_of resolve_as resolve
    replay replay_known check_bucket check_period wrong_sign posting_allowed assert_posting_allowed
    projected negative_allowed check_funds new_entry append_entry insert_or_replay insert_entry
    post_new answer post_entry same_links funding_post reserve release_post post_release amount_or
    release_again release_new release_by_key release_reserved release_reservation locked_original
    original_entry release_commitment check_codes expected_source conversion_release release_source
    convert convert_if consume_new consume commit record_actual reverse_post check_reversible
    reverse_entry
loosening_runs = refl

order_found : entry_by_id (some 3) ordered_db ≡ some ordered_entry
unfolding find any raise_if ◌+ℤ◌ ◌-ℤ◌ neg sum iso4217 is_upper is_code exponent_of currency_exponent
    half_up round_half_up quantize available project_of balance_of entry_by_id entry_by_key
    reversal_of empty_balance lock_balance update_row sum_where counts_against remaining_of
    assert_postable override_at nearest setting_in effective_setting sign_ok source_ok links_ok
    reference_ok mirrors_entry reversal_ok row_ok balance_ok clashes reverse_of resolve_as resolve
    replay replay_known check_bucket check_period wrong_sign posting_allowed assert_posting_allowed
    projected negative_allowed check_funds new_entry append_entry insert_or_replay insert_entry
    post_new answer post_entry same_links funding_post reserve release_post post_release amount_or
    release_again release_new release_by_key release_reserved release_reservation locked_original
    original_entry release_commitment check_codes expected_source conversion_release release_source
    convert convert_if consume_new consume commit record_actual reverse_post check_reversible
    reverse_entry
order_found = refl

loosen_unused : entry_by_key "loosen" ordered_db ≡ none
unfolding find any raise_if ◌+ℤ◌ ◌-ℤ◌ neg sum iso4217 is_upper is_code exponent_of currency_exponent
    half_up round_half_up quantize available project_of balance_of entry_by_id entry_by_key
    reversal_of empty_balance lock_balance update_row sum_where counts_against remaining_of
    assert_postable override_at nearest setting_in effective_setting sign_ok source_ok links_ok
    reference_ok mirrors_entry reversal_ok row_ok balance_ok clashes reverse_of resolve_as resolve
    replay replay_known check_bucket check_period wrong_sign posting_allowed assert_posting_allowed
    projected negative_allowed check_funds new_entry append_entry insert_or_replay insert_entry
    post_new answer post_entry same_links funding_post reserve release_post post_release amount_or
    release_again release_new release_by_key release_reserved release_reservation locked_original
    original_entry release_commitment check_codes expected_source conversion_release release_source
    convert convert_if consume_new consume commit record_actual reverse_post check_reversible
    reverse_entry
loosen_unused = refl

order_whole :
    quantize (remaining_of ordered_entry ordered_db) ordered_entry.currency
    ≡ ok (remaining_of ordered_entry ordered_db)
unfolding find any raise_if ◌+ℤ◌ ◌-ℤ◌ neg sum iso4217 is_upper is_code exponent_of currency_exponent
    half_up round_half_up quantize available project_of balance_of entry_by_id entry_by_key
    reversal_of empty_balance lock_balance update_row sum_where counts_against remaining_of
    assert_postable override_at nearest setting_in effective_setting sign_ok source_ok links_ok
    reference_ok mirrors_entry reversal_ok row_ok balance_ok clashes reverse_of resolve_as resolve
    replay replay_known check_bucket check_period wrong_sign posting_allowed assert_posting_allowed
    projected negative_allowed check_funds new_entry append_entry insert_or_replay insert_entry
    post_new answer post_entry same_links funding_post reserve release_post post_release amount_or
    release_again release_new release_by_key release_reserved release_reservation locked_original
    original_entry release_commitment check_codes expected_source conversion_release release_source
    convert convert_if consume_new consume commit record_actual reverse_post check_reversible
    reverse_entry
order_whole = refl

ordered-Numbered : Numbered ordered_db
unfolding all find any raise_if ◌+ℤ◌ ◌-ℤ◌ neg sum iso4217 is_upper is_code exponent_of
    currency_exponent half_up round_half_up quantize available project_of balance_of entry_by_id
    entry_by_key reversal_of empty_balance lock_balance update_row sum_where counts_against
    remaining_of assert_postable override_at nearest setting_in effective_setting sign_ok source_ok
    links_ok reference_ok mirrors_entry reversal_ok row_ok balance_ok clashes reverse_of resolve_as
    resolve replay replay_known check_bucket check_period wrong_sign posting_allowed
    assert_posting_allowed projected negative_allowed check_funds new_entry append_entry
    insert_or_replay insert_entry post_new answer post_entry same_links funding_post reserve
    release_post post_release amount_or release_again release_new release_by_key release_reserved
    release_reservation locked_original original_entry release_commitment check_codes
    expected_source conversion_release release_source convert convert_if consume_new consume commit
    record_actual reverse_post check_reversible reverse_entry
ordered-Numbered = record { holds = refl }

release_commitment-within_example :
    (remaining_of ordered_entry loosened_db
      ≡ remaining_of ordered_entry ordered_db +ℤ loosened_entry.amount)
    × (loosened_entry.amount ≤ℤ pos 0)
    × (pos 0 ≤ℤ remaining_of ordered_entry loosened_db)
release_commitment-within_example =
    release_commitment-within loosening ordered_entry ordered_db ordered-Numbered order_found
      loosen_unused order_whole loosening_runs
