-- ===== src/Ledger/Tests/Releases.antt =====
-- A release of a reservation at work.
use xlr8_flo.Common.{◌≡◌, refl, all, none, some, find, any}
use xlr8_flo.Common.Int.{pos, ◌+ℤ◌, ◌-ℤ◌, ◌≤ℤ◌, neg, sum}
use xlr8_flo.Common.Problems.{ok, raise_if}
use xlr8_flo.Money.Currencies.{iso4217}
use xlr8_flo.Money.{
  is_upper, is_code, exponent_of, currency_exponent, half_up, round_half_up, quantize,
}
use xlr8_flo.Ledger.Types.{LedgerEntry, same_links}
use xlr8_flo.Ledger.Tables.{
  Db, available, project_of, balance_of, entry_by_id, entry_by_key, reversal_of, empty_balance,
  lock_balance, update_row, sum_where, counts_against, remaining_of, assert_postable,
}
use xlr8_flo.Ledger.Settings.{override_at, nearest, setting_in, effective_setting}
use xlr8_flo.Ledger.Constraints.{
  sign_ok, source_ok, links_ok, reference_ok, mirrors_entry, reversal_ok, row_ok, balance_ok,
}
use xlr8_flo.Ledger.Post.{
  clashes, reverse_of, resolve_as, resolve, replay, replay_known, check_bucket, check_period,
  wrong_sign, posting_allowed, assert_posting_allowed, projected, negative_allowed, check_funds,
  new_entry, append_entry, insert_or_replay, insert_entry, post_new, answer, post_entry,
}
use xlr8_flo.Ledger.Reservations.{
  funding_post, reserve, release_post, post_release, amount_or, release_again, release_new,
  release_by_key, release_reserved, release_reservation,
}
use xlr8_flo.Ledger.Post.Numbering.{Numbered}
use xlr8_flo.Ledger.Reservations.Draw.{release_reservation-within}
use xlr8_flo.Ledger.Tests.{
  releasing, nothing_released, db_of, value_of, unwrapped, held_entry, held_db,
}

abbrev released_db : Db
released_db = db_of held_db (release_reservation releasing held_db)

abbrev released_entry : LedgerEntry
released_entry = unwrapped (value_of nothing_released (release_reservation releasing held_db))

releasing_runs : release_reservation releasing held_db ≡ ok (some released_entry, released_db)
unfolding find any raise_if ◌+ℤ◌ ◌-ℤ◌ neg sum iso4217 is_upper is_code exponent_of currency_exponent
    half_up round_half_up quantize available project_of balance_of entry_by_id entry_by_key
    reversal_of empty_balance lock_balance update_row sum_where counts_against remaining_of
    assert_postable override_at nearest setting_in effective_setting sign_ok source_ok links_ok
    reference_ok mirrors_entry reversal_ok row_ok balance_ok clashes reverse_of resolve_as resolve
    replay replay_known check_bucket check_period wrong_sign posting_allowed assert_posting_allowed
    projected negative_allowed check_funds new_entry append_entry insert_or_replay insert_entry
    post_new answer post_entry same_links funding_post reserve release_post post_release amount_or
    release_again release_new release_by_key release_reserved release_reservation
releasing_runs = refl

held_found : entry_by_id (some 1) held_db ≡ some held_entry
unfolding find any raise_if ◌+ℤ◌ ◌-ℤ◌ neg sum iso4217 is_upper is_code exponent_of currency_exponent
    half_up round_half_up quantize available project_of balance_of entry_by_id entry_by_key
    reversal_of empty_balance lock_balance update_row sum_where counts_against remaining_of
    assert_postable override_at nearest setting_in effective_setting sign_ok source_ok links_ok
    reference_ok mirrors_entry reversal_ok row_ok balance_ok clashes reverse_of resolve_as resolve
    replay replay_known check_bucket check_period wrong_sign posting_allowed assert_posting_allowed
    projected negative_allowed check_funds new_entry append_entry insert_or_replay insert_entry
    post_new answer post_entry same_links funding_post reserve release_post post_release amount_or
    release_again release_new release_by_key release_reserved release_reservation
held_found = refl

key_unused : entry_by_key "free" held_db ≡ none
unfolding find any raise_if ◌+ℤ◌ ◌-ℤ◌ neg sum iso4217 is_upper is_code exponent_of currency_exponent
    half_up round_half_up quantize available project_of balance_of entry_by_id entry_by_key
    reversal_of empty_balance lock_balance update_row sum_where counts_against remaining_of
    assert_postable override_at nearest setting_in effective_setting sign_ok source_ok links_ok
    reference_ok mirrors_entry reversal_ok row_ok balance_ok clashes reverse_of resolve_as resolve
    replay replay_known check_bucket check_period wrong_sign posting_allowed assert_posting_allowed
    projected negative_allowed check_funds new_entry append_entry insert_or_replay insert_entry
    post_new answer post_entry same_links funding_post reserve release_post post_release amount_or
    release_again release_new release_by_key release_reserved release_reservation
key_unused = refl

remainder_whole :
    quantize (remaining_of held_entry held_db) held_entry.currency
    ≡ ok (remaining_of held_entry held_db)
unfolding find any raise_if ◌+ℤ◌ ◌-ℤ◌ neg sum iso4217 is_upper is_code exponent_of currency_exponent
    half_up round_half_up quantize available project_of balance_of entry_by_id entry_by_key
    reversal_of empty_balance lock_balance update_row sum_where counts_against remaining_of
    assert_postable override_at nearest setting_in effective_setting sign_ok source_ok links_ok
    reference_ok mirrors_entry reversal_ok row_ok balance_ok clashes reverse_of resolve_as resolve
    replay replay_known check_bucket check_period wrong_sign posting_allowed assert_posting_allowed
    projected negative_allowed check_funds new_entry append_entry insert_or_replay insert_entry
    post_new answer post_entry same_links funding_post reserve release_post post_release amount_or
    release_again release_new release_by_key release_reserved release_reservation
remainder_whole = refl

held-Numbered : Numbered held_db
unfolding all find any raise_if ◌+ℤ◌ ◌-ℤ◌ neg sum iso4217 is_upper is_code exponent_of
    currency_exponent half_up round_half_up quantize available project_of balance_of entry_by_id
    entry_by_key reversal_of empty_balance lock_balance update_row sum_where counts_against
    remaining_of assert_postable override_at nearest setting_in effective_setting sign_ok source_ok
    links_ok reference_ok mirrors_entry reversal_ok row_ok balance_ok clashes reverse_of resolve_as
    resolve replay replay_known check_bucket check_period wrong_sign posting_allowed
    assert_posting_allowed projected negative_allowed check_funds new_entry append_entry
    insert_or_replay insert_entry post_new answer post_entry same_links funding_post reserve
    release_post post_release amount_or release_again release_new release_by_key release_reserved
    release_reservation
held-Numbered = record { holds = refl }

release_reservation-within_example :
    (remaining_of held_entry released_db ≡ remaining_of held_entry held_db +ℤ released_entry.amount)
    × (released_entry.amount ≤ℤ pos 0)
    × (pos 0 ≤ℤ remaining_of held_entry released_db)
release_reservation-within_example =
    release_reservation-within releasing held_entry held_db held-Numbered held_found key_unused
      remainder_whole releasing_runs

remains : remaining_of held_entry released_db ≡ pos 400000
unfolding find any raise_if ◌+ℤ◌ ◌-ℤ◌ neg sum iso4217 is_upper is_code exponent_of currency_exponent
    half_up round_half_up quantize available project_of balance_of entry_by_id entry_by_key
    reversal_of empty_balance lock_balance update_row sum_where counts_against remaining_of
    assert_postable override_at nearest setting_in effective_setting sign_ok source_ok links_ok
    reference_ok mirrors_entry reversal_ok row_ok balance_ok clashes reverse_of resolve_as resolve
    replay replay_known check_bucket check_period wrong_sign posting_allowed assert_posting_allowed
    projected negative_allowed check_funds new_entry append_entry insert_or_replay insert_entry
    post_new answer post_entry same_links funding_post reserve release_post post_release amount_or
    release_again release_new release_by_key release_reserved release_reservation
remains = refl
