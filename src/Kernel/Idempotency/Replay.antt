-- ===== src/Kernel/Idempotency/Replay.antt =====
-- Repeated claims of a key (apps/api/src/flo/kernel/idempotency/store.py).
use xlr8_flo.Common.{
  ℕ, String, ◌≡◌, ◌≢◌, refl, sym, ap, ◌∙◌, inl, inr, Bool, true, false, ◌&&◌, ◌||◌, Option, none,
  some, List, [], ◌∷◌, ◌++◌, if◌then◌else◌, find, any, any-append, Bool-cases, find-append_none,
  some-injective,
}
use xlr8_flo.Common.Equality.{◌===◌, ===_refl, String_eq}
use xlr8_flo.Common.Problems.{is_ok, ok, raise_if, >>-eq-ok, ok-injective}
use xlr8_flo.Kernel.Idempotency.{
  StoredResponse, KeyState, in_progress, completed, KeyRow, ClaimResult, claimed, busy, reused,
  replayed, existing, classify, classify_state, claim_new, claim_known, claim, is_open,
  complete_rows, complete,
}

abbrev finished : StoredResponse → KeyRow → KeyRow
finished response r = record r { state = completed response }

completed_head :
    (key : String) (response : StoredResponse) (q r : KeyRow) (rest : List KeyRow)
    → (q.key === key) ≡ true
    → q ≡ r
    → is_open r.state ≡ true
    → find
        (λ x. x.key === key)
        ((if q.key === key && is_open q.state then finished response q else q) ∷ rest)
      ≡ some (finished response r)
unfolding find
completed_head key response q r rest here same live =
    rw (here, ap (λ x. is_open x.state) same ∙ live, here)
      (ap (λ x. some (finished response x)) same)

skipped_head :
    (key : String) (response : StoredResponse) (q r : KeyRow) (rest : List KeyRow)
    → (q.key === key) ≡ false
    → find (λ x. x.key === key) rest ≡ some r
    → find
        (λ x. x.key === key)
        ((if q.key === key && is_open q.state then finished response q else q) ∷ rest)
      ≡ some r
unfolding find
skipped_head key response q r rest there found = rw (there, there) found

-- Completion gives the row of a key its response.
existing_complete :
    (key : String) (response : StoredResponse) (rows : List KeyRow) {r : KeyRow}
    → existing key rows ≡ some r
    → is_open r.state ≡ true
    → existing key (complete_rows key response rows) ≡ some (finished response r)
unfolding existing complete_rows find
existing_complete key response [] h live = cc
existing_complete key response (q ∷ qs) {r} h live = elim (Bool-cases (q.key === key)) [
  | inl here ↦
      let same : q ≡ r = some-injective (rw (here) at h) in
      completed_head key response q r (complete_rows key response qs) here same live
  | inr there ↦
      skipped_head key response q (finished response r) (complete_rows key response qs) there
        (existing_complete key response qs (rw (there) at h) live)
]

abbrev opened : ℕ → String → String → String → KeyRow
opened now key endpoint request_hash = record {
  key = key;
  endpoint = endpoint;
  request_hash = request_hash;
  created_at = now;
  state = in_progress;
}

busy-ne-claimed : busy ≢ claimed
busy-ne-claimed h = cc

not_claimed : (st : KeyState) (same : Bool) → classify_state st same ≢ claimed
not_claimed in_progress same h = cc
not_claimed (completed response) true h = cc
not_claimed (completed response) false h = cc

-- A claim that is granted has put in a row of its own.
granted :
    (known : Option KeyRow) (free : Bool) (now : ℕ) (key endpoint request_hash : String)
    (rows : List KeyRow) {rows₁ : List KeyRow}
    → ◌≡◌ {A = ClaimResult × List KeyRow}
        (claim_known known free now key endpoint request_hash rows)
        (claimed, rows₁)
    → (known ≡ none) × (rows₁ ≡ rows ++ opened now key endpoint request_hash ∷ [])
unfolding classify claim_new
granted none true now key endpoint request_hash rows h = (refl, sym (ap (λ p. p.1) h))
granted none false now key endpoint request_hash rows h = absurd (busy-ne-claimed (ap (λ p. p.0) h))
granted (some row) free now key endpoint request_hash rows h =
    absurd (not_claimed row.state _ (ap (λ p. p.0) h))

found_open :
    (now : ℕ) (key endpoint request_hash : String) (rows : List KeyRow)
    → existing key rows ≡ none
    → existing key (rows ++ opened now key endpoint request_hash ∷ [])
      ≡ some (opened now key endpoint request_hash)
unfolding existing find
found_open now key endpoint request_hash rows fresh =
    find-append_none (λ r. r.key === key) rows _ fresh ∙ rw (===_refl key)

-- The key of a claim that was granted and completed with a response answers every later claim, and
-- changes nothing: a claim for the same endpoint with the same request hash gets the response, and
-- one for another endpoint or with another hash is told that the key is reused.
pub claim-replays :
    (free again : Bool) (now later : ℕ) (key endpoint request_hash endpoint' request_hash' : String)
    (response : StoredResponse) (rows : List KeyRow) {rows₁ rows₂ : List KeyRow}
    → ◌≡◌ {A = ClaimResult × List KeyRow}
        (claim free now key endpoint request_hash rows)
        (claimed, rows₁)
    → complete key response rows₁ ≡ ok rows₂
    → ◌≡◌ {A = ClaimResult × List KeyRow} (claim again later key endpoint' request_hash' rows₂) (
      (if endpoint === endpoint' && request_hash === request_hash'
          then replayed response
          else reused),
      rows₂,
    )
unfolding claim complete classify
claim-replays free again now later key endpoint request_hash endpoint' request_hash' response rows
      {rows₁} {rows₂} h c =
    let (fresh, rows_are) = granted (existing key rows) free now key endpoint request_hash rows h in
    let r = opened now key endpoint request_hash in
    let found : existing key rows₁ ≡ some r =
      ap (existing key) rows_are ∙ found_open now key endpoint request_hash rows fresh in
    let after : existing key rows₂ ≡ some (finished response r) =
      ap (existing key) (sym (ok-injective ((>>-eq-ok _ _ _ c).1)))
      ∙ existing_complete key response rows₁ found refl in
    ap (λ known. claim_known known again later key endpoint' request_hash' rows₂) after

or_true : (b : Bool) → (b || true) ≡ true
or_true true = refl
or_true false = refl

-- A claim that was granted can be completed.
pub complete-granted :
    (free : Bool) (now : ℕ) (key endpoint request_hash : String) (response : StoredResponse)
    (rows : List KeyRow) {rows₁ : List KeyRow}
    → ◌≡◌ {A = ClaimResult × List KeyRow}
        (claim free now key endpoint request_hash rows)
        (claimed, rows₁)
    → is_ok (complete key response rows₁) ≡ true
unfolding claim complete raise_if any
complete-granted free now key endpoint request_hash response rows {rows₁} h =
    let (_, rows_are) = granted (existing key rows) free now key endpoint request_hash rows h in
    rw (
      rows_are,
      any-append (λ r. r.key === key && is_open r.state) rows
          (opened now key endpoint request_hash ∷ []),
      ===_refl key,
      or_true (any (λ r. r.key === key && is_open r.state) rows),
    )
