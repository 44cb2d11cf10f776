-- ===== src/Ledger/Reservations/Draw.antt =====
-- What a release takes from what remains of its entry
-- (apps/api/src/flo/modules/budget/reservations.py and postings.py).
use mathlib.Core.Path.{subst, ap₂}
use xlr8_flo.Common.{
  some-injective, String, ◌≡◌, ◌≢◌, refl, sym, ap, ◌∙◌, inl, inr, true, false, Option, none, some,
  [], ◌∷◌, ◌++◌,
}
use xlr8_flo.Common.Int.{ℤ, pos, neg, ◌+ℤ◌, ◌≤ℤ◌, int_laws}
use xlr8_flo.Common.Equality.{◌===◌, ℤ_eq, ℕ_eq, Option_eq}
use xlr8_flo.Common.Problems.{ok, >>-eq-ok, ok-injective}
use xlr8_flo.Ledger.Types.{LedgerBucket, reservation, reserved, LedgerEntry, LedgerType_eq}
use xlr8_flo.Money.{quantize}
use xlr8_flo.Money.Rounding.{quantize_rounds, quantize_idem}
use xlr8_flo.Ledger.Post.{Resolved, resolve, resolve_as, new_entry}
use xlr8_flo.Ledger.Post.Stages.{post_entry-Accepted}
use xlr8_flo.Ledger.Tables.{Balance}
use xlr8_flo.Ledger.Tables.Totals.{lock_balance-Locked}
use xlr8_flo.Ledger.Tables.{Db, entry_by_id, entry_by_key, reversal_of, remaining_of}
use xlr8_flo.Ledger.Constraints.{is_some}
use xlr8_flo.Ledger.Post.{post_entry}
use xlr8_flo.Ledger.Post.Effect.{fresh-Posted, Posted-Added}
use xlr8_flo.Ledger.Reservations.{
  ReleaseRequest, release_post, amount_or, release_by_key, release_reserved, release_reservation,
}
use xlr8_flo.Ledger.Tables.Remaining.{NoneReverses, remaining_of-append}
use xlr8_flo.Ledger.Post.Numbering.{Numbered, Numbered-next}
use xlr8_flo.Common.{not-false, any_of_absent}
use xlr8_flo.Ledger.Reservations.Release.{Drawn, release_new-Drawn}

amount_or-whole :
    (d : ℤ) (given : Option ℤ) (c : String) {x : ℤ}
    → quantize d c ≡ ok d
    → amount_or d given c ≡ ok x
    → quantize x c ≡ ok x
unfolding amount_or
amount_or-whole d none c whole h = subst (λ y. quantize y c ≡ ok y) (ok-injective h) whole
amount_or-whole d (some y) c whole h = quantize_idem y c h

quantize-neg : (x : ℤ) (c : String) → quantize x c ≡ ok x → quantize (neg x) c ≡ ok (neg x)
quantize-neg x c h = let (_, _, _, _, _, _, negated) = quantize_rounds x c h in negated

-- The new entry of a release under a new key.
record Entered (o : LedgerEntry) (k : LedgerBucket) (x : ℤ) (db : Db) (e : LedgerEntry) (db' : Db)
    : Type 0 where
  pub amount : e.amount ≡ neg x
  pub reverses : e.reverses_entry_id ≡ none
  pub releases : e.releases_entry_id ≡ some o.id
  pub number : e.id ≡ db.next_id
  pub entries : db'.entries ≡ db.entries ++ e ∷ []

release_money :
    (o : LedgerEntry) (k : LedgerBucket) (x : ℤ) (req : ReleaseRequest) (b : Balance)
    (known : Option LedgerEntry) (db : Db) {r : Resolved}
    → resolve (release_post o k x req) b known db ≡ ok r
    → (r.amount ≡ neg x) × (r.currency ≡ o.currency)
unfolding resolve resolve_as release_post
release_money o k x req b known db h =
    let same = ok-injective h in (ap (λ r. r.amount) (sym same), ap (λ r. r.currency) (sym same))

Posted-Entered :
    (o : LedgerEntry) (k : LedgerBucket) (x : ℤ) (req : ReleaseRequest) (db : Db) {e : LedgerEntry}
    {db' : Db}
    → entry_by_key req.idempotency_key db ≡ none
    → quantize x o.currency ≡ ok x
    → post_entry (release_post o k x req) db ≡ ok (e, db')
    → Entered o k x db e db'
unfolding release_post new_entry
Posted-Entered o k x req db {e} {db'} fresh whole h =
    let post = release_post o k x req in
    let a = post_entry-Accepted post db h in
    let p = fresh-Posted post db fresh a in
    let l = lock_balance-Locked post.project_id db a.locking in
    let added = Posted-Added l p in
    let (amount, currency) =
      release_money o k x req a.balance (entry_by_key post.idempotency_key a.locked) a.locked
        a.resolving in
    record {
      amount =
          ok-injective
            (sym p.rounded ∙ ap₂ quantize amount currency ∙ quantize-neg x o.currency whole);
      reverses = ap (λ n. n.links.reverses_entry_id) p.made;
      releases = ap (λ n. n.links.releases_entry_id) p.made;
      number = added.number;
      entries = added.entries;
    }

remaining-nonneg : (r x a : ℤ) → a ≡ neg x → x ≤ℤ r → pos 0 ≤ℤ r +ℤ a
remaining-nonneg r x a same within = rw (same) (omega int_laws)

neg-nonpos : (x a : ℤ) → a ≡ neg x → pos 0 ≤ℤ x → a ≤ℤ pos 0
neg-nonpos x a same h = rw (same) (omega int_laws)

not_some-none : {A : Type 0} (o : Option A) → is_some o ≡ false → o ≡ none
not_some-none none h = refl
not_some-none (some a) h = cc

some-ne-none : {A : Type 0} {a : A} → ◌≢◌ {A = Option A} (some a) none
some-ne-none h = cc

-- The facts about a release that posted its entry.
pub record Reduced (o e : LedgerEntry) (db db' : Db) : Type 0 where
  pub exact : remaining_of o db' ≡ remaining_of o db +ℤ e.amount
  pub negative : e.amount ≤ℤ pos 0
  pub left : pos 0 ≤ℤ remaining_of o db'

NoneReverses-of :
    (o : LedgerEntry) (db : Db)
    → is_some (reversal_of o.id db) ≡ false
    → NoneReverses o.id db.entries
unfolding reversal_of
NoneReverses-of o db live =
    any_of_absent (λ e. e.reverses_entry_id === some o.id) db.entries (not_some-none _ live)

Entered-Reduced :
    (o : LedgerEntry) (k : LedgerBucket) (x : ℤ) (db : Db) (e : LedgerEntry) (db' : Db)
    → Numbered db
    → is_some (reversal_of o.id db) ≡ false
    → pos 0 ≤ℤ x
    → x ≤ℤ remaining_of o db
    → Entered o k x db e db'
    → Reduced o e db db'
Entered-Reduced o k x db e db' numbered live sign within p =
    let exact =
      remaining_of-append o e db db' p.entries p.reverses p.releases
        (subst (λ n. NoneReverses n db.entries) (sym p.number) (Numbered-next db numbered))
        (NoneReverses-of o db live) in
    record {
      exact = exact;
      negative = neg-nonpos x e.amount p.amount sign;
      left =
          subst (λ r. pos 0 ≤ℤ r) (sym exact)
            (remaining-nonneg (remaining_of o db) x e.amount p.amount within);
    }

Drawn-Reduced :
    (o : LedgerEntry) (k : LedgerBucket) (req : ReleaseRequest) (db : Db) {e : LedgerEntry}
    {db' : Db}
    → Numbered db
    → entry_by_key req.idempotency_key db ≡ none
    → quantize (remaining_of o db) o.currency ≡ ok (remaining_of o db)
    → Drawn o k req db db' (some e)
    → Reduced o e db db'
Drawn-Reduced o k req db {e} {db'} numbered fresh whole d =
    subst (λ n. Reduced o n db db') {x = d.entry} {y = e} (some-injective (sym d.result))
      (Entered-Reduced o k d.amount db d.entry db' numbered d.live d.not_negative d.within (
        Posted-Entered o k d.amount req db fresh
          (amount_or-whole (remaining_of o db) req.amount o.currency whole d.chosen) d.posted))

-- A release under a new key that posts an entry takes its amount from what remains.
pub release_by_key-Reduced :
    (o : LedgerEntry) (k : LedgerBucket) (reversed exceeds : String) (req : ReleaseRequest)
    (db : Db) {e : LedgerEntry} {db' : Db}
    → Numbered db
    → entry_by_key req.idempotency_key db ≡ none
    → quantize (remaining_of o db) o.currency ≡ ok (remaining_of o db)
    → release_by_key (entry_by_key req.idempotency_key db) o k reversed exceeds req db
      ≡ ok (some e, db')
    → Reduced o e db db'
unfolding release_by_key
release_by_key-Reduced o k reversed exceeds req db {e} {db'} numbered fresh whole h =
    elim (release_new-Drawn o k reversed exceeds req db
      (ap (λ known. release_by_key known o k reversed exceeds req db) (sym fresh) ∙ h)) [
        | inl (nothing, _, _) ↦ absurd (some-ne-none nothing)
        | inr d ↦ Drawn-Reduced o k req db numbered fresh whole d
      ]

release_reserved-ok :
    (o : LedgerEntry) (req : ReleaseRequest) (db : Db) {r : Option LedgerEntry × Db}
    → release_reserved (some o) req db ≡ ok r
    → (o.entry_type === reservation ≡ true)
      × (release_by_key
            (entry_by_key req.idempotency_key db)
            o
            reserved
            "reservation_reversed"
            "release_exceeds_reservation"
            req
            db
          ≡ ok r)
unfolding release_reserved
release_reserved-ok o req db h =
    let (kind, h₁) = >>-eq-ok _ _ _ h in (not-false _ kind, (>>-eq-ok _ _ _ h₁).1)

-- A release of a reservation under a new key that returns an entry lowers what remains of the
-- reservation by exactly the amount released, which is not negative, and never below zero. It needs
-- entries numbered by their sequence, and a remainder in whole minor units of the currency.
pub release_reservation-within :
    (req : ReleaseRequest) (o : LedgerEntry) (db : Db) {e : LedgerEntry} {db' : Db}
    → Numbered db
    → entry_by_id (some req.entry_id) db ≡ some o
    → entry_by_key req.idempotency_key db ≡ none
    → quantize (remaining_of o db) o.currency ≡ ok (remaining_of o db)
    → release_reservation req db ≡ ok (some e, db')
    → (remaining_of o db' ≡ remaining_of o db +ℤ e.amount)
      × (e.amount ≤ℤ pos 0)
      × (pos 0 ≤ℤ remaining_of o db')
unfolding release_reservation
release_reservation-within req o db numbered found fresh whole h =
    let (_, h₁) =
      release_reserved-ok o req db (ap (λ x. release_reserved x req db) (sym found) ∙ h) in
    let r = release_by_key-Reduced o reserved _ _ req db numbered fresh whole h₁ in
    (r.exact, r.negative, r.left)
