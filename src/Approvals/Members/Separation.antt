-- ===== src/Approvals/Members/Separation.antt =====
-- The requester of a document and the deciders of its approval, where duties are separated
-- (apps/api/src/flo/modules/approvals/eligibility.py and delegation.py).
use mathlib.Core.Path.{subst}
use xlr8_flo.Common.{
  ℕ, ◌≡◌, ◌≢◌, refl, ap, ◌∙◌, inl, inr, String, Bool, true, false, not, ◌&&◌, Option, none, some,
  List, [], ◌∷◌, ◌++◌, ◌==◌, ==_iff, any, any-append, arith, Bool-cases, or-false, if-some,
}
use xlr8_flo.Common.Problems.{ok, >>=-eq-ok, ok-injective}
use xlr8_flo.Approvals.Graph.{Approvers, permission}
use xlr8_flo.Approvals.Tables.{Instance, Task, Delegation, Target, Snapshot, Services}
use xlr8_flo.Approvals.Members.{
  separation, has, keep, eligible_approvers, unrepeated, current_members, active, rows_of,
  delegator_of, Members, stands_in_for, with_delegates, escalated, active_rows, effective_members,
  adapter_for,
}

-- What is kept of a list without a member is without it.
keep-without : (p : ℕ → Bool) (x : ℕ) (xs : List ℕ) → has x xs ≡ false → has x (keep p xs) ≡ false
unfolding keep any
keep-without p x [] h = refl
keep-without p x (y ∷ ys) h =
    let (first, rest) = or-false (y == x) _ h in
    elim (Bool-cases (p y)) [
      | inl kept ↦ rw (kept, first) (keep-without p x ys rest)
      | inr dropped ↦ rw (dropped) (keep-without p x ys rest)
    ]

keep-removes : (x : ℕ) (xs : List ℕ) → has x (keep (λ y. not (y == x)) xs) ≡ false
unfolding keep any
keep-removes x [] = refl
keep-removes x (y ∷ ys) = elim (Bool-cases (y == x)) [
  | inl same ↦ rw (same) (keep-removes x ys)
  | inr other ↦ rw (other, other) (keep-removes x ys)
]

has-append :
    (x : ℕ) (xs ys : List ℕ) → has x xs ≡ false → has x ys ≡ false → has x (xs ++ ys) ≡ false
has-append x xs ys h k = any-append (λ y. y == x) xs ys ∙ rw (h) k

pub has-member : (x y : ℕ) (xs : List ℕ) → has x xs ≡ false → has y xs ≡ true → y ≢ x
has-member x y xs h k e = cc (subst (λ z. has z xs ≡ true) e k)

-- Neither a member nor one who stands in for a member is the requester, and no member for whom
-- someone stands in is.
pub record Separate (requester : ℕ) (m : Members) : Type 0 where
  pub members : has requester m.base ≡ false
  pub unable : m.able requester ≡ false
  pub delegators : (user u : ℕ) → stands_in_for m user ≡ some u → has u m.base ≡ true

delegator_of-member :
    (able : ℕ → Bool) (base : List ℕ) (p : Delegation → Bool) (user u : ℕ) (ds : List Delegation)
    → ((d : Delegation) → p d ≡ true → has d.delegator_id base ≡ true)
    → delegator_of able user (rows_of p ds) ≡ some u
    → has u base ≡ true
unfolding delegator_of rows_of
delegator_of-member able base p user u [] active_in h = absurd (cc)
delegator_of-member able base p user u (d ∷ ds) active_in h = elim (Bool-cases (p d)) [
  | inl kept ↦
      elim (if-some (d.delegate_id == user && able d.delegate_id) d.delegator_id _
        (rw (kept) at h)) [
          | inl same ↦ subst (λ x. has x base ≡ true) same (active_in d kept)
          | inr later ↦ delegator_of-member able base p user u ds active_in later
        ]
  | inr dropped ↦ delegator_of-member able base p user u ds active_in (rw (dropped) at h)
]

members_stand :
    (able : ℕ → Bool) (base : List ℕ) (p : Delegation → Bool) (rows ds : List Delegation)
    (user u : ℕ)
    → ds ≡ rows_of p rows
    → ((d : Delegation) → p d ≡ true → has d.delegator_id base ≡ true)
    → delegator_of able user ds ≡ some u
    → has u base ≡ true
members_stand able base p rows ds user u from_rows active_in h =
    delegator_of-member able base p user u rows active_in
      (subst (λ l. delegator_of able user l ≡ some u) from_rows h)

pub delegator_of-unable :
    (able : ℕ → Bool) (user : ℕ) (ds : List Delegation)
    → able user ≡ false
    → delegator_of able user ds ≡ none
unfolding delegator_of
delegator_of-unable able user [] h = refl
delegator_of-unable able user (d ∷ ds) h =
    let passed : (d.delegate_id == user && able d.delegate_id) ≡ false =
      unable_row (d.delegate_id) user able h in
    rw (passed) (delegator_of-unable able user ds h)
  where
    unable_row : (x y : ℕ) (f : ℕ → Bool) → f y ≡ false → (x == y && f x) ≡ false
    unable_row x y f k = elim (Bool-cases (x == y)) [
      | inl same ↦ rw (same) (ap f ((==_iff x y).0 same) ∙ k)
      | inr other ↦ rw (other)
    ]

active-member :
    (now : ℕ) (document_type : String) (base : List ℕ) (d : Delegation)
    → active now document_type base d ≡ true
    → has d.delegator_id base ≡ true
active-member now document_type base d h = ground arith

module _ {D : Type 0} (services : Services D)
    (separated : (target : Target) → separation services target ≡ ok true) where
  eligible_approvers-without :
      (document_type : String) (rule : Approvers) (target : Target) (requester : ℕ)
      {members : List ℕ}
      → eligible_approvers services document_type rule target requester ≡ ok members
      → has requester members ≡ false
  unfolding eligible_approvers
  eligible_approvers-without document_type rule target requester h =
      let (adapter, _, h₁) = >>=-eq-ok (adapter_for services document_type) _ h in
      let h₂ = rw (separated target) at h₁ in
      subst (λ ms. has requester ms ≡ false) (ok-injective h₂) (keep-removes requester _)

  current_members-without :
      (i : Instance) (node_id : String) (allow_repeat : Bool) (rule : Approvers) (s : Snapshot)
      {members : List ℕ}
      → current_members services i node_id allow_repeat rule s ≡ ok members
      → has i.requester_id members ≡ false
  unfolding current_members
  current_members-without i node_id allow_repeat rule s h =
      let (members, eligible, h₁) =
        >>=-eq-ok (eligible_approvers services i.document_type rule s.target i.requester_id) _ h in
      subst (λ ms. has i.requester_id ms ≡ false) (ok-injective h₁)
        (unrepeated_without allow_repeat members
          (eligible_approvers-without i.document_type rule s.target i.requester_id eligible))
    where
      unrepeated_without :
          (b : Bool) (ms : List ℕ)
          → has i.requester_id ms ≡ false
          → has i.requester_id (unrepeated b node_id i.route ms) ≡ false
      unrepeated_without true ms k = k
      unrepeated_without false ms k = keep-without _ i.requester_id ms k

  escalated-without :
      (i : Instance) (t : Task) (s : Snapshot) (rule : Option (ℕ × Approvers)) (at : Option ℕ)
      (base : List ℕ) {members : List ℕ}
      → has i.requester_id base ≡ false
      → escalated services i t s rule at base ≡ ok members
      → has i.requester_id members ≡ false
  escalated-without i t s (some (days, approvers)) (some at) base b h =
      let (extra, current, h₁) =
        >>=-eq-ok (current_members services i t.node_id t.allow_repeat approvers s) _ h in
      subst (λ ms. has i.requester_id ms ≡ false) (ok-injective h₁)
        (has-append i.requester_id base _ b (
          keep-without _ i.requester_id extra
            (current_members-without i t.node_id t.allow_repeat approvers s current)))
  escalated-without i t s none at base b h =
      subst (λ ms. has i.requester_id ms ≡ false) (ok-injective h) b
  escalated-without i t s (some r) none base b h =
      subst (λ ms. has i.requester_id ms ≡ false) (ok-injective h) b

  with_delegates-Separate :
      (now : ℕ) (i : Instance) (t : Task) (s : Snapshot) (p : Delegation → Bool)
      (rows ds : List Delegation) (base : List ℕ) {m : Members}
      → ds ≡ rows_of p rows
      → ((d : Delegation) → p d ≡ true → has d.delegator_id base ≡ true)
      → has i.requester_id base ≡ false
      → with_delegates services now i t s ds base ≡ ok m
      → Separate i.requester_id m
  unfolding with_delegates
  with_delegates-Separate now i t s p rows [] base from_rows member_of b h =
      subst (Separate i.requester_id) (ok-injective h) (record {
        members = b;
        unable = refl;
        delegators = λ user u k. members_stand _ base p rows [] user u from_rows member_of k;
      })
  with_delegates-Separate now i t s p rows (d ∷ ds) base from_rows member_of b h =
      let (able, eligible, h₁) =
        >>=-eq-ok (eligible_approvers services i.document_type permission s.target i.requester_id) _
          h in
      let outside =
        eligible_approvers-without i.document_type permission s.target i.requester_id eligible in
      subst (Separate i.requester_id) (ok-injective h₁) (record {
        members = b;
        unable = rw (outside);
        delegators = λ user u k. members_stand _ base p rows (d ∷ ds) user u from_rows member_of k;
      })

  base-Separate :
      (now : ℕ) (i : Instance) (t : Task) (s : Snapshot) (delegations : List Delegation)
      (base : List ℕ) {m : Members}
      → has i.requester_id base ≡ false
      → with_delegates services now i t s (active_rows now i base delegations) base ≡ ok m
      → Separate i.requester_id m
  unfolding rows_of
  base-Separate now i t s delegations [] b h =
      with_delegates-Separate now i t s (λ d. false) [] [] [] refl (λ d q. cc) b h
  base-Separate now i t s delegations (x ∷ xs) b h =
      with_delegates-Separate now i t s (active now i.document_type (x ∷ xs)) delegations _ (x ∷ xs)
        refl (active-member now i.document_type (x ∷ xs)) b h

  pub effective_members-Separate :
      (now : ℕ) (i : Instance) (t : Task) (s : Snapshot) (delegations : List Delegation)
      {m : Members}
      → effective_members services now i t s delegations ≡ ok m
      → Separate i.requester_id m
  unfolding effective_members
  effective_members-Separate now i t s delegations h =
      let (members, current, h₁) =
        >>=-eq-ok (current_members services i t.node_id t.allow_repeat t.approver_rule s) _ h in
      let (base, extended, h₂) =
        >>=-eq-ok (escalated services i t s t.escalation_rule t.escalated_at members) _ h₁ in
      let outside =
        escalated-without i t s t.escalation_rule t.escalated_at members
          (current_members-without i t.node_id t.allow_repeat t.approver_rule s current) extended in
      base-Separate now i t s delegations base outside h₂
