-- ===== src/Approvals/Consistent/Updates.antt =====
-- The updates of the tables of instances and tasks (apps/api/src/flo/modules/approvals/engine.py and
-- decisions.py) under the agreement of both.
use mathlib.Core.Path.{subst}
use xlr8_flo.Common.{
  true-ne-false, ℕ, ◌≡◌, ◌≢◌, sym, ap, ◌∙◌, inl, inr, true, ◌&&◌, List, map, ◌==◌, ==_iff,
  Bool-cases,
}
use xlr8_flo.Common.Membership.{In, In-map, In-image}
use xlr8_flo.Approvals.Tables.{Status, Instance, Task, is_open, overwrite, closed_if, cancelled_if}
use xlr8_flo.Approvals.Consistent.{SameNode, Almost}

-- An update that keeps what two rows have in common keeps that only equal rows have it.
pub unique-map :
    {A : Type 0} (f : A → A) (R : A → A → Type 0) (xs : List A)
    → ((x y : A) → In x xs → In y xs → R (f x) (f y) → R x y)
    → ((x y : A) → In x xs → In y xs → R x y → x ≡ y)
    → (x y : A) → In x (map f xs)
    → In y (map f xs)
    → R x y
    → x ≡ y
unique-map f R xs keeps unique x y hx hy r =
    let (x₀, found_x, same_x) = In-map f x xs hx in
    let (y₀, found_y, same_y) = In-map f y xs hy in
    let r₀ = subst (λ z. R z (f y₀)) same_x (subst (λ z. R x z) same_y r) in
    same_x ∙ ap f (unique x₀ y₀ found_x found_y (keeps x₀ y₀ found_x found_y r₀)) ∙ sym same_y

module _ (i : Instance) where
  pub overwrite_id : (r : Instance) → (overwrite i r).id ≡ r.id
  overwrite_id r = elim (Bool-cases (r.id == i.id)) [
    | inl same ↦ rw (same)
    | inr other ↦ rw (other)
  ]

  pub overwrite_document :
      (r : Instance)
      → ((overwrite i r).document_type ≡ r.document_type)
        × ((overwrite i r).document_id ≡ r.document_id)
  overwrite_document r = elim (Bool-cases (r.id == i.id)) [
    | inl same ↦ (rw (same), rw (same))
    | inr other ↦ (rw (other), rw (other))
  ]

  pub overwrite_other : (r : Instance) → r.id ≢ i.id → overwrite i r ≡ r
  overwrite_other r h = elim (Bool-cases (r.id == i.id)) [
    | inl same ↦ absurd (h ((==_iff r.id i.id).0 same))
    | inr other ↦ rw (other)
  ]

  pub overwrite_self :
      (r : Instance)
      → r.id ≡ i.id
      → ((overwrite i r).status ≡ i.status) × ((overwrite i r).current_node_id ≡ i.current_node_id)
  overwrite_self r h =
      let same : (r.id == i.id) ≡ true = (==_iff r.id i.id).1 h in (rw (same), rw (same))

-- An update of tasks that keeps their keys, after which an open task is one that it left alone.
pub record Closes (g : Task → Task) : Type 0 where
  pub ids : (t : Task) → (g t).id ≡ t.id
  pub instances : (t : Task) → (g t).instance_id ≡ t.instance_id
  pub nodes : (t : Task) → (g t).node_id ≡ t.node_id
  pub opens : (t : Task) → is_open (g t).status ≡ true → g t ≡ t

pub closed_if-Closes : (now id : ℕ) (o : Status) → Closes (closed_if now id o)
closed_if-Closes now id o = record {
  ids = λ t. elim (Bool-cases (t.id == id)) [ inl h ↦ rw (h) | inr h ↦ rw (h) ];
  instances = λ t. elim (Bool-cases (t.id == id)) [ inl h ↦ rw (h) | inr h ↦ rw (h) ];
  nodes = λ t. elim (Bool-cases (t.id == id)) [ inl h ↦ rw (h) | inr h ↦ rw (h) ];
  opens = λ t o. elim (Bool-cases (t.id == id)) [
    | inl h ↦ absurd (true-ne-false (sym (rw (h) at o)))
    | inr h ↦ rw (h)
  ];
}

pub cancelled_if-Closes : (now k : ℕ) → Closes (cancelled_if now k)
cancelled_if-Closes now k = record {
  ids = λ t. elim (Bool-cases (t.instance_id == k && is_open t.status)) [
    | inl h ↦ rw (h)
    | inr h ↦ rw (h)
  ];
  instances = λ t. elim (Bool-cases (t.instance_id == k && is_open t.status)) [
    | inl h ↦ rw (h)
    | inr h ↦ rw (h)
  ];
  nodes = λ t. elim (Bool-cases (t.instance_id == k && is_open t.status)) [
    | inl h ↦ rw (h)
    | inr h ↦ rw (h)
  ];
  opens = λ t o. elim (Bool-cases (t.instance_id == k && is_open t.status)) [
    | inl h ↦ absurd (true-ne-false (sym (rw (h) at o)))
    | inr h ↦ rw (h)
  ];
}

pub map-Almost :
    (k : ℕ) (g : Task → Task) (is : List Instance) (ts : List Task)
    → Closes g
    → ((t : Task) → In t ts → t.instance_id ≢ k → g t ≡ t)
    → Almost k is ts
    → Almost k is (map g ts)
map-Almost k g is ts c others a = record {
  keys = record {
    instance_ids = a.keys.instance_ids;
    running = a.keys.running;
    task_ids =
        unique-map g (λ t u. t.id ≡ u.id) ts (λ t u _ _ h. sym (c.ids t) ∙ h ∙ c.ids u)
          a.keys.task_ids;
    nodes =
        unique-map g SameNode ts
          (λ t u _ _ h.
            (sym (c.instances t) ∙ h.0 ∙ c.instances u, sym (c.nodes t) ∙ h.1 ∙ c.nodes u))
          a.keys.nodes;
  };
  present = a.present;
  placed = λ t h o n.
      let (u, found, same) = In-map g t ts h in
      let here : t ≡ u = same ∙ c.opens u (ap (λ (x : Task). is_open x.status) (sym same) ∙ o) in
      a.placed t (subst (λ x. In x ts) (sym here) found) o n;
  staffed = λ i h r n.
      let (t, found, o, p) = a.staffed i h r n in
      let kept : g t ≡ t = others t found (λ e. n (sym p.0 ∙ e)) in
      (t, subst (λ x. In x (map g ts)) kept (In-image g t ts found), o, p);
}
