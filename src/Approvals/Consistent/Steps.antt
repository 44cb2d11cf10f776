-- ===== src/Approvals/Consistent/Steps.antt =====
-- How a task is closed, an approval ended and a step opened, with the agreement of instances and
-- tasks (apps/api/src/flo/modules/approvals/engine.py and decisions.py).
use mathlib.Core.Path.{subst}
use xlr8_flo.Common.{
  true-ne-false, ℕ, ◌≡◌, ◌≢◌, refl, sym, ap, ◌∙◌, inl, inr, true, false, some, List, [], ◌∷◌, ◌++◌,
  map, ◌==◌, ==_iff, Bool-cases, some-injective, not-true,
}
use xlr8_flo.Common.Membership.{In, In-map, In-image, In-snoc, In-left, In-last, unique_snoc}
use xlr8_flo.Approvals.Tables.{
  Status, Instance, is_running, Task, is_open, overwrite, closed_if, cancelled_if,
}
use xlr8_flo.Approvals.Consistent.{
  Placed, BothRunning, Ran, SameNode, Keys, Consistent, Almost, NoneOpen,
}
use xlr8_flo.Approvals.Consistent.Updates.{
  unique-map, overwrite_id, overwrite_document, overwrite_other, overwrite_self, closed_if-Closes,
  cancelled_if-Closes, map-Almost,
}

closed_if_other : (now id : ℕ) (o : Status) (u : Task) → u.id ≢ id → closed_if now id o u ≡ u
closed_if_other now id o u h = elim (Bool-cases (u.id == id)) [
  | inl same ↦ absurd (h ((==_iff u.id id).0 same))
  | inr other ↦ rw (other)
]

closed_if_self : (now : ℕ) (o : Status) (u : Task) → is_open (closed_if now u.id o u).status ≡ false
closed_if_self now o u = let same : (u.id == u.id) ≡ true = (==_iff u.id u.id).1 refl in rw (same)

cancelled_if_other : (now k : ℕ) (u : Task) → u.instance_id ≢ k → cancelled_if now k u ≡ u
cancelled_if_other now k u h = elim (Bool-cases (u.instance_id == k)) [
  | inl same ↦ absurd (h ((==_iff u.instance_id k).0 same))
  | inr other ↦ rw (other)
]

cancelled_if_self :
    (now k : ℕ) (u : Task) → u.instance_id ≡ k → is_open (cancelled_if now k u).status ≡ false
cancelled_if_self now k u h =
    let same : (u.instance_id == k) ≡ true = (==_iff u.instance_id k).1 h in
    elim (Bool-cases (is_open u.status)) [
      | inl open_task ↦ rw (same, open_task)
      | inr shut ↦ rw (same, shut) shut
    ]

module _ (is : List Instance) (ts : List Task) (now : ℕ) where
  -- A task is closed: the other instances are as they were.
  pub close-Almost :
      (t : Task) (o : Status)
      → In t ts
      → Almost t.instance_id is ts
      → Almost t.instance_id is (map (closed_if now t.id o) ts)
  close-Almost t o found a =
      map-Almost t.instance_id (closed_if now t.id o) is ts (closed_if-Closes now t.id o)
        (λ u h n.
          closed_if_other now t.id o u
            (λ e. n (ap (λ (x : Task). x.instance_id) (a.keys.task_ids u t h found e))))
        a

  -- The open task of an instance was its only one.
  pub close-NoneOpen :
      (t : Task) (o : Status)
      → In t ts
      → is_open t.status ≡ true
      → Consistent is ts
      → NoneOpen t.instance_id (map (closed_if now t.id o) ts)
  close-NoneOpen t o found t_open c u h same = not-true _ (λ u_open.
      let (v, v_in, u_v) = In-map (closed_if now t.id o) u ts h in
      let g = closed_if-Closes now t.id o in
      let kept = g.opens v (ap (λ (x : Task). is_open x.status) (sym u_v) ∙ u_open) in
      let u_is : u ≡ v = u_v ∙ kept in
      let v_open : is_open v.status ≡ true =
        ap (λ (x : Task). is_open x.status) (sym u_is) ∙ u_open in
      let v_k : v.instance_id ≡ t.instance_id =
        ap (λ (x : Task). x.instance_id) (sym u_is) ∙ same in
      let (i, i_in, pi) = c.placed v v_in v_open in
      let (j, j_in, pj) = c.placed t found t_open in
      let ij : i ≡ j = c.keys.instance_ids i j i_in j_in (sym pi.0 ∙ v_k ∙ pj.0) in
      let node : v.node_id ≡ t.node_id =
        some-injective (sym pi.2 ∙ ap (λ (x : Instance). x.current_node_id) ij ∙ pj.2) in
      let vt : v ≡ t = c.keys.nodes v t v_in found (v_k, node) in
      true-ne-false (
        sym (
          subst (λ x. is_open (closed_if now t.id o x).status ≡ true) vt
            (ap (λ (x : Task). is_open x.status) (sym u_v) ∙ u_open))
        ∙ closed_if_self now o t))

  pub cancel-Almost : (k : ℕ) → Almost k is ts → Almost k is (map (cancelled_if now k) ts)
  cancel-Almost k a =
      map-Almost k (cancelled_if now k) is ts (cancelled_if-Closes now k)
        (λ u h n. cancelled_if_other now k u n) a

  pub cancel-NoneOpen : (k : ℕ) → NoneOpen k (map (cancelled_if now k) ts)
  cancel-NoneOpen k u h same =
      let (v, v_in, u_v) = In-map (cancelled_if now k) u ts h in
      let v_k : v.instance_id ≡ k =
        sym ((cancelled_if-Closes now k).instances v)
        ∙ ap (λ (x : Task). x.instance_id) (sym u_v)
        ∙ same in
      ap (λ (x : Task). is_open x.status) u_v ∙ cancelled_if_self now k v v_k

module _ (i : Instance) (is : List Instance) (ts : List Task) (a : Almost i.id is ts)
    (shut : NoneOpen i.id ts) where
  ran :
      (is_running i.status ≡ true → Ran i is)
      → (r : Instance) → In r is
      → is_running (overwrite i r).status ≡ true
      → is_running r.status ≡ true
  ran was r found runs = elim (Bool-cases (r.id == i.id)) [
    | inl same ↦
        let mine = (==_iff r.id i.id).0 same in
        was (ap is_running (sym (overwrite_self i r mine).0) ∙ runs) r found mine
    | inr other ↦
        ap (λ (x : Instance). is_running x.status)
          (sym (overwrite_other i r (λ e. true-ne-false (sym ((==_iff r.id i.id).1 e) ∙ other))))
        ∙ runs
  ]

  saved_keys :
      (ts' : List Task)
      → ((t u : Task) → In t ts' → In u ts' → t.id ≡ u.id → t ≡ u)
      → ((t u : Task) → In t ts' → In u ts' → SameNode t u → t ≡ u)
      → (is_running i.status ≡ true → Ran i is)
      → Keys (map (overwrite i) is) ts'
  saved_keys ts' ids nodes was = record {
    instance_ids =
        unique-map (overwrite i) (λ x y. x.id ≡ y.id) is
          (λ x y _ _ h. sym (overwrite_id i x) ∙ h ∙ overwrite_id i y) a.keys.instance_ids;
    running =
        unique-map (overwrite i) BothRunning is
          (λ x y hx hy r.
            let dx = overwrite_document i x in
            let dy = overwrite_document i y in
            (ran was x hx r.0, ran was y hy r.1, sym dx.0 ∙ r.2 ∙ dy.0, sym dx.1 ∙ r.3 ∙ dy.1))
          a.keys.running;
    task_ids = ids;
    nodes = nodes;
  }

  -- Another instance's open task stays where it is.
  still-Placed :
      (t : Task)
      → In t ts
      → is_open t.status ≡ true
      → (j : Instance) × In j (map (overwrite i) is) × Placed t j
  still-Placed t h o =
      let n : t.instance_id ≢ i.id = λ e. true-ne-false (sym o ∙ shut t h e) in
      let (j, found, p) = a.placed t h o n in
      let kept : overwrite i j ≡ j = overwrite_other i j (λ e. n (p.0 ∙ e)) in
      (j, subst (λ x. In x (map (overwrite i) is)) kept (In-image (overwrite i) j is found), p)

  still_staffed :
      (j : Instance)
      → In j (map (overwrite i) is)
      → is_running j.status ≡ true
      → j.id ≢ i.id
      → (t : Task) × In t ts × (is_open t.status ≡ true) × Placed t j
  still_staffed j h r n =
      let (k, found, same) = In-map (overwrite i) j is h in
      let other : k.id ≢ i.id = λ e. n (ap (λ (x : Instance). x.id) same ∙ overwrite_id i k ∙ e) in
      let here : j ≡ k = same ∙ overwrite_other i k other in
      let (t, t_in, o, p) =
        a.staffed k found (ap (λ (x : Instance). is_running x.status) (sym here) ∙ r) other in
      (t, t_in, o, subst (Placed t) (sym here) p)

  -- An instance that has no open task is ended.
  pub end-Consistent : is_running i.status ≡ false → Consistent (map (overwrite i) is) ts
  end-Consistent over = record {
    keys =
        saved_keys ts a.keys.task_ids a.keys.nodes
          (λ runs. absurd (true-ne-false (sym runs ∙ over)));
    placed = still-Placed;
    staffed = λ j h r. still_staffed j h r (λ e.
        let (k, found, same) = In-map (overwrite i) j is h in
        let self =
          overwrite_self i k
            (sym (overwrite_id i k) ∙ ap (λ (x : Instance). x.id) (sym same) ∙ e) in
        true-ne-false
          (sym r ∙ ap (λ (x : Instance). is_running x.status) same ∙ ap is_running self.0 ∙ over));
  }

  -- A running instance gets its one open task.
  pub open-Consistent :
      (t : Task)
      → Ran i is
      → is_running i.status ≡ true
      → is_open t.status ≡ true
      → t.instance_id ≡ i.id
      → i.current_node_id ≡ some t.node_id
      → ((u : Task) → In u ts → u.id ≢ t.id)
      → ((u : Task) → In u ts → SameNode u t → ⊥)
      → Consistent (map (overwrite i) is) (ts ++ t ∷ [])
  open-Consistent t was runs opens own node fresh alone = record {
    keys =
        saved_keys (ts ++ t ∷ [])
          (unique_snoc (λ (x y : Task). x.id ≡ y.id) (λ x y h. sym h) t ts a.keys.task_ids fresh)
          (unique_snoc SameNode (λ x y r. (sym r.0, sym r.1)) t ts a.keys.nodes alone) (λ _. was);
    placed = λ u h o. elim (In-snoc u t ts h) [
      | inl old ↦ still-Placed u old o
      | inr new ↦
          let (r, r_in, same) = a.present in
          let self = overwrite_self i r same in
          (
            overwrite i r,
            In-image (overwrite i) r is r_in,
            (
              ap (λ (x : Task). x.instance_id) new ∙ own ∙ sym same ∙ sym (overwrite_id i r),
              ap is_running self.0 ∙ runs,
              self.1 ∙ node ∙ ap (λ (x : Task). some x.node_id) (sym new),
            ),
          )
    ];
    staffed = λ j h r. elim (Bool-cases (j.id == i.id)) [
      | inl mine ↦
          let (k, found, same) = In-map (overwrite i) j is h in
          let j_is : j.id ≡ i.id = (==_iff j.id i.id).0 mine in
          let self =
            overwrite_self i k
              (sym (overwrite_id i k) ∙ ap (λ (x : Instance). x.id) (sym same) ∙ j_is) in
          (
            t,
            In-last t ts,
            opens,
            (own ∙ sym j_is, r, ap (λ (x : Instance). x.current_node_id) same ∙ self.1 ∙ node),
          )
      | inr other ↦
          let (u, u_in, o, p) =
            still_staffed j h r (λ e. true-ne-false (sym ((==_iff j.id i.id).1 e) ∙ other)) in
          (u, In-left u ts (t ∷ []) u_in, o, p)
    ];
  }
