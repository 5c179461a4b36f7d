-- ===== src/Subs/Refresh/Safety.antt =====
-- subs/service.py: which node a refresh may apply, and when it deletes the active one.
use v2pi.Base.{
  ℕ, ◌≡◌, ◌⊎◌, refl, sym, ap, ◌∙◌, Bool, true, false, id_eq, id_eq_iff, Bool-cases, inl, inr,
  Option, none, some, eq_of_some, if◌then◌else◌,
}
use v2pi.Settings.{flag}
use v2pi.Node.{Node}
use v2pi.Health.Failover.{int_setting}
use v2pi.Health.Liveness.{get_node}
use v2pi.Subs.Refresh.{
  Store, Env, Restarted, raised, idle, refused, applied, row_of, kept_between, auto_switch_allowed,
  allowed_rows, restart_active, in_place, by_switch, switch_or_next, still_there, drop_old, reapply,
}

allowed_true :
    (f : Option Bool) (o m : Option Node)
    → (elim f [ none ↦ none | some false ↦ some false | some true ↦ some (allowed_rows o m) ])
      ≡ some true
    → (f ≡ some true) × (allowed_rows o m ≡ true)
allowed_true none o m h = cc h
allowed_true (some false) o m h = cc h
allowed_true (some true) o m h = (refl, eq_of_some h)

rows_kept :
    (o : Option Node) (n : Node) → allowed_rows o (some n) ≡ true → kept_between o (some n) ≡ true
unfolding allowed_rows kept_between
rows_kept none n h = refl
rows_kept (some old) n h = h

module _ (active_id replacement : Option ℕ) (changed : Bool) (old_active : Option Node)
    (st : Store) where
  -- The single replacement of an active node that is gone, which the operator's setting allows, and
  -- which protects no less than the row that it replaces, if that is there.
  pub record IsSwitch (n : Node) : Type 0 where
    pub id : ℕ
    pub offered : replacement ≡ some id
    pub row : get_node id st.nodes.rows ≡ some n
    pub allowed : flag true st.subs_auto_switch ≡ some true
    pub kept : kept_between (row_of active_id st) (some n) ≡ true

  -- The active node's own row, changed by the feed, with no less protection than before the merge.
  pub record IsUpdate (n : Node) : Type 0 where
    pub own : row_of active_id st ≡ some n
    pub by_feed : changed ≡ true
    pub kept : kept_between old_active (some n) ≡ true

  -- What an apply rests on.
  abbrev pub Grounds : Restarted × Store → Type 0
  Grounds (applied n b, after) = IsSwitch n ⊎ IsUpdate n
  Grounds (raised, after) = Unit
  Grounds (idle, after) = Unit
  Grounds (refused, after) = Unit

  module _ (env : Env) where
    in_place-Grounds :
        (b : Bool) (current : Option Node)
        → changed ≡ b
        → row_of active_id st ≡ current
        → Grounds (in_place env b old_active current st)
    unfolding in_place reapply
    in_place-Grounds false current e f = tt
    in_place-Grounds true none e f = tt
    in_place-Grounds true (some node) e f =
        elim (Bool-cases (kept_between old_active (some node))) [
          | inl k ↦ rw (k, in_place) (inr (record { own = f; by_feed = e; kept = k }))
          | inr k ↦ rw (k, in_place) tt
        ]

    by_switch-Grounds :
        (o : Option Node) (next : Restarted × Store)
        → ((n : Node) → o ≡ some n → IsSwitch n)
        → Grounds next
        → Grounds (by_switch env active_id o next st)
    unfolding by_switch drop_old
    by_switch-Grounds none next h g = g
    by_switch-Grounds (some node) next h g =
        dropped active_id (env.apply_node node st).0 (env.apply_node node st).1
      where
        dropped : (a : Option ℕ) (b : Bool) (s : Store) → Grounds (drop_old a node (b, s))
        dropped none b s = inl (h node refl)
        dropped (some a) true s = inl (h node refl)
        dropped (some a) false s = inl (h node refl)

    allowed-kept :
        (r : ℕ) (n : Node)
        → auto_switch_allowed active_id r st ≡ some true
        → get_node r st.nodes.rows ≡ some n
        → (flag true st.subs_auto_switch ≡ some true)
          × (kept_between (row_of active_id st) (some n) ≡ true)
    unfolding auto_switch_allowed
    allowed-kept r n a e =
        let (on, fit) =
          allowed_true (flag true st.subs_auto_switch) (row_of active_id st)
            (get_node r st.nodes.rows) a in
        (
          on,
          rows_kept (row_of active_id st) n (ap (allowed_rows (row_of active_id st)) (sym e) ∙ fit),
        )

    switch_or_next-Grounds :
        (r : ℕ) (o : Option Bool) (next : Restarted × Store)
        → replacement ≡ some r
        → auto_switch_allowed active_id r st ≡ o
        → Grounds next
        → Grounds (switch_or_next env active_id r o next st)
    unfolding switch_or_next
    switch_or_next-Grounds r none next q a g = tt
    switch_or_next-Grounds r (some false) next q a g = g
    switch_or_next-Grounds r (some true) next q a g =
        by_switch-Grounds (get_node r st.nodes.rows) next
          (λ n e.
            let (on, fit) = allowed-kept r n a e in
            record { id = r; offered = q; row = e; allowed = on; kept = fit })
          g

    still_there-Grounds :
        (o : Option ℕ)
        → replacement ≡ o
        → Grounds (still_there env active_id o changed old_active st)
    unfolding still_there
    still_there-Grounds none q = in_place-Grounds changed (row_of active_id st) refl refl
    still_there-Grounds (some r) q =
        switch_or_next-Grounds r (auto_switch_allowed active_id r st) _ q refl
          (in_place-Grounds changed (row_of active_id st) refl refl)

    abbrev at_setting : Option (Option ℕ) → Restarted × Store
    at_setting o = elim o [
      | none ↦ (raised, st)
      | some current ↦
          if id_eq current active_id
          then still_there env active_id replacement changed old_active st
          else (idle, st)
    ]

    -- A refresh re-applies a node only while the node that was active before the merge still is; it
    -- is then the single replacement that was offered, if the operator allows it, or the active row
    -- as the feed changed it, and protects no less than the row of the active node, where there is
    -- one, did.
    pub restart_active_lem :
        ((n : Node) (b : Bool)
          → (restart_active env active_id replacement changed old_active st).0 ≡ applied n b
          → int_setting st.active_node_id ≡ some active_id)
        × Grounds (restart_active env active_id replacement changed old_active st)
    unfolding restart_active
    restart_active_lem = (
      λ n b h. read (int_setting st.active_node_id) n b h,
      grounds (int_setting st.active_node_id),
    )
      where
        read :
            (o : Option (Option ℕ)) (n : Node) (b : Bool)
            → (at_setting o).0 ≡ applied n b
            → o ≡ some active_id
        read none n b h = cc h
        read (some c) n b h = elim (Bool-cases (id_eq c active_id)) [
          | inl e ↦ ap some ((id_eq_iff c active_id).0 e)
          | inr e ↦ cc (rw (e, at_setting) at h)
        ]

        grounds : (o : Option (Option ℕ)) → Grounds (at_setting o)
        grounds none = tt
        grounds (some c) = elim (Bool-cases (id_eq c active_id)) [
          | inl e ↦ rw e (still_there-Grounds replacement refl)
          | inr e ↦ rw e tt
        ]
