-- ===== src/Db/Policies/Lookup.antt =====
-- What a lookup finds after a policy was put.
use wispbox.Base.{ℕ, true, false, Option, ◌≡◌, refl, inl, inr, arith, Bool-cases, ok}
use wispbox.Base.Rows.{
  exists, find-update, find-append, find-some, find-exists, find-In, find-update_apart,
  find-append_skip,
}
use wispbox.Db.Models.{OutboundPolicy, PolicyScope, DeliveryMode, global, domain}
use wispbox.Db.Tables.{Store}
use wispbox.Db.Policies.{
  in_scope, put_policy, get_policy_for_scope, scan_policy, same_scope, revised, added,
}

same_scope_refl : (c : PolicyScope) → same_scope c c ≡ true
same_scope_refl global = refl
same_scope_refl domain = refl
same_scope_refl PolicyScope.mailbox = refl

module _ (now : ℕ) (scope : PolicyScope) (id : ℕ) (mode : DeliveryMode) (relay_id : Option ℕ)
    (s : Store) where
  abbrev after : Store
  after = put_policy now scope id mode relay_id s

  pub record Holds (p : OutboundPolicy) : Type 0 where
    pub mode_is : p.mode ≡ mode
    pub relay_is : p.relay_id ≡ relay_id
    pub on : p.enabled ≡ true

  -- The scope that was put has the mode and the relay that were given, and is in force.
  pub put_policy_same :
      (p : OutboundPolicy) × (get_policy_for_scope scope id after ≡ ok p) × Holds p
  unfolding put_policy get_policy_for_scope scan_policy
  put_policy_same = elim (Bool-cases (exists (in_scope scope id) s.policies.rows)) [
    | inl e ↦
        let (x, q) = find-some (in_scope scope id) s.policies.rows e in
        let hx : in_scope scope id x ≡ true = (find-In (in_scope scope id) s.policies.rows q).1 in
        (
          revised now mode relay_id x,
          rw
              (
                e,
                find-update (in_scope scope id) (in_scope scope id) (revised now mode relay_id)
                    s.policies.rows (λ y _. refl),
                q,
                hx,
              )
              refl,
          record { mode_is = refl; relay_is = refl; on = refl },
        )
    | inr e ↦ (
      added now s.policies.next scope id mode relay_id,
      rw
          (
            e,
            find-append (in_scope scope id) s.policies.rows,
            find-exists (in_scope scope id) s.policies.rows e,
            same_scope_refl scope,
          )
          (ground arith),
      record { mode_is = refl; relay_is = refl; on = refl },
    )
  ]

  pub put_policy_other :
      (other : PolicyScope) (j : ℕ)
      → ((x : OutboundPolicy) → in_scope other j x ≡ true → in_scope scope id x ≡ false)
      → get_policy_for_scope other j after ≡ get_policy_for_scope other j s
  unfolding put_policy get_policy_for_scope
  put_policy_other other j apart = elim (Bool-cases (exists (in_scope scope id) s.policies.rows)) [
    | inl e ↦ rw (
      e,
      find-update_apart (in_scope other j) (in_scope scope id) (revised now mode relay_id)
          s.policies.rows (λ x _. refl) apart,
    )
    | inr e ↦ rw (e, find-append_skip (in_scope other j) s.policies.rows row skipped)
  ]
    where
      row : OutboundPolicy
      row = added now s.policies.next scope id mode relay_id

      skipped : in_scope other j row ≡ false
      skipped = ground (arith, apart row, same_scope_refl scope)
