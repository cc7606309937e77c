-- ===== src/Delivery/Sound/OnPolicies.antt =====
-- The operations on policies keep them served.
use wispbox.Base.{
  refl, ℕ, true, false, Option, none, some, ok, ◌≡◌, inl, inr, arith, In, ◌==◌, ◌&&◌, Bool-cases,
  not, In-append_split, if◌then◌else◌,
}
use wispbox.Base.Rows.{
  exists, exists-append, exists-update, exists-delete, In-delete, In-update, find-exists,
}
use wispbox.Db.Models.{
  OutboundRelay, OutboundPolicy, PolicyScope, DeliveryMode, domain, global, relay, inherit,
}
use wispbox.Db.Tables.{Store}
use wispbox.Db.Relays.{get_relay}
use wispbox.Db.Policies.{put_policy, delete_policy, in_scope, revised, added, same_scope, is_global}
use wispbox.Delivery.Engine.{pick_relay, set_policy, is_relay, is_inherit}
use wispbox.Base.Outcome.{Result-cases}
use wispbox.Delivery.Engine.Choice.{set_policy-Put, stored_relay, set_policy_refused}
use wispbox.Delivery.Sound.{has_relay, IsServed, IsSound}

pub forget-IsSound : (id : ℕ) (s : Store) → IsSound s → IsSound (delete_policy id s).0
unfolding delete_policy
forget-IsSound id s h =
    elim (Bool-cases (exists (λ p. (p.id == id) && not (is_global p)) s.policies.rows)) [
      | inl e ↦ rw e (record {
        served = λ p m.
            h.served p
              ((In-delete (λ p. (p.id == id) && not (is_global p)) s.policies.rows p).0 m).0;
        default_row =
            rw
              (exists-delete (in_scope global 0) (λ p. (p.id == id) && not (is_global p))
                s.policies.rows (λ x q. ground arith))
              h.default_row;
      })
      | inr e ↦ rw e h
    ]

pub same_scope_trans :
    (a b c : PolicyScope) → same_scope a b ≡ true → same_scope a c ≡ same_scope b c
same_scope_trans a b c h = ground arith

module _ (now : ℕ) (scope : PolicyScope) (id : ℕ) (mode : DeliveryMode) (relay_id : Option ℕ)
    (s : Store) (a : is_relay mode ≡ true → has_relay relay_id s.relays.rows ≡ true)
    (b : same_scope scope global ≡ true → is_inherit mode ≡ false) (h : IsSound s) where
  pub revised-IsServed :
      (q p : OutboundPolicy)
      → In q s.policies.rows
      → p ≡ (if in_scope scope id q then revised now mode relay_id q else q)
      → IsServed s.relays.rows p
  revised-IsServed q p m e = elim (Bool-cases (in_scope scope id q)) [
    | inl k ↦
        rw (e, k)
          (record {
            on = refl;
            relay_stored = a;
            scope_ok = λ g. b (ground (arith, same_scope_trans q.scope_type scope global));
          })
    | inr k ↦ rw (e, k) (h.served q m)
  ]

  pub added-IsServed : IsServed s.relays.rows (added now s.policies.next scope id mode relay_id)
  added-IsServed = record { on = refl; relay_stored = a; scope_ok = b }

  pub put-IsSound : IsSound (put_policy now scope id mode relay_id s)
  unfolding put_policy
  put-IsSound = elim (Bool-cases (exists (in_scope scope id) s.policies.rows)) [
    | inl e ↦ rw e (record {
      served = λ p m.
          let (q, mq, k) =
            In-update (in_scope scope id) (revised now mode relay_id) s.policies.rows p m in
          revised-IsServed q p mq k;
      default_row =
          rw
            (exists-update (in_scope global 0) (in_scope scope id) (revised now mode relay_id)
              s.policies.rows (λ x _. refl))
            h.default_row;
    })
    | inr e ↦ rw e (record {
      served = λ p m. elim (In-append_split p s.policies.rows _ m) [
        | inl old ↦ h.served p old
        | inr (inl k) ↦ rw k added-IsServed
        | inr (inr n) ↦ absurd n
      ];
      default_row = rw exists-append (rw h.default_row refl);
    })
  ]

-- An accepted policy names a stored relay if its mode is `relay`; the global one does not inherit.
pub chosen_stored :
    (now : ℕ) (scope : PolicyScope) (id : ℕ) (mode : DeliveryMode) (relay_id : Option ℕ) (s : Store)
    {p : OutboundPolicy}
    → (set_policy now scope id mode relay_id s).1 ≡ ok p
    → is_relay mode ≡ true
    → has_relay (stored_relay mode relay_id) s.relays.rows ≡ true
unfolding set_policy pick_relay get_relay
chosen_stored now scope id relay none s h k = cc
chosen_stored now scope id relay (some r) s h k =
    elim (Bool-cases (exists (λ x. x.id == r) s.relays.rows)) [
      | inl e ↦ e
      | inr e ↦ ground (arith, find-exists (λ (x : OutboundRelay). x.id == r) s.relays.rows e)
    ]
chosen_stored now scope id _ relay_id s h k = cc

pub chosen_scope :
    (now : ℕ) (scope : PolicyScope) (id : ℕ) (mode : DeliveryMode) (relay_id : Option ℕ) (s : Store)
    {p : OutboundPolicy}
    → (set_policy now scope id mode relay_id s).1 ≡ ok p
    → same_scope scope global ≡ true
    → is_inherit mode ≡ false
unfolding set_policy
chosen_scope now global id inherit relay_id s h k = cc
chosen_scope now domain id mode relay_id s h k = cc
chosen_scope now PolicyScope.mailbox id mode relay_id s h k = cc
chosen_scope now global id _ relay_id s h k = refl

pub choose-IsSound :
    (now : ℕ) (scope : PolicyScope) (id : ℕ) (mode : DeliveryMode) (relay_id : Option ℕ) (s : Store)
    → IsSound s
    → IsSound (set_policy now scope id mode relay_id s).0
choose-IsSound now scope id mode relay_id s h =
    elim (Result-cases (set_policy now scope id mode relay_id s).1) [
      | inl (p, e) ↦ rw (set_policy-Put now scope id mode relay_id s e).put (
          put-IsSound now scope id mode (stored_relay mode relay_id) s
            (chosen_stored now scope id mode relay_id s e)
            (chosen_scope now scope id mode relay_id s e) h)
      | inr (e, k) ↦ rw (set_policy_refused now scope id mode relay_id s k) h
    ]
