-- ===== src/Delivery/Engine/Choice.antt =====
-- A policy that was set decides its own domain, and no other.
use wispbox.Base.{refl, ℕ, true, Option, none, some, Result, ok, err, ◌≡◌, ◌≢◌, arith, ◌∙◌}
use wispbox.Db.Errors.{Error, invalid_mode}
use wispbox.Db.Models.{
  OutboundPolicy, PolicyScope, DeliveryMode, domain, global, relay, direct, inherit, unknown,
}
use wispbox.Db.Tables.{Store}
use wispbox.Db.Relays.{get_relay}
use wispbox.Db.Policies.{get_policy_for_scope, put_policy}
use wispbox.Db.Policies.Lookup.{put_policy_same, put_policy_other}
use wispbox.Delivery.Engine.{
  Resolved, pick_relay, materialize, resolve_global, resolve_for_domain, set_policy, from_domain,
  with_relay, resolve_domain_policy, get_relay, resolve_global_policy, Source,
}

-- What an administrator asked for.
abbrev pub asked_for : DeliveryMode → Option ℕ → Store → Result Error Resolved
asked_for direct relay_id s = ok (record { mode = direct; relay = none; source = from_domain })
asked_for relay relay_id s = with_relay relay from_domain (pick_relay relay_id s)
asked_for inherit relay_id s = resolve_global s
asked_for (unknown _) relay_id s = err invalid_mode

-- One of the three modes by name.
abbrev pub IsKnown : DeliveryMode → Type 0
IsKnown (unknown _) = ⊥
IsKnown _ = Unit

module _ (now : ℕ) (scope : PolicyScope) (id : ℕ) (mode : DeliveryMode) (relay_id : Option ℕ)
    (s : Store) where
  relays-put_policy : (put_policy now scope id mode relay_id s).relays ≡ s.relays
  unfolding put_policy
  relays-put_policy = ground arith

  pick_relay-put_policy :
      (r : Option ℕ) → pick_relay r (put_policy now scope id mode relay_id s) ≡ pick_relay r s
  unfolding pick_relay get_relay
  pick_relay-put_policy none = refl
  pick_relay-put_policy (some r) = rw relays-put_policy

module _ (now id : ℕ) (mode : DeliveryMode) (relay_id : Option ℕ) (s : Store) where
  abbrev after_put : Store
  after_put = put_policy now domain id mode relay_id s

  materialize-put_policy :
      (p : OutboundPolicy) (source : Source)
      → materialize p source after_put ≡ materialize p source s
  unfolding materialize
  materialize-put_policy p source = rw pick_relay-put_policy

  global_policy-put_policy :
      (found : Result Error OutboundPolicy)
      → resolve_global_policy found after_put ≡ resolve_global_policy found s
  unfolding resolve_global_policy
  global_policy-put_policy (err e) = refl
  global_policy-put_policy (ok p) = rw materialize-put_policy

  resolve_global-put_policy : resolve_global after_put ≡ resolve_global s
  unfolding resolve_global
  resolve_global-put_policy =
      rw (put_policy_other now domain id mode relay_id s global 0 (λ x h. ground arith))
        (global_policy-put_policy (get_policy_for_scope global 0 s))

  domain_policy-put_policy :
      (found : Result Error OutboundPolicy)
      → resolve_domain_policy found after_put ≡ resolve_domain_policy found s
  unfolding resolve_domain_policy
  domain_policy-put_policy (err e) = resolve_global-put_policy
  domain_policy-put_policy (ok p) = rw (materialize-put_policy, resolve_global-put_policy)

  -- Any other domain is resolved as before.
  resolve_other-put_policy :
      (j : ℕ) → j ≢ id → resolve_for_domain j after_put ≡ resolve_for_domain j s
  unfolding resolve_for_domain
  resolve_other-put_policy j ne =
      rw (put_policy_other now domain id mode relay_id s domain j (λ x h. ground arith))
        (domain_policy-put_policy (get_policy_for_scope domain j s))

-- What a policy that holds the given mode and relay materialises to.
own_policy :
    (mode : DeliveryMode) (relay_id : Option ℕ) (p : OutboundPolicy) (s : Store)
    → p.mode ≡ mode
    → p.relay_id ≡ relay_id
    → p.enabled ≡ true
    → IsKnown mode
    → resolve_domain_policy (ok p) s ≡ asked_for mode relay_id s
unfolding resolve_domain_policy materialize
own_policy direct relay_id p s m r on k = ground arith
own_policy relay relay_id p s m r on k = rw (on, m, r)
own_policy inherit relay_id p s m r on k = ground arith
own_policy (unknown t) relay_id p s m r on k = absurd k

asked_for-put_policy :
    (now id : ℕ) (mode : DeliveryMode) (relay_id : Option ℕ) (s : Store) (m : DeliveryMode)
    (r : Option ℕ)
    → asked_for m r (put_policy now domain id mode relay_id s) ≡ asked_for m r s
asked_for-put_policy now id mode relay_id s direct r = refl
asked_for-put_policy now id mode relay_id s relay r =
    rw (pick_relay-put_policy now domain id mode relay_id s r)
asked_for-put_policy now id mode relay_id s inherit r =
    resolve_global-put_policy now id mode relay_id s
asked_for-put_policy now id mode relay_id s (unknown t) r = refl

resolve_own-put_policy :
    (now id : ℕ) (mode : DeliveryMode) (relay_id : Option ℕ) (s : Store)
    → IsKnown mode
    → resolve_for_domain id (put_policy now domain id mode relay_id s) ≡ asked_for mode relay_id s
unfolding resolve_for_domain
resolve_own-put_policy now id mode relay_id s k =
    let (p, found, h) = put_policy_same now domain id mode relay_id s in
    rw (found, own_policy mode relay_id p _ h.mode_is h.relay_is h.on k)
      (asked_for-put_policy now id mode relay_id s mode relay_id)

-- The relay that is stored with a mode.
abbrev pub stored_relay : DeliveryMode → Option ℕ → Option ℕ
stored_relay relay relay_id = relay_id
stored_relay _ relay_id = none

-- The call that an accepted `set_policy` has made.
pub record Put (now : ℕ) (scope : PolicyScope) (id : ℕ) (mode : DeliveryMode) (relay_id : Option ℕ)
    (s : Store) : Type 0 where
  pub known : IsKnown mode
  pub put :
      (set_policy now scope id mode relay_id s).0
      ≡ put_policy now scope id mode (stored_relay mode relay_id) s
  pub answered :
      (set_policy now scope id mode relay_id s).1
      ≡ get_policy_for_scope scope id (put_policy now scope id mode (stored_relay mode relay_id) s)

pub set_policy-Put :
    (now : ℕ) (scope : PolicyScope) (id : ℕ) (mode : DeliveryMode) (relay_id : Option ℕ) (s : Store)
    {p : OutboundPolicy}
    → (set_policy now scope id mode relay_id s).1 ≡ ok p
    → Put now scope id mode relay_id s
unfolding set_policy
set_policy-Put now scope id direct relay_id s h = record {
  known = tt;
  put = ground arith;
  answered = ground arith;
}
set_policy-Put now scope id relay none s h = record {
  known = tt;
  put = ground arith;
  answered = ground arith;
}
set_policy-Put now scope id relay (some r) s h = record {
  known = tt;
  put = ground arith;
  answered = ground arith;
}
set_policy-Put now scope id inherit relay_id s h = record {
  known = tt;
  put = ground arith;
  answered = ground arith;
}
set_policy-Put now scope id (unknown t) relay_id s h = cc

-- A policy that is refused, whatever the error, leaves the store as it was.
pub set_policy_refused :
    (now : ℕ) (scope : PolicyScope) (id : ℕ) (mode : DeliveryMode) (relay_id : Option ℕ) (s : Store)
    {e : Error}
    → (set_policy now scope id mode relay_id s).1 ≡ err e
    → (set_policy now scope id mode relay_id s).0 ≡ s
unfolding set_policy
set_policy_refused now scope id direct relay_id s h =
    ground (arith, (put_policy_same now scope id direct none s).1)
set_policy_refused now scope id relay none s h = ground arith
set_policy_refused now scope id relay (some r) s h =
    ground (arith, (put_policy_same now scope id relay (some r) s).1)
set_policy_refused now scope id inherit relay_id s h =
    ground (arith, (put_policy_same now scope id inherit none s).1)
set_policy_refused now scope id (unknown t) relay_id s h = ground arith

asked_for-stored_relay :
    (mode : DeliveryMode) (relay_id : Option ℕ) (s : Store)
    → asked_for mode (stored_relay mode relay_id) s ≡ asked_for mode relay_id s
asked_for-stored_relay relay relay_id s = refl
asked_for-stored_relay _ relay_id s = refl

-- When `set_policy` accepts a policy for a domain, the domain then resolves to what was asked for
-- (the direct mode, the named relay, or the global default of before), and every other domain
-- resolves as before.
pub resolve_for_domain-set_policy :
    (now id : ℕ) (mode : DeliveryMode) (relay_id : Option ℕ) (s : Store) (p : OutboundPolicy)
    → (set_policy now domain id mode relay_id s).1 ≡ ok p
    → (resolve_for_domain id (set_policy now domain id mode relay_id s).0
        ≡ asked_for mode relay_id s)
      × ((j : ℕ)
          → j ≢ id
          → resolve_for_domain j (set_policy now domain id mode relay_id s).0
            ≡ resolve_for_domain j s)
resolve_for_domain-set_policy now id mode relay_id s p h =
    let a = set_policy-Put now domain id mode relay_id s h in
    (
      rw a.put (
          resolve_own-put_policy now id mode (stored_relay mode relay_id) s a.known
          ∙ asked_for-stored_relay mode relay_id s),
      λ j ne. rw a.put (resolve_other-put_policy now id mode (stored_relay mode relay_id) s j ne),
    )
