-- ===== src/Delivery/Engine/Stored.antt =====
-- What the store holds after a policy was accepted.
use wispbox.Base.{
  ℕ, true, false, ◌&&◌, ◌==◌, Option, ok, ◌≡◌, refl, arith, ◌∙◌, ap, sym, subst, inl, inr,
  Bool-cases,
}
use wispbox.Base.Rows.{exists}
use wispbox.Db.Models.{OutboundPolicy, PolicyScope, DeliveryMode, domain, global}
use wispbox.Db.Tables.{Store}
use wispbox.Db.Policies.{get_policy_for_scope, put_policy, in_scope, same_scope}
use wispbox.Db.Policies.Lookup.{put_policy_same, put_policy_other}
use wispbox.Delivery.Engine.{set_policy}
use wispbox.Delivery.Engine.Choice.{IsKnown, stored_relay, set_policy-Put}

policies-put_policy :
    (now : ℕ) (scope : PolicyScope) (id : ℕ) (mode : DeliveryMode) (relay_id : Option ℕ) (s : Store)
    → put_policy now scope id mode relay_id s
      ≡ record s { policies = (put_policy now scope id mode relay_id s).policies }
unfolding put_policy
policies-put_policy now scope id mode relay_id s =
    elim (Bool-cases (exists (in_scope scope id) s.policies.rows)) [
      | inl e ↦ rw e refl
      | inr e ↦ rw e refl
    ]

same_scope_eq : (a b : PolicyScope) → same_scope a b ≡ true → a ≡ b
same_scope_eq global global h = refl
same_scope_eq domain domain h = refl
same_scope_eq PolicyScope.mailbox PolicyScope.mailbox h = refl
same_scope_eq _ _ h = cc

in_scope_apart :
    (scope other : PolicyScope) (id j : ℕ) (x : OutboundPolicy)
    → same_scope other scope && (j == id) ≡ false
    → in_scope other j x ≡ true
    → in_scope scope id x ≡ false
in_scope_apart scope other id j x apart h =
    let e : same_scope x.scope_type other ≡ true = ground (arith, h) in
    let same_one = same_scope_eq x.scope_type other e in
    let away : same_scope x.scope_type scope && (j == id) ≡ false =
      subst (λ c. same_scope c scope && (j == id) ≡ false) (sym same_one) apart in
    ground (arith, h, away)

-- What the store is like after an accepted `set_policy` that answered `p`.
pub record Accepted (scope : PolicyScope) (id : ℕ) (mode : DeliveryMode) (relay_id : Option ℕ)
    (s after : Store) (p : OutboundPolicy) : Type 0 where
  pub known : IsKnown mode
  pub held : get_policy_for_scope scope id after ≡ ok p
  pub mode_is : p.mode ≡ mode
  pub relay_is : p.relay_id ≡ stored_relay mode relay_id
  pub on : p.enabled ≡ true
  pub elsewhere : after ≡ record s { policies = after.policies }

-- A policy that is accepted has one of the three known modes. The store then holds it for its scope, in
-- force, with that mode, and with the relay that was asked for if the mode is `relay` and none otherwise;
-- the policy of any other scope is the one it was, and so are all the other tables.
pub set_policy-Accepted :
    (now : ℕ) (scope : PolicyScope) (id : ℕ) (mode : DeliveryMode) (relay_id : Option ℕ) (s : Store)
    (p : OutboundPolicy) (other : PolicyScope) (j : ℕ)
    → (set_policy now scope id mode relay_id s).1 ≡ ok p
    → same_scope other scope && (j == id) ≡ false
    → Accepted scope id mode relay_id s (set_policy now scope id mode relay_id s).0 p
      × (get_policy_for_scope other j (set_policy now scope id mode relay_id s).0
          ≡ get_policy_for_scope other j s)
set_policy-Accepted now scope id mode relay_id s p other j h apart =
    let a = set_policy-Put now scope id mode relay_id s h in
    let r = stored_relay mode relay_id in
    let (q, found, is) = put_policy_same now scope id mode r s in
    let e : q ≡ p = cc (found, a.answered, h) in
    subst
      (λ (after : Store).
        Accepted scope id mode relay_id s after p
        × (get_policy_for_scope other j after ≡ get_policy_for_scope other j s))
      (sym a.put)
      (
        record {
          known = a.known;
          held = found ∙ ap ok e;
          mode_is = subst (λ (x : OutboundPolicy). x.mode ≡ mode) e is.mode_is;
          relay_is = subst (λ (x : OutboundPolicy). x.relay_id ≡ r) e is.relay_is;
          on = subst (λ (x : OutboundPolicy). x.enabled ≡ true) e is.on;
          elsewhere = policies-put_policy now scope id mode r s;
        },
        put_policy_other now scope id mode r s other j
            (λ x k. in_scope_apart scope other id j x apart k),
      )
