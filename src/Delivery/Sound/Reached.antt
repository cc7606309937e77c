-- ===== src/Delivery/Sound/Reached.antt =====
-- What resolving gives in every state that the operations reach.
use wispbox.Base.{
  refl, ℕ, true, false, Option, none, some, ok, err, ◌≡◌, inl, inr, arith, In, ◌==◌, ◌&&◌,
  Bool-cases, not, Result,
}
use wispbox.Base.Rows.{find, exists, find-In, find-some}
use wispbox.Db.Errors.{Error, relay_disabled}
use wispbox.Db.Models.{OutboundRelay, OutboundPolicy, domain, global}
use wispbox.Db.Tables.{Store, fresh}
use wispbox.Db.Relays.{get_relay}
use wispbox.Db.Policies.{in_scope, get_policy_for_scope, scan_policy}
use wispbox.Delivery.Engine.{
  Resolved, pick_relay, resolve_for_domain, is_relay, is_inherit, materialize, Source,
  resolve_global, resolve_domain_policy, resolve_global_policy, from_global, from_domain,
}
use wispbox.Base.Outcome.{Result-cases}
use wispbox.Delivery.Engine.NoFallback.{pick_relay-Names}
use wispbox.Delivery.Sound.{
  has_relay, IsServed, IsSound, Step, create, change, remove, choose, forget, other, Reach, here,
  next,
}
use wispbox.Delivery.Sound.OnRelays.{create-IsSound, change-IsSound, remove-IsSound}
use wispbox.Delivery.Sound.OnPolicies.{forget-IsSound, choose-IsSound}

Step-IsSound : {s t : Store} → Step s t → IsSound s → IsSound t
Step-IsSound {s} (create now r) h = create-IsSound now r s h
Step-IsSound {s} (change now r) h = change-IsSound now r s h
Step-IsSound {s} (remove id) h = remove-IsSound id s h
Step-IsSound {s} (choose now scope id mode relay_id) h =
    choose-IsSound now scope id mode relay_id s h
Step-IsSound {s} (forget id) h = forget-IsSound id s h
Step-IsSound (other relays policies) h = rw (relays, policies) h

Reach-IsSound : {s t : Store} → Reach s t → IsSound s → IsSound t
Reach-IsSound here h = h
Reach-IsSound (next r st) h = Step-IsSound st (Reach-IsSound r h)

fresh-IsSound : (now : ℕ) → IsSound (fresh now)
unfolding exists
fresh-IsSound now = record {
  served = λ p m. elim m [
    | inl e ↦ rw e (record { on = refl; relay_stored = λ k. cc; scope_ok = λ k. refl })
    | inr n ↦ absurd n
  ];
  default_row = refl;
}

-- What resolving may come to: a decision that inherits nothing and, if its mode is `relay`, carries a
-- stored enabled relay; or the refusal of a disabled relay.
abbrev pub Resolves : Store → Result Error Resolved → Type 0
Resolves s (err e) = e ≡ relay_disabled
Resolves s (ok res) =
    (is_inherit res.mode ≡ false)
    × (is_relay res.mode ≡ true
        → (r : OutboundRelay) × (res.relay ≡ some r) × In r s.relays.rows × (r.enabled ≡ true))

pick_served :
    (o : Option ℕ) (s : Store) {e : Error}
    → has_relay o s.relays.rows ≡ true
    → pick_relay o s ≡ err e
    → e ≡ relay_disabled
unfolding pick_relay get_relay
pick_served none s h k = cc
pick_served (some id) s h k =
    let (r, q) = find-some (λ (r : OutboundRelay). r.id == id) s.relays.rows h in ground (arith, q)

materialize-Resolves :
    (p : OutboundPolicy) (source : Source) (s : Store)
    → IsServed s.relays.rows p
    → is_inherit p.mode ≡ false
    → Resolves s (materialize p source s)
unfolding materialize
materialize-Resolves p source s h k = elim (Bool-cases (is_relay p.mode)) [
  | inr direct ↦ rw direct (k, λ e. cc)
  | inl relayed ↦ rw relayed (elim (Result-cases (pick_relay p.relay_id s)) [
    | inl (r, e) ↦
        let n = pick_relay-Names p.relay_id s e in rw e (k, λ _. (r, refl, n.stored, n.on))
    | inr (e, q) ↦ rw q (pick_served p.relay_id s (h.relay_stored relayed) q)
  ])
]

resolve_global-Resolves : (s : Store) → IsSound s → Resolves s (resolve_global s)
unfolding resolve_global resolve_global_policy get_policy_for_scope
resolve_global-Resolves s h =
    let (p, q) = find-some (in_scope global 0) s.policies.rows h.default_row in
    let (m, k) = find-In (in_scope global 0) s.policies.rows q in
    let own = (h.served p m).scope_ok (ground arith) in
    rw (q, own) (materialize-Resolves p from_global s (h.served p m) own)

domain_policy-Resolves :
    (s : Store) (id : ℕ)
    → IsSound s
    → (o : Option OutboundPolicy) → find (in_scope domain id) s.policies.rows ≡ o
    → Resolves s (resolve_domain_policy (scan_policy o) s)
unfolding resolve_domain_policy scan_policy
domain_policy-Resolves s id h none q = resolve_global-Resolves s h
domain_policy-Resolves s id h (some p) q =
    elim (Bool-cases (p.enabled && not (is_inherit p.mode))) [
      | inl e ↦ rw e (
          materialize-Resolves p from_domain s
            (h.served p (find-In (in_scope domain id) s.policies.rows q).0) (ground arith))
      | inr e ↦ rw e (resolve_global-Resolves s h)
    ]

-- Starting from a new database, after any sequence of operations on relays and policies (and any
-- others that leave both tables alone), resolving a domain gives a decision that inherits nothing and
-- that carries a stored enabled relay if its mode is `relay`, or fails because the relay is disabled:
-- the global policy, and the relay that a policy names, are never missing.
pub resolve_for_domain-Reach :
    (now : ℕ) {s : Store} (id : ℕ) → Reach (fresh now) s → Resolves s (resolve_for_domain id s)
unfolding resolve_for_domain get_policy_for_scope
resolve_for_domain-Reach now {s} id r =
    domain_policy-Resolves s id (Reach-IsSound r (fresh-IsSound now))
      (find (in_scope domain id) s.policies.rows) refl
