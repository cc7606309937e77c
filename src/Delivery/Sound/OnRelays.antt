-- ===== src/Delivery/Sound/OnRelays.antt =====
-- The operations on relays keep the policies served.
use wispbox.Base.{
  refl, ℕ, true, false, List, Option, none, some, ◌≡◌, inl, inr, arith, In, ◌==◌, ◌&&◌, Bool-cases,
  same, not, ltb,
}
use wispbox.Base.Rows.{
  exists, delete, count, exists-append, exists-update, exists-delete, count-zero, In-update,
}
use wispbox.Db.Models.{OutboundRelay, OutboundPolicy, global}
use wispbox.Db.Tables.{Store, format_time}
use wispbox.Db.Relays.{create_relay, update_relay, delete_relay, refers_to, drop_relay}
use wispbox.Db.Policies.{in_scope}
use wispbox.Delivery.Sound.{has_relay, Agree, IsSound}

pub has_relay_mono :
    (old new : List OutboundRelay)
    → ((id : ℕ) → exists (λ r. r.id == id) old ≡ true → exists (λ r. r.id == id) new ≡ true)
    → (o : Option ℕ) → has_relay o old ≡ true
    → has_relay o new ≡ true
has_relay_mono old new f none h = cc
has_relay_mono old new f (some id) h = f id h

pub more_relays :
    {old new : List OutboundRelay} {policies : List OutboundPolicy}
    → ((id : ℕ) → exists (λ r. r.id == id) old ≡ true → exists (λ r. r.id == id) new ≡ true)
    → Agree old policies
    → Agree new policies
more_relays {old} {new} f h = record {
  served = λ p m. record {
    on = (h.served p m).on;
    relay_stored = λ e. has_relay_mono old new f p.relay_id ((h.served p m).relay_stored e);
    scope_ok = (h.served p m).scope_ok;
  };
  default_row = h.default_row;
}

pub create-IsSound :
    (now : ℕ) (r : OutboundRelay) (s : Store) → IsSound s → IsSound (create_relay now r s).0
unfolding create_relay
create-IsSound now r s h = elim (Bool-cases (exists (λ x. same x.name r.name) s.relays.rows)) [
  | inl e ↦ rw e h
  | inr e ↦ rw e (more_relays (λ id k. rw exists-append (rw k refl)) h)
]

pub change-IsSound :
    (now : ℕ) (r : OutboundRelay) (s : Store) → IsSound s → IsSound (update_relay now r s).0
unfolding update_relay
change-IsSound now r s h =
    elim (Bool-cases (
      exists (λ x. x.id == r.id) s.relays.rows
      && exists (λ x. same x.name r.name && not (x.id == r.id)) s.relays.rows)) [
        | inl e ↦ rw e h
        | inr e ↦ rw e (
            more_relays
              (λ id k.
                rw
                  (exists-update (λ x. x.id == id) (λ x. x.id == r.id)
                    (λ x. record r { created_at = x.created_at; updated_at = format_time now })
                    s.relays.rows (λ x q. ground arith))
                  k)
              h)
      ]

module _ (id : ℕ) (s : Store) (h : IsSound s)
    (unused : count (λ p. refers_to id p && p.enabled) s.policies.rows ≡ 0) where
  pub not_referred : (p : OutboundPolicy) → In p s.policies.rows → refers_to id p ≡ false
  not_referred p m = ground (
    arith,
    count-zero (λ (p : OutboundPolicy). refers_to id p && p.enabled) s.policies.rows unused p m,
    (h.served p m).on,
  )

  pub still_stored :
      (o : Option ℕ) (p : OutboundPolicy)
      → p.relay_id ≡ o
      → refers_to id p ≡ false
      → has_relay o s.relays.rows ≡ true
      → has_relay o (delete (λ r. r.id == id) s.relays.rows) ≡ true
  still_stored none p e n k = k
  still_stored (some j) p e n k =
      rw (exists-delete (λ r. r.id == j) (λ r. r.id == id) s.relays.rows (λ x q. ground arith)) k

  pub drop-IsSound : IsSound (drop_relay id s)
  unfolding drop_relay
  drop-IsSound = record {
    served = λ p m.
        let (q, mq, e) =
          In-update (refers_to id) (λ x. record x { relay_id = none }) s.policies.rows p m in
        let same : p ≡ q = ground (arith, not_referred q mq) in
        rw same (record {
          on = (h.served q mq).on;
          relay_stored = λ k.
              still_stored q.relay_id q refl (not_referred q mq) ((h.served q mq).relay_stored k);
          scope_ok = (h.served q mq).scope_ok;
        });
    default_row =
        rw
          (exists-update (in_scope global 0) (refers_to id) (λ x. record x { relay_id = none })
            s.policies.rows (λ x _. refl))
          h.default_row;
  }

pub remove-IsSound : (id : ℕ) (s : Store) → IsSound s → IsSound (delete_relay id s).0
unfolding delete_relay
remove-IsSound id s h =
    elim (Bool-cases (ltb 0 (count (λ p. refers_to id p && p.enabled) s.policies.rows))) [
      | inl e ↦ rw e h
      | inr e ↦ rw e (elim (Bool-cases (exists (λ r. r.id == id) s.relays.rows)) [
        | inl k ↦ rw k (drop-IsSound id s h (ground arith))
        | inr k ↦ rw k h
      ])
    ]
