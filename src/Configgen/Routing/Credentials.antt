-- ===== src/Configgen/Routing/Credentials.antt =====
-- Which credentials Postfix uses for a relay once the routing has been built.
use wispbox.Base.{
  refl, Text, codes, true, false, List, [], ◌∷◌, ◌++◌, Option, some, Result, ok, same, same_iff,
  ◌≡◌, In, In-append_left, In-append_right, ap, sym, subst, ◌∙◌, Bool-cases, inl, inr,
}
use wispbox.Base.Outcome.{Option-cases, Result-cases}
use wispbox.Base.Assoc.{get, get-put}
use wispbox.Db.Models.{OutboundRelay, Domain}
use wispbox.Db.Tables.{Store}
use wispbox.Db.Domains.{list_domains}
use wispbox.Delivery.Engine.{Resolved, resolve_for_domain, resolve_global}
use wispbox.Configgen.Routing.{
  SenderTransport, RouteError, Routing, no_routing, nexthop_of, transport_of, is_direct,
  relay_credentials, first_seen, see_nexthop, relay_transport, transport_for, route_global,
  route_resolved, route_domain, route_domains, build_routing, is_own,
}
use wispbox.Configgen.Routing.Lines.{IsSound, IsKept, new_line-IsSound, get-put_kept}

-- The entry that sends a domain to a relay.
abbrev pub own_entry : Domain → OutboundRelay → SenderTransport
own_entry dom r = record { sender_key = codes "@" ++ dom.name; transport = transport_of r }

module _ (decrypt : Text → Option Text) where
  -- What seeing a relay leaves.
  abbrev pub Seen : OutboundRelay → Routing → Type 0
  Seen r d =
      (creds : Text) × (relay_credentials decrypt r ≡ ok creds)
      × (get (nexthop_of r) d.seen_nexthop ≡ some creds)

  see_nexthop_lem :
      (r : OutboundRelay) (creds : Text) (d d' : Routing)
      → see_nexthop decrypt r creds d ≡ ok d'
      → IsSound d
      → IsSound d' × IsKept d d' × (get (nexthop_of r) d'.seen_nexthop ≡ some creds)
  unfolding see_nexthop first_seen
  see_nexthop_lem r creds d d' e h = elim (Option-cases (get (nexthop_of r) d.seen_nexthop)) [
    | inl q ↦
        let z : first_seen decrypt r creds d ≡ d' = cc (rw (see_nexthop, q) at e) in
        subst
          (λ (y : Routing).
            IsSound y × IsKept d y × (get (nexthop_of r) y.seen_nexthop ≡ some creds))
          z
          (
            new_line-IsSound (nexthop_of r) creds d.sasl_entries d.seen_nexthop q h,
            (get-put_kept (nexthop_of r) creds d.seen_nexthop q, (λ t m. m), refl),
            get-put (nexthop_of r) creds d.seen_nexthop,
          )
    | inr (prev, q) ↦ elim (Bool-cases (same prev creds)) [
      | inr t ↦ cc (rw (see_nexthop, q, t) at e)
      | inl t ↦
          let z : d ≡ d' = cc (rw (see_nexthop, q, t) at e) in
          subst
            (λ (y : Routing).
              IsSound y × IsKept d y × (get (nexthop_of r) y.seen_nexthop ≡ some creds))
            z (h, ((λ x c k. k), (λ t m. m), refl), q ∙ ap some ((same_iff prev creds).0 t))
    ]
  ]

  relay_transport_lem :
      (r : OutboundRelay) (d d' : Routing) (t : Text)
      → relay_transport decrypt r d ≡ ok (d', t)
      → IsSound d
      → IsSound d' × IsKept d d' × Seen r d' × (t ≡ transport_of r)
  unfolding relay_transport
  relay_transport_lem r d d' t e h = elim (Result-cases (relay_credentials decrypt r)) [
    | inr (x, q) ↦ cc (rw (relay_transport, q) at e)
    | inl (creds, q) ↦ elim (Result-cases (see_nexthop decrypt r creds d)) [
      | inr (x, k) ↦ cc (rw (relay_transport, q, k) at e)
      | inl (d'', k) ↦
          let z : Path (Result RouteError (Routing × Text)) (ok (d'', transport_of r))
              (ok (d', t)) =
            rw (relay_transport, q, k) at e in
          let zd : d'' ≡ d' = cc z in
          let zt : transport_of r ≡ t = cc z in
          let (a, b, c) = see_nexthop_lem r creds d d'' k h in
          subst (λ (y : Routing). IsSound y × IsKept d y × Seen r y × (t ≡ transport_of r)) zd
            (a, b, (creds, q, c), sym zt)
    ]
  ]

  -- What routing a decision with a relay leaves.
  abbrev pub Relayed : Resolved → (OutboundRelay → Type 0) → Type 0
  Relayed resolved P =
      (r : OutboundRelay) → is_direct resolved.mode ≡ false → resolved.relay ≡ some r → P r

  transport_for_lem :
      (resolved : Resolved) (d d' : Routing) (t : Text)
      → transport_for decrypt resolved d ≡ ok (d', t)
      → IsSound d
      → IsSound d' × IsKept d d' × Relayed resolved (λ r. Seen r d' × (t ≡ transport_of r))
  unfolding transport_for
  transport_for_lem resolved d d' t e h = elim (Bool-cases (is_direct resolved.mode)) [
    | inl q ↦
        let z : Path (Result RouteError (Routing × Text)) (ok (d, codes "smtp:")) (ok (d', t)) =
          rw (transport_for, q) at e in
        let zd : d ≡ d' = cc z in
        subst
          (λ (y : Routing).
            IsSound y × IsKept d y × Relayed resolved (λ r. Seen r y × (t ≡ transport_of r)))
          zd (h, ((λ x c k. k), (λ t m. m), refl), λ r k. cc (k, q))
    | inr q ↦ elim (Option-cases resolved.relay) [
      | inl k ↦ cc (rw (transport_for, q, k) at e)
      | inr (r, k) ↦
          let (a, b, c, u) = relay_transport_lem r d d' t (rw (transport_for, q, k) at e) h in
          (
            a,
            b,
            λ r' g k'.
                let same_relay : r ≡ r' = cc (k, k') in
                subst (λ x. Seen x d' × (t ≡ transport_of x)) same_relay (c, u),
          )
    ]
  ]

  IsKept-trans : (a b c : Routing) → IsKept a b → IsKept b c → IsKept a c
  IsKept-trans a b c (s, t, e) (u, v, f) = ((λ x y k. u x y (s x y k)), (λ x m. v x (t x m)), f ∙ e)

  -- What routing the global decision leaves.
  abbrev pub Defaulted : Resolved → Routing → Type 0
  Defaulted resolved d = Relayed resolved (λ r. Seen r d × (d.default_transport ≡ transport_of r))

  pub route_global_lem :
      (resolved : Resolved) (d d' : Routing)
      → route_global decrypt resolved d ≡ ok d'
      → IsSound d
      → IsSound d' × Defaulted resolved d'
  unfolding route_global
  route_global_lem resolved d d' e h = elim (Bool-cases (is_direct resolved.mode)) [
    | inl q ↦
        let z : record d { default_transport = codes "smtp" } ≡ d' =
          cc (rw (route_global, q) at e) in
        subst (λ y. IsSound y × Defaulted resolved y) z (h, λ r g. cc (g, q))
    | inr q ↦ elim (Result-cases (transport_for decrypt resolved d)) [
      | inr (x, k) ↦ cc (rw (route_global, k, q) at e)
      | inl ((d'', t), k) ↦
          let z : record d'' { default_transport = t } ≡ d' = cc (rw (route_global, k, q) at e) in
          let (a, _, c) = transport_for_lem resolved d d'' t k h in
          subst (λ y. IsSound y × Defaulted resolved y) z (a, c)
    ]
  ]

  abbrev pub Placed : Domain → Resolved → Routing → Type 0
  Placed dom resolved d =
      Relayed resolved
        (λ r. is_own resolved.source ≡ true → Seen r d × In (own_entry dom r) d.sender_transports)

  route_resolved_lem :
      (dom : Domain) (resolved : Resolved) (d d' : Routing)
      → route_resolved decrypt dom resolved d ≡ ok d'
      → IsSound d
      → IsSound d' × IsKept d d' × Placed dom resolved d'
  unfolding route_resolved
  route_resolved_lem dom resolved d d' e h = elim (Bool-cases (is_own resolved.source)) [
    | inr q ↦
        let z : d ≡ d' = cc (rw (route_resolved, q) at e) in
        subst (λ (y : Routing). IsSound y × IsKept d y × Placed dom resolved y) z
          (h, ((λ x c k. k), (λ t m. m), refl), λ r g k o. cc (o, q))
    | inl q ↦ elim (Result-cases (transport_for decrypt resolved d)) [
      | inr (x, k) ↦ cc (rw (route_resolved, q, k) at e)
      | inl ((d'', t), k) ↦
          let (a, (b, b', z'), c) = transport_for_lem resolved d d'' t k h in
          let entry : SenderTransport = record {
            sender_key = codes "@" ++ dom.name;
            transport = t;
          } in
          let z : record d'' { sender_transports = d''.sender_transports ++ entry ∷ [] } ≡ d' =
            cc (rw (route_resolved, q, k) at e) in
          subst (λ (y : Routing). IsSound y × IsKept d y × Placed dom resolved y) z
            (
              a,
              (b, (λ x m. In-append_left x d''.sender_transports (entry ∷ []) (b' x m)), z'),
              λ r g rel o.
                  let (seen, u) = c r g rel in
                  (
                    seen,
                    In-append_right (own_entry dom r) d''.sender_transports (entry ∷ []) (
                        inl (
                          ap
                            (λ (w : Text). record {
                              sender_key = codes "@" ++ dom.name;
                              transport = w;
                            })
                            (sym u))),
                  ),
            )
    ]
  ]

  route_domain_lem :
      (s : Store) (dom : Domain) (d d' : Routing)
      → route_domain decrypt s dom d ≡ ok d'
      → IsSound d
      → IsSound d'
        × IsKept d d'
        × ((resolved : Resolved)
            → resolve_for_domain dom.id s ≡ ok resolved
            → Placed dom resolved d')
  unfolding route_domain
  route_domain_lem s dom d d' e h = elim (Result-cases (resolve_for_domain dom.id s)) [
    | inr (x, q) ↦ cc (rw (route_domain, q) at e)
    | inl (resolved, q) ↦
        let (a, b, c) = route_resolved_lem dom resolved d d' (rw (route_domain, q) at e) h in
        (
          a,
          b,
          λ resolved' q'.
              let same_one : resolved ≡ resolved' = cc (q, q') in
              subst (λ x. Placed dom x d') same_one c,
        )
  ]

  Placed-kept :
      (dom : Domain) (resolved : Resolved) (a b : Routing)
      → IsKept a b
      → Placed dom resolved a
      → Placed dom resolved b
  Placed-kept dom resolved a b (s, t, e) p r g rel o =
      let ((creds, q, k), m) = p r g rel o in ((creds, q, s (nexthop_of r) creds k), t _ m)

  pub route_domains_lem :
      (s : Store) (doms : List Domain) (d d' : Routing)
      → route_domains decrypt s doms d ≡ ok d'
      → IsSound d
      → IsSound d'
        × IsKept d d'
        × ((dom : Domain) (resolved : Resolved)
            → In dom doms
            → resolve_for_domain dom.id s ≡ ok resolved
            → Placed dom resolved d')
  unfolding route_domains
  route_domains_lem s [] d d' e h =
      let z : d ≡ d' = cc e in
      subst
        (λ (y : Routing).
          IsSound y
          × IsKept d y
          × ((dom : Domain) (resolved : Resolved)
              → ⊥
              → resolve_for_domain dom.id s ≡ ok resolved
              → Placed dom resolved y))
        z (h, ((λ x c k. k), (λ t m. m), refl), λ dom resolved m. absurd m)
  route_domains_lem s (x ∷ doms) d d' e h = elim (Result-cases (route_domain decrypt s x d)) [
    | inr (b, q) ↦ cc (rw (route_domains, q) at e)
    | inl (m, q) ↦
        let (sound, kept, placed) = route_domain_lem s x d m q h in
        let (sound', kept', placed') =
          route_domains_lem s doms m d' (rw (route_domains, q) at e) sound in
        (
          sound',
          IsKept-trans d m d' kept kept',
          λ dom resolved i r. elim i [
            | inl here ↦ Placed-kept dom resolved m d' kept' (
                subst (λ (y : Domain). Placed y resolved m) (sym here)
                  (placed resolved
                    (subst (λ (y : Domain). resolve_for_domain y.id s ≡ ok resolved) here r)))
            | inr later ↦ placed' dom resolved later r
          ],
        )
  ]

  -- A routing that was built is one that the global decision and then the domains have gone through.
  pub build_routing_parts :
      (s : Store) (d : Routing)
      → build_routing decrypt s ≡ ok d
      → (global : Resolved) × (d0 : Routing) × (resolve_global s ≡ ok global)
        × (route_global decrypt global no_routing ≡ ok d0)
        × (route_domains decrypt s (list_domains s) d0 ≡ ok d)
  unfolding build_routing
  build_routing_parts s d e = elim (Result-cases (resolve_global s)) [
    | inr (x, z) ↦ cc (rw (build_routing, z) at e)
    | inl (global, z) ↦ elim (Result-cases (route_global decrypt global no_routing)) [
      | inr (x, y) ↦ cc (rw (build_routing, z, y) at e)
      | inl (d0, y) ↦ (global, d0, z, y, rw (build_routing, z, y) at e)
    ]
  ]
