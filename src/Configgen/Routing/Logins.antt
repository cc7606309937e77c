-- ===== src/Configgen/Routing/Logins.antt =====
-- Which relay mail goes to, and what Postfix logs in with there.
use wispbox.Base.{Text, true, false, Option, none, some, ok, ◌≡◌, In, ap, sym, ◌∙◌}
use wispbox.Db.Models.{OutboundRelay, Domain}
use wispbox.Db.Tables.{Store}
use wispbox.Db.Domains.{list_domains}
use wispbox.Delivery.Engine.{Resolved, resolve_for_domain, resolve_global}
use wispbox.Configgen.Routing.{
  Routing, no_routing, nexthop_of, transport_of, is_direct, is_own, relay_credentials,
  build_routing,
}
use wispbox.Configgen.Routing.Lines.{login_at, login_at_sound, no_routing-IsSound}
use wispbox.Configgen.Routing.Credentials.{
  own_entry, Seen, route_global_lem, route_domains_lem, build_routing_parts,
}

-- A decision that the routing carries out: that of a domain of its own, or the global one.
abbrev pub Decides : Store → Option Domain → Resolved → Type 0
Decides s (some dom) resolved =
    In dom (list_domains s)
    × (resolve_for_domain dom.id s ≡ ok resolved)
    × (is_own resolved.source ≡ true)
Decides s none resolved = resolve_global s ≡ ok resolved

-- Where the routing sends the mail of a domain, or all that no domain's entry takes.
abbrev pub SendsTo : Routing → Option Domain → OutboundRelay → Type 0
SendsTo d (some dom) r = In (own_entry dom r) d.sender_transports
SendsTo d none r = d.default_transport ≡ transport_of r

module _ (decrypt : Text → Option Text) where
  sent :
      (s : Store) (d : Routing) (who : Option Domain) (resolved : Resolved) (r : OutboundRelay)
      → build_routing decrypt s ≡ ok d
      → Decides s who resolved
      → is_direct resolved.mode ≡ false
      → resolved.relay ≡ some r
      → SendsTo d who r × Seen decrypt r d
  sent s d (some dom) resolved r e (i, q, own) g rel =
      let (global, d0, z, y, w) = build_routing_parts decrypt s d e in
      let (sound, _) = route_global_lem decrypt global no_routing d0 y no_routing-IsSound in
      let (_, _, placed) = route_domains_lem decrypt s (list_domains s) d0 d w sound in
      let (seen, m) = placed dom resolved i q r g rel own in (m, seen)
  sent s d none resolved r e q g rel =
      let (global, d0, z, y, w) = build_routing_parts decrypt s d e in
      let (sound, defaulted) = route_global_lem decrypt global no_routing d0 y no_routing-IsSound in
      let (_, (kept, _, same_default), _) =
        route_domains_lem decrypt s (list_domains s) d0 d w sound in
      let same_one : resolved ≡ global = cc (q, z) in
      let ((creds, c, k), t) =
        defaulted r (ap (λ (x : Resolved). is_direct x.mode) (sym same_one) ∙ g)
          (ap (λ (x : Resolved). x.relay) (sym same_one) ∙ rel) in
      (same_default ∙ t, (creds, c, kept (nexthop_of r) creds k))

  -- If the routing is built, then a domain with a relay of its own is sent to that relay, and the default
  -- transport, which is for senders without an entry, is the global relay if there is one. At the host and
  -- port of either, Postfix logs in with that relay's own credentials, or with none if it has none, whatever
  -- other relays are in use.
  pub build_routing-relay :
      (s : Store) (d : Routing) (who : Option Domain) (resolved : Resolved) (r : OutboundRelay)
      → build_routing decrypt s ≡ ok d
      → Decides s who resolved
      → is_direct resolved.mode ≡ false
      → resolved.relay ≡ some r
      → SendsTo d who r
        × (relay_credentials decrypt r ≡ ok (login_at (nexthop_of r) d.sasl_entries))
  build_routing-relay s d who resolved r e q g rel =
      let (m, (creds, k, seen)) = sent s d who resolved r e q g rel in
      let (global, d0, z, y, w) = build_routing_parts decrypt s d e in
      let (sound, _) = route_global_lem decrypt global no_routing d0 y no_routing-IsSound in
      let (sound', _, _) = route_domains_lem decrypt s (list_domains s) d0 d w sound in
      (m, k ∙ ap ok (sym (login_at_sound (nexthop_of r) creds d sound' seen)))
