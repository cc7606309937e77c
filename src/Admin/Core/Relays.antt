-- ===== src/Admin/Core/Relays.antt =====
-- A relay that is saved over the one that was there.
use wispbox.Base.{
  ℕ, Text, false, not, ◌&&◌, [], Option, Result, ok, err, ◌==◌, if◌then◌else◌, same, ◌≡◌, refl,
  arith, inl, inr, Bool-cases, ap, ◌∙◌, sym,
}
use wispbox.Base.Outcome.{Result-cases}
use wispbox.Base.Rows.{find-update, exists, find-In, find-cases}
use wispbox.Db.Models.{OutboundRelay}
use wispbox.Db.Tables.{Store, format_time}
use wispbox.Db.Relays.{get_relay, update_relay, scan_relay}
use wispbox.Delivery.Relay.{validate_relay, validate_relay_password}
use wispbox.Admin.Core.{
  CoreError, RelayForm, relay_of, lifted, on_relay, regen, encrypted_of, replace_relay, save_relay,
  RelayError, Error,
}

-- The row that an update leaves is the one that is read back.
abbrev revised : ℕ → OutboundRelay → OutboundRelay → OutboundRelay
revised now r x = record r { created_at = x.created_at; updated_at = format_time now }

get_relay-update_relay :
    (now : ℕ) (r x : OutboundRelay) (s : Store) (u : Unit {0})
    → get_relay r.id s ≡ ok x
    → (update_relay now r s).1 ≡ ok u
    → get_relay r.id (update_relay now r s).0 ≡ ok (revised now r x)
unfolding get_relay update_relay scan_relay
get_relay-update_relay now r x s u g h =
    let taken =
      exists (λ (y : OutboundRelay). y.id == r.id) s.relays.rows
      && exists (λ (y : OutboundRelay). same y.name r.name && not (y.id == r.id)) s.relays.rows in
    elim (Bool-cases taken) [
      | inl t ↦ cc (rw (update_relay, t) at h)
      | inr t ↦ elim (find-cases (λ (y : OutboundRelay). y.id == r.id) s.relays.rows) [
        | inl n ↦ cc (rw (get_relay, n) at g)
        | inr (y, n) ↦
            let e : y ≡ x = cc (rw (get_relay, n) at g) in
            let (_, here) = find-In (λ (z : OutboundRelay). z.id == r.id) s.relays.rows n in
            let found =
              find-update (λ (z : OutboundRelay). z.id == r.id)
                (λ (z : OutboundRelay). z.id == r.id) (revised now r) s.relays.rows
                (λ z k. ground (arith, k)) in
            rw (update_relay, t, get_relay, found, n, here, e) refl
      ]
    ]

lifted_ok : {A : Type 0} (m : Result Error A) (a : A) → lifted m ≡ ok a → m ≡ ok a
lifted_ok (ok x) a h = cc h
lifted_ok (err e) a h = cc h

on_relay_ok : {A : Type 0} (m : Result RelayError A) (a : A) → on_relay m ≡ ok a → m ≡ ok a
on_relay_ok (ok x) a h = cc h
on_relay_ok (err e) a h = cc h

-- The password that an update leaves.
abbrev pub kept_password : Text → OutboundRelay → Text
kept_password encrypted existing =
    if same encrypted [] then existing.encrypted_password else encrypted

module _ (apply : Store → Option Text) (encrypt : Text → Option Text) where
  replace_relay_lem :
      (now : ℕ) (r saved : OutboundRelay) (warning : Text) (s : Store)
      → (replace_relay apply encrypt now r s).1 ≡ ok (saved, warning)
      → (existing : OutboundRelay) × (get_relay r.id s ≡ ok existing)
        × (get_relay r.id (replace_relay apply encrypt now r s).0 ≡ ok saved)
        × (saved
            ≡ revised now
                (record r { encrypted_password = kept_password r.encrypted_password existing })
                existing)
  unfolding replace_relay
  replace_relay_lem now r saved warning s h = elim (Result-cases (get_relay r.id s)) [
    | inr (e, q) ↦ cc (rw (replace_relay, q) at h)
    | inl (existing, q) ↦
        let r' : OutboundRelay = record r {
          encrypted_password = kept_password r.encrypted_password existing;
        } in
        elim (Result-cases (update_relay now r' s).1) [
          | inr (e, u) ↦ cc (rw (replace_relay, q, u) at h)
          | inl (t, u) ↦
              let g = get_relay-update_relay now r' existing s t q u in
              let z : Path (Result CoreError (OutboundRelay × Text))
                  (ok (revised now r' existing, regen apply (update_relay now r' s).0))
                  (ok (saved, warning)) =
                rw (replace_relay, q, u, g) at h in
              let e : revised now r' existing ≡ saved = cc z in
              rw (replace_relay, q, u, g) (existing, refl, g ∙ ap ok e, sym e)
        ]
  ]

  -- A relay that is saved over one that exists passed the checks on a relay and on its password; the row
  -- that the store then holds has what the form says, the new password encrypted, or the password that was there where the form
  -- gives none, and the creation time that was there.
  pub save_relay_update :
      (now : ℕ) (f : RelayForm) (saved : OutboundRelay) (warning : Text) (s : Store)
      → (f.id == 0) ≡ false
      → (save_relay apply encrypt now f s).1 ≡ ok (saved, warning)
      → (validate_relay (relay_of f []) ≡ ok tt)
        × (validate_relay_password f.password ≡ ok tt)
        × (existing : OutboundRelay) × (encrypted : Text) × (get_relay f.id s ≡ ok existing)
        × (encrypted_of apply encrypt f.password ≡ ok encrypted)
        × (get_relay f.id (save_relay apply encrypt now f s).0 ≡ ok saved)
        × (saved ≡ record (relay_of f (kept_password encrypted existing)) {
          created_at = existing.created_at;
          updated_at = format_time now;
        })
  unfolding save_relay
  save_relay_update now f saved warning s n h =
      elim (Result-cases (validate_relay (relay_of f []))) [
        | inr (e, v) ↦ cc (rw (save_relay, v) at h)
        | inl (t, v) ↦ elim (Result-cases (validate_relay_password f.password)) [
          | inr (e, p) ↦ cc (rw (save_relay, v, p) at h)
          | inl (t', p) ↦ elim (Result-cases (encrypted_of apply encrypt f.password)) [
            | inr (e, c) ↦ cc (rw (save_relay, v, p, c) at h)
            | inl (encrypted, c) ↦
                let (existing, g, held, e) =
                  replace_relay_lem now (relay_of f encrypted) saved warning s
                    (rw (save_relay, v, p, c, n) at h) in
                (v, p, existing, encrypted, g, c, rw (save_relay, v, p, c, n) held, e)
          ]
        ]
      ]
