-- ===== src/Delivery/Relay/Accepted.antt =====
-- What a relay that passes the checks is like.
use wispbox.Base.Outcome.{refuse, ◌>>◌}
use wispbox.Base.{
  Result, ℕ, ◌≤◌, Text, Bool, true, false, not, ◌||◌, [], ◌∷◌, ok, same, same_iff, any_byte,
  trim_space, arith, ◌≡◌, ◌≢◌, ◌⊎◌, inl, inr, refl, All, ℤ, pos, negsuc,
}
use wispbox.Db.Models.{OutboundRelay, TlsMode, starttls, tls}
use wispbox.Delivery.Relay.{
  name_required, name_control, unknown_provider, host_required, host_not_bare, username_control,
  port_out_of_range, validate_relay, has_control_chars, is_control, in_url, is_port, check_tls_mode,
  is_none, preset_for,
}

any_byte-All : (p : ℕ → Bool) (t : Text) → any_byte p t ≡ false → All (λ c. p c ≡ false) t
unfolding any_byte
any_byte-All p [] h = tt
any_byte-All p (c ∷ t) h = (ground arith, any_byte-All p t (ground arith))

refuse_passed :
    {E A : Type 0} (test : Bool) (e : E) (rest : Result E A) {a : A}
    → (refuse test e >> rest) ≡ ok a
    → (test ≡ false) × (rest ≡ ok a)
refuse_passed true e rest h = cc
refuse_passed false e rest h = (refl, h)

or_left : (a b : Bool) → (a || b) ≡ false → a ≡ false
or_left a b h = ground arith

or_right : (a b : Bool) → (a || b) ≡ false → b ≡ false
or_right a b h = ground arith

of_not : (a : Bool) → not a ≡ false → a ≡ true
of_not a h = ground arith

check_tls_mode_lem : (m : TlsMode) → check_tls_mode m ≡ ok tt → (m ≡ starttls) ⊎ (m ≡ tls)
unfolding check_tls_mode
check_tls_mode_lem starttls h = inl refl
check_tls_mode_lem tls h = inr refl
check_tls_mode_lem TlsMode.none h = cc
check_tls_mode_lem (TlsMode.unknown t) h = cc

is_port_lem : (p : ℤ) → is_port p ≡ true → (n : ℕ) × (p ≡ pos n) × (1 ≤ n) × (n ≤ 65535)
is_port_lem (pos n) h = (n, refl, ground arith, ground arith)
is_port_lem (negsuc n) h = cc

-- No byte of the text breaks a line.
abbrev pub IsLine : Text → Type 0
IsLine = All (λ c. is_control c ≡ false)

pub record IsUsable (r : OutboundRelay) : Type 0 where
  pub name_line : IsLine r.name
  pub host_named : trim_space r.host ≢ []
  pub host_line : IsLine (trim_space r.host)
  pub host_bare : All (λ c. in_url c ≡ false) (trim_space r.host)
  pub username_line : IsLine r.username
  pub provider_listed : is_none (preset_for r.provider) ≡ false
  pub port_valid : (n : ℕ) × (r.port ≡ pos n) × (1 ≤ n) × (n ≤ 65535)
  pub encrypted : (r.tls_mode ≡ starttls) ⊎ (r.tls_mode ≡ tls)

-- A relay that passes the checks has a listed provider, a host that is not blank and, once trimmed, holds
-- no space, slash or colon, a port from 1 to 65535 and STARTTLS or TLS, and no control byte stands in its
-- name, its trimmed host or its user name.
pub validate_relay-IsUsable : (r : OutboundRelay) → validate_relay r ≡ ok tt → IsUsable r
unfolding validate_relay has_control_chars
validate_relay-IsUsable r h =
    let (_, h1) = refuse_passed (same (trim_space r.name) []) name_required _ h in
    let (name, h2) = refuse_passed (has_control_chars r.name) name_control _ h1 in
    let (provider, h3) = refuse_passed (is_none (preset_for r.provider)) unknown_provider _ h2 in
    let (host, h4) = refuse_passed (same (trim_space r.host) []) host_required _ h3 in
    let (bare, h5) =
      refuse_passed (any_byte in_url (trim_space r.host) || has_control_chars (trim_space r.host))
        host_not_bare _ h4 in
    let (username, h6) = refuse_passed (has_control_chars r.username) username_control _ h5 in
    let (port, h7) = refuse_passed (not (is_port r.port)) port_out_of_range _ h6 in
    record {
      name_line = any_byte-All is_control r.name name;
      host_named = λ e. ground (arith, host, same_iff (trim_space r.host) []);
      host_line = any_byte-All is_control (trim_space r.host) (or_right _ _ bare);
      host_bare = any_byte-All in_url (trim_space r.host) (or_left _ _ bare);
      username_line = any_byte-All is_control r.username username;
      provider_listed = provider;
      port_valid = is_port_lem r.port (of_not _ port);
      encrypted = check_tls_mode_lem r.tls_mode h7;
    }
