-- ===== src/Delivery/Relay.antt =====
-- internal/delivery/delivery.go, the presets and the checks on a relay.
pub mod Accepted
use wispbox.Base.{
  ℕ, Text, codes, Bool, true, false, not, ◌||◌, List, [], ◌∷◌, Option, none, some, ℤ, pos, negsuc,
  Result, err, ltb, leb, ◌==◌, if◌then◌else◌, same, trim_space, any_byte,
}
use wispbox.Base.Outcome.{refuse, ◌>>◌}
use wispbox.Base.Rows.{find}
use wispbox.Db.Models.{OutboundRelay, TlsMode, starttls, tls}

-- The texts that only the screen shows (label, hints, note) are left out.
pub record ProviderPreset : Type 0 where
  pub provider : Text
  pub host : Text
  pub port : ℕ
  pub tls_mode : TlsMode
  pub spf_include : Text

unfoldable pub presets : List ProviderPreset
presets =
    record {
      provider = codes "ses";
      host = codes "email-smtp.us-east-1.amazonaws.com";
      port = 587;
      tls_mode = starttls;
      spf_include = codes "include:amazonses.com";
    }
    ∷ record {
      provider = codes "postmark";
      host = codes "smtp.postmarkapp.com";
      port = 587;
      tls_mode = starttls;
      spf_include = codes "include:spf.mtasv.net";
    }
    ∷ record {
      provider = codes "mailgun";
      host = codes "smtp.mailgun.org";
      port = 587;
      tls_mode = starttls;
      spf_include = codes "include:mailgun.org";
    }
    ∷ record {
      provider = codes "smtp2go";
      host = codes "mail.smtp2go.com";
      port = 587;
      tls_mode = starttls;
      spf_include = codes "include:spf.smtp2go.com";
    }
    ∷ record {
      provider = codes "resend";
      host = codes "smtp.resend.com";
      port = 465;
      tls_mode = tls;
      spf_include = codes "include:amazonses.com";
    }
    ∷ record {
      provider = codes "custom";
      host = [];
      port = 587;
      tls_mode = starttls;
      spf_include = [];
    }
    ∷ []

unfoldable pub preset_for : Text → Option ProviderPreset
unfolding presets find same
preset_for provider = find (λ p. same p.provider provider) presets

abbrev pub is_control : ℕ → Bool
is_control c = ltb c 0x20 || c == 0x7f

unfoldable pub has_control_chars : Text → Bool
unfolding any_byte
has_control_chars = any_byte is_control

pub data RelayError : Type 0 where
  name_required name_control unknown_provider host_required host_not_bare : RelayError
  username_control port_out_of_range unencrypted invalid_tls_mode password_control : RelayError

-- strings.ContainsAny(host, " /:")
abbrev pub in_url : ℕ → Bool
in_url c = c == b' ' || (c == b'/' || c == b':')

abbrev pub is_port : ℤ → Bool
is_port (pos n) = if ltb n 1 then false else leb n 65535
is_port (negsuc n) = false

unfoldable pub check_tls_mode : TlsMode → Result RelayError (Unit {0})
check_tls_mode starttls = refuse false unencrypted
check_tls_mode tls = refuse false unencrypted
check_tls_mode TlsMode.none = err unencrypted
check_tls_mode (TlsMode.unknown _) = err invalid_tls_mode

abbrev pub is_none {ℓ} : {A : Type ℓ} → Option A → Bool
is_none none = true
is_none (some _) = false

unfoldable pub validate_relay : OutboundRelay → Result RelayError (Unit {0})
unfolding trim_space same has_control_chars preset_for any_byte check_tls_mode
validate_relay r = do
  refuse (same (trim_space r.name) []) name_required
  refuse (has_control_chars r.name) name_control
  refuse (is_none (preset_for r.provider)) unknown_provider
  refuse (same (trim_space r.host) []) host_required
  refuse (any_byte in_url (trim_space r.host) || has_control_chars (trim_space r.host))
      host_not_bare
  refuse (has_control_chars r.username) username_control
  refuse (not (is_port r.port)) port_out_of_range
  check_tls_mode r.tls_mode

unfoldable pub validate_relay_password : Text → Result RelayError (Unit {0})
unfolding has_control_chars
validate_relay_password password = refuse (has_control_chars password) password_control
