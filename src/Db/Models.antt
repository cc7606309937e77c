-- ===== src/Db/Models.antt =====
-- internal/db/models.go. A timestamp column holds a text in the canonical layout, which is modelled
-- by the milliseconds that it stands for; an empty or NULL one is `none`.
use wispbox.Base.{ℕ, Text, Bool, Option, ℤ}

abbrev pub Stamp : Type 0
Stamp = ℕ

pub record Admin : Type 0 where
  pub id : ℕ
  pub username : Text
  pub password_hash : Text
  pub webauthn_handle : Text
  pub two_factor_enabled : Bool
  pub encrypted_totp_secret : Text
  pub created_at : Stamp
  pub updated_at : Stamp

pub data DomainStatus : Type 0 where
  pending active error : DomainStatus

pub record Domain : Type 0 where
  pub id : ℕ
  pub name : Text
  pub mail_hostname : Text
  pub status : DomainStatus
  pub created_at : Stamp
  pub updated_at : Stamp

pub record Mailbox : Type 0 where
  pub id : ℕ
  pub domain_id : ℕ
  pub local_part : Text
  pub email : Text
  pub password_hash : Text
  pub webauthn_handle : Text
  pub two_factor_enabled : Bool
  pub encrypted_totp_secret : Text
  pub encrypted_passkey_password : Text
  pub quota_mb : ℤ
  pub enabled : Bool
  pub created_at : Stamp
  pub updated_at : Stamp

pub record Alias : Type 0 where
  pub id : ℕ
  pub domain_id : ℕ
  pub source : Text
  pub destination : Text
  pub is_catch_all : Bool
  pub enabled : Bool
  pub created_at : Stamp
  pub updated_at : Stamp

-- A string type with named values: `unknown` is any other text.
pub data TlsMode : Type 0 where
  starttls tls none : TlsMode
  unknown : Text → TlsMode

pub record OutboundRelay : Type 0 where
  pub id : ℕ
  pub name : Text
  pub provider : Text
  pub host : Text
  pub port : ℤ
  pub username : Text
  pub encrypted_password : Text
  pub tls_mode : TlsMode
  pub enabled : Bool
  pub created_at : Stamp
  pub updated_at : Stamp

pub data PolicyScope : Type 0 where
  global domain mailbox : PolicyScope

pub data DeliveryMode : Type 0 where
  direct relay inherit : DeliveryMode
  unknown : Text → DeliveryMode

pub record OutboundPolicy : Type 0 where
  pub id : ℕ
  pub scope_type : PolicyScope
  pub scope_id : ℕ
  pub mode : DeliveryMode
  pub relay_id : Option ℕ
  pub enabled : Bool
  pub created_at : Stamp
  pub updated_at : Stamp

pub data CertStatus : Type 0 where
  pending dns_wait issuing active error : CertStatus

-- `domain_id` is 0 where the column is NULL, as `certCols` reads it.
pub record Certificate : Type 0 where
  pub id : ℕ
  pub domain_id : ℕ
  pub hostname : Text
  pub status : CertStatus
  pub challenge_type : Text
  pub cert_path : Text
  pub key_path : Text
  pub not_before : Option Stamp
  pub not_after : Option Stamp
  pub last_renewed_at : Option Stamp
  pub renew_after : Option Stamp
  pub last_error : Text
  pub created_at : Stamp
  pub updated_at : Stamp

pub data UserType : Type 0 where
  admin mailbox : UserType

pub record Session : Type 0 where
  pub id : Text
  pub user_type : UserType
  pub user_id : ℕ
  pub expires_at : Stamp
  pub created_at : Stamp

pub record Passkey : Type 0 where
  pub id : ℕ
  pub user_type : UserType
  pub user_id : ℕ
  pub rp_id : Text
  pub credential_id : Text
  pub name : Text
  pub encrypted_credential : Text
  pub created_at : Stamp
  pub updated_at : Stamp
  pub last_used_at : Option Stamp

pub record AuthChallenge : Type 0 where
  pub id : Text
  pub user_type : UserType
  pub user_id : ℕ
  pub kind : Text
  pub session_data : Text
  pub created_at : Stamp
  pub expires_at : Stamp

pub record AuditLog : Type 0 where
  pub id : ℕ
  pub actor_type : Text
  pub actor_id : ℕ
  pub action : Text
  pub target_type : Text
  pub target_id : Text
  pub ip : Text
  pub created_at : Stamp

pub record ServiceEvent : Type 0 where
  pub id : ℕ
  pub service : Text
  pub event_type : Text
  pub status : Text
  pub message : Text
  pub created_at : Stamp
