-- ===== src/Domain/Tls.antt =====
-- internal/domain/models.go and tls_scan_result.go: the TLS scan result and the row that stores it.
-- The nested structs are only encoded and decoded as JSON, by the parameter `TlsCodec`; `none`
-- stands for an error of Marshal or Unmarshal.
use cafe_persistence.Prelude.{
  ℕ, String, ◌≡◌, refl, Bool, false, Option, none, some, if◌then◌else◌, str_eq,
}
use cafe_persistence.Domain.{Uuid, nil_uuid, Slice}

pub record CertificateInfo : Type 0 where
  pub subject : String
  pub issuer : String
  pub signature_algorithm : String
  pub public_key_algorithm : String
  pub key_size : ℕ
  pub not_before : ℕ
  pub not_after : ℕ
  pub serial_number : String
  pub nist_level : ℕ
  pub is_pqc_ready : Bool

pub record CipherSuiteInfo : Type 0 where
  pub id : ℕ
  pub name : String
  pub key_exchange : String
  pub encryption : String
  pub mac : String
  pub nist_level : ℕ
  pub is_pqc_ready : Bool

pub record TlsScanResult : Type 0 where
  pub url : String
  pub host : String
  pub port : ℕ
  pub certificate : CertificateInfo
  pub cipher_suites : Slice CipherSuiteInfo
  pub protocol_version : String
  pub nist_level : ℕ
  pub risk_score : ℕ
  pub pqc_risk : String
  pub supported_pqcs : Slice String
  pub recommendations : Slice String
  pub scanned_at : ℕ
  pub kex_algorithm : String
  pub kex_pqc_ready : Bool
  pub pqc_mode : String
  pub pfs : Bool
  pub alpn : String
  pub ocsp_stapled : Bool
  pub curve : String
  pub nist_levels : Slice (String × ℕ)
  pub is_default : Bool

pub record TlsScanResultEntity : Type 0 where
  pub id : Uuid
  pub user_id : Option Uuid
  pub url : String
  pub host : String
  pub port : ℕ
  pub protocol_version : String
  pub nist_level : ℕ
  pub risk_score : ℕ
  pub pqc_risk : String
  pub certificate : String
  pub cipher_suites : String
  pub supported_pqcs : String
  pub recommendations : String
  pub kex_algorithm : String
  pub kex_pqc_ready : Bool
  pub pqc_mode : String
  pub pfs : Bool
  pub alpn : String
  pub ocsp_stapled : Bool
  pub curve : String
  pub nist_levels : String
  pub is_default : Bool
  pub status : String
  pub error : String
  pub created_at : ℕ
  pub updated_at : ℕ
  pub deleted_at : Option ℕ

-- json.Marshal and json.Unmarshal at one type
pub record TextCodec (A : Type 0) : Type 0 where
  pub marshal : A → Option String
  pub unmarshal : String → Option A

pub record TlsCodec : Type 0 where
  pub certificate : TextCodec CertificateInfo
  pub cipher_suites : TextCodec (Slice CipherSuiteInfo)
  pub strings : TextCodec (Slice String)
  pub levels : TextCodec (Slice (String × ℕ))

-- string(data) after a discarded error: the text of a nil slice of bytes is ""
abbrev or_empty : Option String → String
or_empty none = ""
or_empty (some s) = s

abbrev or_zero : {A : Type 0} → A → Option A → A
or_zero zero_value none = zero_value
or_zero zero_value (some a) = a

encoded : {A : Type 0} → TextCodec A → A → String
encoded c a = or_empty (c.marshal a)

-- A failed Unmarshal leaves the variable as declared here; Go may have filled a part of it.
decoded : {A : Type 0} → TextCodec A → A → String → A
decoded c zero_value s = if str_eq s "" then zero_value else or_zero zero_value (c.unmarshal s)

abbrev pub no_certificate : CertificateInfo
no_certificate = record {
  subject = "";
  issuer = "";
  signature_algorithm = "";
  public_key_algorithm = "";
  key_size = 0;
  not_before = 0;
  not_after = 0;
  serial_number = "";
  nist_level = 0;
  is_pqc_ready = false;
}

module _ (codec : TlsCodec) where
  unfoldable pub from_tls_scan_result : Option Uuid → TlsScanResult → Bool → TlsScanResultEntity
  unfolding encoded
  from_tls_scan_result user_id r is_default = record {
    id = nil_uuid;
    user_id = user_id;
    url = r.url;
    host = r.host;
    port = r.port;
    protocol_version = r.protocol_version;
    nist_level = r.nist_level;
    risk_score = r.risk_score;
    pqc_risk = r.pqc_risk;
    certificate = encoded codec.certificate r.certificate;
    cipher_suites = encoded codec.cipher_suites r.cipher_suites;
    supported_pqcs = encoded codec.strings r.supported_pqcs;
    recommendations = encoded codec.strings r.recommendations;
    kex_algorithm = r.kex_algorithm;
    kex_pqc_ready = r.kex_pqc_ready;
    pqc_mode = r.pqc_mode;
    pfs = r.pfs;
    alpn = r.alpn;
    ocsp_stapled = r.ocsp_stapled;
    curve = r.curve;
    nist_levels = encoded codec.levels r.nist_levels;
    is_default = is_default;
    status = "";
    error = "";
    created_at = 0;
    updated_at = 0;
    deleted_at = none;
  }

  unfoldable pub to_tls_scan_result : TlsScanResultEntity → TlsScanResult
  unfolding decoded
  to_tls_scan_result t = record {
    url = t.url;
    host = t.host;
    port = t.port;
    certificate = decoded codec.certificate no_certificate t.certificate;
    cipher_suites = decoded codec.cipher_suites none t.cipher_suites;
    protocol_version = t.protocol_version;
    nist_level = t.nist_level;
    risk_score = t.risk_score;
    pqc_risk = t.pqc_risk;
    supported_pqcs = decoded codec.strings none t.supported_pqcs;
    recommendations = decoded codec.strings none t.recommendations;
    scanned_at = t.created_at;
    kex_algorithm = t.kex_algorithm;
    kex_pqc_ready = t.kex_pqc_ready;
    pqc_mode = t.pqc_mode;
    pfs = t.pfs;
    alpn = t.alpn;
    ocsp_stapled = t.ocsp_stapled;
    curve = t.curve;
    nist_levels = decoded codec.levels none t.nist_levels;
    is_default = t.is_default;
  }

-- What the code relies on: the value is encoded as a non-empty text that is decoded to it.
pub record Decodes {A : Type 0} (c : TextCodec A) (a : A) : Type 0 where
  pub text : String
  pub marshals : c.marshal a ≡ some text
  pub nonempty : str_eq text "" ≡ false
  pub unmarshals : c.unmarshal text ≡ some a

decoded-encoded :
    {A : Type 0} (c : TextCodec A) (z a : A) → Decodes c a → decoded c z (encoded c a) ≡ a
unfolding decoded encoded
decoded-encoded c z a law = rw (law.marshals, law.nonempty, law.unmarshals) refl

-- A TLS result that is stored and read back is the same, the flag of a default endpoint and the
-- time apart. The JSON encoding of its nested values is decoded to them.
pub to_tls_scan_result-from_tls_scan_result :
    (codec : TlsCodec) (user_id : Option Uuid) (r : TlsScanResult) (is_default : Bool)
    → Decodes codec.certificate r.certificate
    → Decodes codec.cipher_suites r.cipher_suites
    → Decodes codec.strings r.supported_pqcs
    → Decodes codec.strings r.recommendations
    → Decodes codec.levels r.nist_levels
    → to_tls_scan_result codec (from_tls_scan_result codec user_id r is_default)
      ≡ record r { scanned_at = 0; is_default = is_default }
unfolding to_tls_scan_result from_tls_scan_result
to_tls_scan_result-from_tls_scan_result codec user_id r is_default cert suites pqcs advice levels =
    rw (
      decoded-encoded codec.certificate no_certificate r.certificate cert,
      decoded-encoded codec.cipher_suites none r.cipher_suites suites,
      decoded-encoded codec.strings none r.supported_pqcs pqcs,
      decoded-encoded codec.strings none r.recommendations advice,
      decoded-encoded codec.levels none r.nist_levels levels,
    )
