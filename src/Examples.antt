-- ===== src/Examples.antt =====
-- Concrete tables, codecs and services, at which the theorems are applied.
pub mod Wallet
pub mod Completion
pub mod Mapping
pub mod Requests
pub mod Chains
pub mod Reservations
pub mod Serving
pub mod Transitions
pub mod Startup
pub mod Control
use cafe_persistence.Prelude.{
  ℕ, String, Bool, true, false, Option, none, some, List, [], ◌∷◌, ℤ, pos,
}
use cafe_persistence.Domain.{
  Uuid, Slice, Delegation, ScanResult, ScanResultEntity, ScanUsageEventEntity, kind_wallet,
  kind_endpoint,
}
use cafe_persistence.Domain.Entity.{Json, Codec}
use cafe_persistence.Domain.Plan.{Plan, User}
use cafe_persistence.Domain.Tls.{
  CertificateInfo, CipherSuiteInfo, TlsScanResult, TlsScanResultEntity, TextCodec, TlsCodec,
  no_certificate, from_tls_scan_result,
}
use cafe_persistence.Tables.{Tables}
use cafe_persistence.WalletTransition.Rows.{blank_row}
use cafe_persistence.Scan.{pending, running, success, failed}

-- Lists of one entry are encoded by its text.
abbrev string_text : List String → Option String
string_text (s ∷ []) = some s
string_text _ = none

abbrev delegation_text : List Delegation → Option String
delegation_text (d ∷ []) = some d.delegated_address
delegation_text _ = none

abbrev pub delegation : String → Delegation
delegation address = record { chain_id = 1; delegated_address = address }

abbrev pub plain_codec : Codec
plain_codec = record {
  strings = record { marshal = string_text; unmarshal = λ s. some (some (s ∷ [])) };
  delegations = record {
    marshal = delegation_text;
    unmarshal = λ s. some (some (delegation s ∷ []));
  };
}

abbrev pub wallet_result : ScanResult
wallet_result = record {
  address = "0xab";
  account_type = "AA";
  algorithm = "ECDSA-secp256k1";
  nist_level = 1;
  key_exposed = true;
  public_key = "04";
  transaction_hash = "0x1";
  exposed_network = "ethereum";
  is_eoa = true;
  is_erc4337 = false;
  risk_score = 7;
  public_key_recovery = "ok";
  scanned_at = 0;
  networks = some ("ethereum" ∷ []);
  delegations = some (delegation "0xcd" ∷ []);
  connections = none;
}

abbrev pub credit : Uuid → Uuid → String → ScanUsageEventEntity
credit user_id scan_id kind = record {
  id = 900;
  user_id = user_id;
  scan_id = scan_id;
  scan_kind = kind;
  consumed_at = 5;
}

abbrev pub wallet_row : Uuid → String → Option String → ScanResultEntity
wallet_row id status transition_id = record blank_row {
  id = id;
  user_id = 7;
  address = "0xab";
  status = status;
  transition_id = transition_id;
}

abbrev plan : Plan
plan = record { id = 3; wallet_scan_limit = pos 5; endpoint_scan_limit = pos 2; deleted_at = none }

abbrev user : User
user = record { id = 7; plan_id = 3; deleted_at = none }

-- A user of a plan with two endpoint credits; scan 11 runs with a credit, scan 12 has ended, scan
-- 13 is soft deleted.
abbrev pub tables : Tables
tables = record {
  scan_results =
      wallet_row 11 running (some "t1")
      ∷ wallet_row 12 failed (some "t0")
      ∷ record (wallet_row 13 pending none) { deleted_at = some 4 }
      ∷ [];
  tls_scan_results = [];
  scan_usage_events = credit 7 11 kind_wallet ∷ credit 7 21 kind_endpoint ∷ [];
  users = user ∷ [];
  plans = plan ∷ [];
}

-- Each kind of value is encoded by one text that it holds.
abbrev certificate : CertificateInfo
certificate = record no_certificate { subject = "CN=a" }

abbrev suite : CipherSuiteInfo
suite = record {
  id = 4865;
  name = "TLS_AES_128_GCM_SHA256";
  key_exchange = "ECDHE";
  encryption = "AES";
  mac = "AEAD";
  nist_level = 1;
  is_pqc_ready = false;
}

abbrev suite_text : Slice CipherSuiteInfo → Option String
suite_text (some (c ∷ [])) = some c.name
suite_text _ = none

abbrev slice_text : Slice String → Option String
slice_text (some (s ∷ [])) = some s
slice_text _ = none

abbrev level_text : Slice (String × ℕ) → Option String
level_text (some (l ∷ [])) = some l.0
level_text _ = none

abbrev pub tls_codec : TlsCodec
tls_codec = record {
  certificate = record {
    marshal = λ c. some c.subject;
    unmarshal = λ s. some (record no_certificate { subject = s });
  };
  cipher_suites = record {
    marshal = suite_text;
    unmarshal = λ s. some (some (record suite { name = s } ∷ []));
  };
  strings = record { marshal = slice_text; unmarshal = λ s. some (some (s ∷ [])) };
  levels = record { marshal = level_text; unmarshal = λ s. some (some ((s, 1) ∷ [])) };
}

abbrev pub tls_result : TlsScanResult
tls_result = record {
  url = "https://a.example";
  host = "a.example";
  port = 443;
  certificate = certificate;
  cipher_suites = some (suite ∷ []);
  protocol_version = "TLS 1.3";
  nist_level = 1;
  risk_score = 60;
  pqc_risk = "high";
  supported_pqcs = some ("X25519MLKEM768" ∷ []);
  recommendations = some ("use ML-KEM" ∷ []);
  scanned_at = 9;
  kex_algorithm = "X25519";
  kex_pqc_ready = false;
  pqc_mode = "classical";
  pfs = true;
  alpn = "h2";
  ocsp_stapled = false;
  curve = "X25519";
  nist_levels = some (("kex", 1) ∷ []);
  is_default = false;
}
