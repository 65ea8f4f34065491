-- ===== src/Domain.antt =====
-- internal/domain: the wallet scan result and the row that stores it. A UUID is the number of its
-- 128 bits, so `uuid.Nil` is 0. A Go slice is `none` when nil. A float64 is only copied and
-- cleared, so it is kept as a number. A row's text column that is NULL reads as "".
pub mod WalletKind
pub mod Entity
pub mod Plan
pub mod Tls
use cafe_persistence.Prelude.{ℕ, String, Bool, Option, List}

abbrev pub Uuid : Type 0
Uuid = ℕ

abbrev pub nil_uuid : Uuid
nil_uuid = 0

abbrev pub Slice : Type 0 → Type 0
Slice A = Option (List A)

abbrev pub account_type_eoa : String
account_type_eoa = "EOA"

abbrev pub account_type_aa : String
account_type_aa = "AA"

abbrev pub account_type_contract : String
account_type_contract = "Contract"

abbrev pub account_type_unknown : String
account_type_unknown = "unknown"

pub record Delegation : Type 0 where
  pub chain_id : ℕ
  pub delegated_address : String

pub record ScanResult : Type 0 where
  pub address : String
  pub account_type : String
  pub algorithm : String
  pub nist_level : ℕ
  pub key_exposed : Bool
  pub public_key : String
  pub transaction_hash : String
  pub exposed_network : String
  pub is_eoa : Bool
  pub is_erc4337 : Bool
  pub risk_score : ℕ
  pub public_key_recovery : String
  pub scanned_at : ℕ
  pub networks : Slice String
  pub delegations : Slice Delegation
  pub connections : Slice String

pub record ScanResultEntity : Type 0 where
  pub id : Uuid
  pub user_id : Uuid
  pub address : String
  pub account_type : String
  pub algorithm : String
  pub nist_level : ℕ
  pub key_exposed : Bool
  pub public_key : String
  pub transaction_hash : String
  pub exposed_network : String
  pub public_key_recovery : String
  pub is_eoa : Bool
  pub is_erc4337 : Bool
  pub risk_score : ℕ
  pub networks : String
  pub delegations : String
  pub connections : String
  pub status : String
  pub error : String
  pub transition_id : Option String
  pub created_at : ℕ
  pub updated_at : ℕ
  pub deleted_at : Option ℕ

-- domain.ScanUsageKind, a string type
abbrev pub kind_wallet : String
kind_wallet = "wallet"

abbrev pub kind_endpoint : String
kind_endpoint = "endpoint"

pub record ScanUsageEventEntity : Type 0 where
  pub id : Uuid
  pub user_id : Uuid
  pub scan_id : Uuid
  pub scan_kind : String
  pub consumed_at : ℕ
