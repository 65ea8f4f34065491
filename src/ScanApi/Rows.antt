-- ===== src/ScanApi/Rows.antt =====
-- The JSON objects of internal/scanapi/handler.go. The text of a UUID and of a time are parameters.
use cafe_persistence.Prelude.{String, Option, none, some, [], ◌∷◌, ◌++◌, if◌then◌else◌, str_eq}
use cafe_persistence.Domain.{Uuid, ScanResultEntity}
use cafe_persistence.Domain.Tls.{TlsScanResultEntity}
use cafe_persistence.Pending.{PendingRecord}
use cafe_persistence.ScanApi.Http.{Fields, text, number, boolean, Backend}

module _ (b : Backend) where
  abbrev uuid : Uuid → String
  uuid = b.codec.uuid_text

  abbrev if_set : String → String → Fields
  if_set name value = if str_eq value "" then [] else (name, text value) ∷ []

  unfoldable pub pending_record_json : PendingRecord → Fields
  pending_record_json rec =
      (("scan_id", text (uuid rec.scan_id))
        ∷ ("user_id", text (uuid rec.user_id))
        ∷ ("family", text rec.family)
        ∷ ("created_at", text (b.time_text rec.created_at))
        ∷ [])
      ++ if_set "address" rec.address
      ++ if_set "endpoint" rec.endpoint

  unfoldable pub wallet_scan_row_json : ScanResultEntity → Fields
  wallet_scan_row_json e =
      ("id", text (uuid e.id))
      ∷ ("user_id", text (uuid e.user_id))
      ∷ ("address", text e.address)
      ∷ ("type", text e.account_type)
      ∷ ("algorithm", text e.algorithm)
      ∷ ("nist_level", number e.nist_level)
      ∷ ("key_exposed", boolean e.key_exposed)
      ∷ ("public_key", text e.public_key)
      ∷ ("transaction_hash", text e.transaction_hash)
      ∷ ("exposed_network", text e.exposed_network)
      ∷ ("public_key_recovery", text e.public_key_recovery)
      ∷ ("is_eoa", boolean e.is_eoa)
      ∷ ("is_erc4337", boolean e.is_erc4337)
      ∷ ("risk_score", number e.risk_score)
      ∷ ("networks", text e.networks)
      ∷ ("delegations", text e.delegations)
      ∷ ("connections", text e.connections)
      ∷ ("status", text e.status)
      ∷ ("error", text e.error)
      ∷ ("created_at", text (b.time_text e.created_at))
      ∷ ("updated_at", text (b.time_text e.updated_at))
      ∷ []

  abbrev of_user : Option Uuid → Fields
  of_user none = []
  of_user (some user_id) = ("user_id", text (uuid user_id)) ∷ []

  unfoldable pub tls_scan_row_json : TlsScanResultEntity → Fields
  tls_scan_row_json e =
      (("id", text (uuid e.id))
        ∷ ("url", text e.url)
        ∷ ("host", text e.host)
        ∷ ("port", number e.port)
        ∷ ("protocol_version", text e.protocol_version)
        ∷ ("nist_level", number e.nist_level)
        ∷ ("risk_score", number e.risk_score)
        ∷ ("pqc_risk", text e.pqc_risk)
        ∷ ("kex_algorithm", text e.kex_algorithm)
        ∷ ("kex_pqc_ready", boolean e.kex_pqc_ready)
        ∷ ("pqc_mode", text e.pqc_mode)
        ∷ ("pfs", boolean e.pfs)
        ∷ ("alpn", text e.alpn)
        ∷ ("ocsp_stapled", boolean e.ocsp_stapled)
        ∷ ("curve", text e.curve)
        ∷ ("certificate", text e.certificate)
        ∷ ("cipher_suites", text e.cipher_suites)
        ∷ ("supported_pqcs", text e.supported_pqcs)
        ∷ ("recommendations", text e.recommendations)
        ∷ ("nist_levels", text e.nist_levels)
        ∷ ("default", boolean e.is_default)
        ∷ ("status", text e.status)
        ∷ ("error", text e.error)
        ∷ ("created_at", text (b.time_text e.created_at))
        ∷ ("updated_at", text (b.time_text e.updated_at))
        ∷ [])
      ++ of_user e.user_id
