-- ===== src/Examples/Mapping.antt =====
-- The theorems on states and on the mapping of results at concrete values.
use cafe_persistence.Prelude.{◌≡◌, refl, ◌↔◌, true, some}
use cafe_persistence.Domain.Entity.{
  from_scan_result, to_scan_result, listed, to_scan_result-from_scan_result,
}
use cafe_persistence.Domain.Tls.{
  from_tls_scan_result, to_tls_scan_result, to_tls_scan_result-from_tls_scan_result,
}
use cafe_persistence.Scan.{success, valid_transition}
use cafe_persistence.Scan.Lifecycle.{Edge, valid_transition-Edge}
use cafe_persistence.Examples.{plain_codec, wallet_result, tls_codec, tls_result}

valid_transition-Edge_example : (valid_transition "" success ≡ true) ↔ Edge "" success
valid_transition-Edge_example = valid_transition-Edge "" success

to_scan_result-from_scan_result_example :
    to_scan_result plain_codec (from_scan_result plain_codec 7 wallet_result)
    ≡ record wallet_result {
      scanned_at = 0;
      networks = listed wallet_result.networks;
      delegations = listed wallet_result.delegations;
      connections = listed wallet_result.connections;
    }
to_scan_result-from_scan_result_example =
    to_scan_result-from_scan_result plain_codec 7 wallet_result
      ("ethereum", refl, refl, refl, refl, refl) tt ("0xcd", refl, refl, refl, refl, refl)

to_tls_scan_result-from_tls_scan_result_example :
    to_tls_scan_result tls_codec (from_tls_scan_result tls_codec (some 7) tls_result true)
    ≡ record tls_result { scanned_at = 0; is_default = true }
to_tls_scan_result-from_tls_scan_result_example =
    to_tls_scan_result-from_tls_scan_result tls_codec (some 7) tls_result true
      (record { text = "CN=a"; marshals = refl; nonempty = refl; unmarshals = refl })
      (record {
        text = "TLS_AES_128_GCM_SHA256";
        marshals = refl;
        nonempty = refl;
        unmarshals = refl;
      })
      (record { text = "X25519MLKEM768"; marshals = refl; nonempty = refl; unmarshals = refl })
      (record { text = "use ML-KEM"; marshals = refl; nonempty = refl; unmarshals = refl })
      (record { text = "kex"; marshals = refl; nonempty = refl; unmarshals = refl })
