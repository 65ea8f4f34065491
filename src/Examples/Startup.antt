-- ===== src/Examples/Startup.antt =====
-- The theorems on the start of the process and on its connections, at concrete values.
use cafe_persistence.Prelude.{◌≡◌, refl, Bool, true, false, ok, err}
use cafe_persistence.Connections.{PostgresConfig, dsn_head, dsn, mask_from, mask_dsn}
use cafe_persistence.Connections.Masked.{mask_dsn-dsn}
use cafe_persistence.Process.{Stage, nats_connect, Outside, handle_ready, healthcheck, fresh, main}
use cafe_persistence.Process.Startup.{main-first_failed}

abbrev config : PostgresConfig
config = record {
  host = "db";
  port = "5432";
  user = "cafe";
  password = "secret";
  dbname = "cafe";
  sslmode = "disable";
}

mask_dsn-dsn_example : mask_dsn (dsn config) ≡ dsn (record config { password = "***" })
unfolding mask_from dsn_head
mask_dsn-dsn_example = mask_dsn-dsn config (refl, (refl, (refl, (refl, (refl, (refl, tt)))))) refl

abbrev answers : Stage → Bool
answers nats_connect = false
answers _ = true

abbrev no_nats : Outside
no_nats = record { answers = answers; signal_encoded = true }

main-first_failed_example :
    ((main no_nats fresh).0 ≡ err nats_connect)
    × (healthcheck (ok (handle_ready "now" (main no_nats fresh).1.health)) ≡ 1)
main-first_failed_example = main-first_failed no_nats "now"
