-- ===== src/Storage.antt =====
-- internal/persistence/storage/postgres.go: the writers of scan rows, one row a scan.
pub mod Tls
pub mod Wallet
