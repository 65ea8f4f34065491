-- ===== src/ScanApi/Reads.antt =====
-- The calls of the stores that only read, while nobody else writes.
use cafe_persistence.Prelude.{
  ℕ, String, ◌≡◌, refl, ◌∙◌, Bool, true, false, Option, none, some, List, if◌then◌else◌, str_eq,
  Try, ok, err, Exec, continue, ◌>>=◌, Bool-cases, inl, inr,
}
use cafe_persistence.Domain.{Uuid, kind_wallet}
use cafe_persistence.Domain.Tls.{TlsScanResultEntity}
use cafe_persistence.Db.{invalid_scan_usage_kind, Error, Moment, Database, IsSerial, statement}
use cafe_persistence.Pending.{
  Store, PendingCodec, get, get_wallet_by_owner_address, of_reservation, of_scan,
}
use cafe_persistence.Tables.{Tables}
use cafe_persistence.ScanResults.{
  TextCase, find_owned_wallet_scan_by_id, list_owner_wallet_scans_discovery_v1,
  list_owner_wallet_scans_by_address, find_owned_user_tls_scan_by_id, find_default_tls_scan_by_id,
  list_owner_user_tls_scans_discovery_v1, find_all_default,
}
use cafe_persistence.Ledger.{
  is_scan_usage_kind, count_scans, count_success_usage, count_in_flight_scans,
  count_visible_success_scans, validate_scan_usage_kind,
}

-- A call that leaves what it found.
pub record Keeps {T A : Type 0} (db : Database T) (m : Exec db.Conn Error A) : Type 0 where
  pub at : (c : db.Conn) → db.seen (m c).1 ≡ db.seen c

module _ {T : Type 0} (db : Database T) where
  Keeps-continue :
      {A B : Type 0} (q : Try Error A) (c : db.Conn) (f : A → Exec db.Conn Error B)
      → ((a : A) → Keeps db (f a))
      → db.seen (continue q f c).1 ≡ db.seen c
  Keeps-continue (ok a) c f k = (k a).at c
  Keeps-continue (err e) c f k = refl

  pub Keeps-bind :
      {A B : Type 0} (m : Exec db.Conn Error A) {f : A → Exec db.Conn Error B}
      → Keeps db m
      → ((a : A) → Keeps db (f a))
      → Keeps db (m >>= f)
  Keeps-bind m {f} h k = record { at = λ c. Keeps-continue (m c).0 (m c).1 f k ∙ h.at c }

  pub Keeps-statement :
      {A : Type 0} (f : Moment → T → Try Error A × T)
      → IsSerial db
      → ((m : Moment) (t : T) → (f m t).1 ≡ t)
      → Keeps db (statement db f)
  unfolding statement
  Keeps-statement f serial same = record {
    at = λ c. elim (Bool-cases (db.fails c)) [
      | inl down ↦ rw down (serial.seen-next c (db.seen c))
      | inr up ↦ rw (up, serial.seen-next) (same (db.clock c) (db.seen c))
    ];
  }

  pub Keeps-same : {A : Type 0} (q : Try Error A) → Keeps db (λ c. (q, c))
  Keeps-same q = record { at = λ c. refl }

module _ (codec : PendingCodec) (db : Database Store) (serial : IsSerial db) where
  pub get-Keeps : (scan_id : Uuid) → Keeps db (get codec db scan_id)
  unfolding get
  get-Keeps scan_id = Keeps-bind db _ (Keeps-statement db _ serial λ m t. refl) λ s. Keeps-same db _

  of_scan-Keeps : (u : Uuid) (a : String) (id : Option Uuid) → Keeps db (of_scan codec db u a id)
  of_scan-Keeps u a none = Keeps-same db _
  of_scan-Keeps u a (some id) =
      Keeps-bind db (get codec db id) (get-Keeps id) λ rec. Keeps-same db _

  of_reservation-Keeps :
      (u : Uuid) (a : String) (s : Option String) → Keeps db (of_reservation codec db u a s)
  of_reservation-Keeps u a none = Keeps-same db _
  of_reservation-Keeps u a (some s) = of_scan-Keeps u a _

  pub get_wallet_by_owner_address-Keeps :
      (u : Uuid) (a : String) → Keeps db (get_wallet_by_owner_address codec db u a)
  unfolding get_wallet_by_owner_address
  get_wallet_by_owner_address-Keeps u a =
      Keeps-bind db _ (Keeps-statement db _ serial λ m t. refl) λ s. of_reservation-Keeps u a s

module _ (text : TextCase) (db : Database Tables) (serial : IsSerial db) where
  pub list_owner_wallet_scans_discovery_v1-Keeps :
      (u : Uuid) (a : String) (limit offset : ℕ)
      → Keeps db (list_owner_wallet_scans_discovery_v1 text db u a limit offset)
  unfolding list_owner_wallet_scans_discovery_v1
  list_owner_wallet_scans_discovery_v1-Keeps u a limit offset =
      Keeps-bind db _ (Keeps-statement db _ serial λ m t. refl)
        λ total. Keeps-bind db _ (Keeps-statement db _ serial λ m t. refl) λ rows. Keeps-same db _

  pub list_owner_wallet_scans_by_address-Keeps :
      (u : Uuid) (a : String) → Keeps db (list_owner_wallet_scans_by_address text db u a)
  unfolding list_owner_wallet_scans_by_address
  list_owner_wallet_scans_by_address-Keeps u a = Keeps-statement db _ serial λ m t. refl

counted :
    (u : Uuid) (kind : String) (has_status : String → Bool) (m : Moment) (t : Tables)
    → (count_scans u kind has_status m t).1 ≡ t
counted u kind has_status m t = elim (Bool-cases (str_eq kind kind_wallet)) [
  | inl wallet ↦ rw wallet refl
  | inr tls ↦ rw tls refl
]

module _ (db : Database Tables) (serial : IsSerial db) where
  pub find_owned_wallet_scan_by_id-Keeps :
      (u id : Uuid) → Keeps db (find_owned_wallet_scan_by_id db u id)
  unfolding find_owned_wallet_scan_by_id
  find_owned_wallet_scan_by_id-Keeps u id = Keeps-statement db _ serial λ m t. refl

  pub find_owned_user_tls_scan_by_id-Keeps :
      (u id : Uuid) → Keeps db (find_owned_user_tls_scan_by_id db u id)
  unfolding find_owned_user_tls_scan_by_id
  find_owned_user_tls_scan_by_id-Keeps u id = Keeps-statement db _ serial λ m t. refl

  pub find_default_tls_scan_by_id-Keeps : (id : Uuid) → Keeps db (find_default_tls_scan_by_id db id)
  unfolding find_default_tls_scan_by_id
  find_default_tls_scan_by_id-Keeps id = Keeps-statement db _ serial λ m t. refl

  pub list_owner_user_tls_scans_discovery_v1-Keeps :
      (u : Uuid) (limit offset : ℕ)
      → Keeps db (list_owner_user_tls_scans_discovery_v1 db u limit offset)
  unfolding list_owner_user_tls_scans_discovery_v1
  list_owner_user_tls_scans_discovery_v1-Keeps u limit offset =
      Keeps-bind db _ (Keeps-statement db _ serial λ m t. refl)
        λ total. Keeps-bind db _ (Keeps-statement db _ serial λ m t. refl) λ rows. Keeps-same db _

  pub find_all_default-Keeps :
      (order : List TlsScanResultEntity → List TlsScanResultEntity)
      → Keeps db (find_all_default db order)
  unfolding find_all_default
  find_all_default-Keeps order = Keeps-statement db _ serial λ m t. refl

  if-Keeps :
      {A : Type 0} (q : Bool) (m n : Exec db.Conn Error A)
      → Keeps db m
      → Keeps db n
      → Keeps db (if q then m else n)
  if-Keeps true m n h k = h
  if-Keeps false m n h k = k

  validate_scan_usage_kind-Keeps : (kind : String) → Keeps db (validate_scan_usage_kind db kind)
  unfolding validate_scan_usage_kind
  validate_scan_usage_kind-Keeps kind =
      if-Keeps (is_scan_usage_kind kind) _ _ (Keeps-same db (ok tt))
        (Keeps-same db (err invalid_scan_usage_kind))

  pub count_success_usage-Keeps :
      (u : Uuid) (kind : String) → Keeps db (count_success_usage db u kind)
  unfolding count_success_usage
  count_success_usage-Keeps u kind =
      Keeps-bind db _ (validate_scan_usage_kind-Keeps kind)
        λ valid. Keeps-statement db _ serial λ m t. refl

  pub count_in_flight_scans-Keeps :
      (u : Uuid) (kind : String) → Keeps db (count_in_flight_scans db u kind)
  unfolding count_in_flight_scans
  count_in_flight_scans-Keeps u kind =
      Keeps-bind db _ (validate_scan_usage_kind-Keeps kind)
        λ valid. Keeps-statement db _ serial λ m t. counted u kind _ m t

  pub count_visible_success_scans-Keeps :
      (u : Uuid) (kind : String) → Keeps db (count_visible_success_scans db u kind)
  unfolding count_visible_success_scans
  count_visible_success_scans-Keeps u kind =
      Keeps-bind db _ (validate_scan_usage_kind-Keeps kind)
        λ valid. Keeps-statement db _ serial λ m t. counted u kind _ m t
