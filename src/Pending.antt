-- ===== src/Pending.antt =====
-- internal/repository/pending_v1_scan_repository.go: scans that are accepted and have no row yet,
-- in Redis. A key with its value expires; the times are those of the statements, in seconds. uuid's
-- String and Parse, encoding/json and the table of lower-case characters are parameters.
pub mod Held
pub mod Reservation
pub mod Exclusive
use Prim.Native.Char.{Char}
use cafe_persistence.Prelude.{
  ℕ, ◌+◌, String, Bool, true, false, not, ◌&&◌, ◌||◌, Option, none, some, List, ◌∷◌, if◌then◌else◌,
  ltb, ◌==◌, str_eq, Try, ok, err, Exec, pure, raise, ◌>>=◌, ◌>>◌,
}
use cafe_persistence.Domain.{Uuid, nil_uuid}
use cafe_persistence.Db.{
  Error, encode_failed, decode_failed, record_required, record_incomplete, Moment, Database,
  statement,
}
use cafe_persistence.Db.Table.{first, delete}
use cafe_persistence.ScanApi.Text.{trim_space, to_lower}

-- 48 * time.Hour
abbrev pub pending_ttl : ℕ
pending_ttl = 172800

abbrev pub family_wallet : String
family_wallet = "wallet"

pub record PendingRecord : Type 0 where
  pub scan_id : Uuid
  pub user_id : Uuid
  pub family : String
  pub address : String
  pub endpoint : String
  pub created_at : ℕ

-- The keys of pendingV1RedisKey and pendingV1WalletAddressRedisKey, by their parts.
pub data PendingKey : Type 0 where
  scan : Uuid → PendingKey
  wallet : Uuid → String → PendingKey

abbrev pub same_key : PendingKey → PendingKey → Bool
same_key (scan a) (scan b) = a == b
same_key (wallet u a) (wallet v b) = u == v && str_eq a b
same_key _ _ = false

pub record Entry : Type 0 where
  pub key : PendingKey
  pub value : String
  pub expires : ℕ

abbrev pub Store : Type 0
Store = List Entry

abbrev pub has_key : PendingKey → Entry → Bool
has_key k e = same_key e.key k

abbrev pub is_live : PendingKey → ℕ → Entry → Bool
is_live k now e = has_key k e && ltb now e.expires

abbrev value_of : Option Entry → Option String
value_of none = none
value_of (some e) = some e.value

-- GET
unfoldable pub held : PendingKey → ℕ → Store → Option String
held k now entries = value_of (first (is_live k now) entries)

-- SET with an expiry
unfoldable pub stored : PendingKey → String → ℕ → Store → Store
stored k v now entries =
    record { key = k; value = v; expires = now + pending_ttl } ∷ delete (has_key k) entries

-- DEL
unfoldable pub removed : PendingKey → Store → Store
removed k entries = delete (has_key k) entries

-- redisCompareDeleteScript
abbrev pub removed_if : Option String → PendingKey → String → Store → Store
removed_if none k v entries = entries
removed_if (some w) k v entries = if str_eq w v then removed k entries else entries

abbrev pub get_key : PendingKey → Moment → Store → Try Error (Option String) × Store
get_key k m entries = (ok (held k m.now entries), entries)

abbrev pub write_key : PendingKey → String → Moment → Store → Try Error (Unit {0}) × Store
write_key k v m entries = (ok tt, stored k v m.now entries)

-- SET … NX; `false` stands for the answer redis.Nil
abbrev set_absent : Option String → PendingKey → String → ℕ → Store → Try Error Bool × Store
set_absent none k v now entries = (ok true, stored k v now entries)
set_absent (some w) k v now entries = (ok false, entries)

abbrev pub write_key_nx : PendingKey → String → Moment → Store → Try Error Bool × Store
write_key_nx k v m entries = set_absent (held k m.now entries) k v m.now entries

abbrev pub delete_key : PendingKey → Moment → Store → Try Error (Unit {0}) × Store
delete_key k m entries = (ok tt, removed k entries)

abbrev pub compare_delete : PendingKey → String → Moment → Store → Try Error (Unit {0}) × Store
compare_delete k v m entries = (ok tt, removed_if (held k m.now entries) k v entries)

pub record PendingCodec : Type 0 where
  pub marshal : PendingRecord → Option String
  pub unmarshal : String → Option PendingRecord
  pub uuid_text : Uuid → String
  pub parse_uuid : String → Option Uuid
  pub lower : Char → Char

module _ (codec : PendingCodec) where
  abbrev pub pending_wallet_key : Uuid → String → PendingKey
  pending_wallet_key user_id address =
      PendingKey.wallet user_id (to_lower codec.lower (trim_space address))

  abbrev pub decoded_record : Option PendingRecord → Try Error (Option PendingRecord)
  decoded_record none = err decode_failed
  decoded_record (some rec) = ok (some rec)

  abbrev pub read_record : Option String → Try Error (Option PendingRecord)
  read_record none = ok none
  read_record (some s) = if str_eq s "" then ok none else decoded_record (codec.unmarshal s)

  abbrev pub bare_record : Uuid → String → Uuid → PendingRecord
  bare_record user_id address scan_id = record {
    scan_id = scan_id;
    user_id = user_id;
    family = family_wallet;
    address = to_lower codec.lower (trim_space address);
    endpoint = "";
    created_at = 0;
  }

  module _ (db : Database Store) where
    abbrev pub put_text : PendingRecord → Option String → Exec db.Conn Error (Unit {0})
    put_text rec none = raise encode_failed
    put_text rec (some b) = statement db (write_key (PendingKey.scan rec.scan_id) b)

    unfoldable pub put : Option PendingRecord → Exec db.Conn Error (Unit {0})
    put none = raise record_required
    put (some rec) = put_text rec (codec.marshal rec)

    abbrev pub is_incomplete : PendingRecord → Bool
    is_incomplete rec =
        rec.scan_id == nil_uuid || rec.user_id == nil_uuid || str_eq (trim_space rec.address) ""

    -- An error of Put takes the reservation back; an error of that is dropped.
    abbrev pub unless_put : PendingKey → Try Error (Unit {0}) → Exec db.Conn Error Bool
    unless_put k (ok u) = pure true
    unless_put k (err e) = λ c. (err e, (statement db (delete_key k) c).1)

    abbrev pub put_reserved : PendingRecord → PendingKey → Bool → Exec db.Conn Error Bool
    put_reserved rec k false = pure false
    put_reserved rec k true = λ c. let (r, c') = put (some rec) c in unless_put k r c'

    unfoldable pub reserve : PendingRecord → Exec db.Conn Error Bool
    unfolding put
    reserve rec = if is_incomplete rec then raise record_incomplete else (do
      let key = pending_wallet_key rec.user_id rec.address
      fresh ← statement db (write_key_nx key (codec.uuid_text rec.scan_id))
      put_reserved rec key fresh)

    unfoldable pub put_wallet : Option PendingRecord → Exec db.Conn Error Bool
    unfolding reserve
    put_wallet none = raise record_required
    put_wallet (some rec) = reserve (record rec { family = family_wallet })

    unfoldable pub get : Uuid → Exec db.Conn Error (Option PendingRecord)
    get scan_id = do s ← statement db (get_key (PendingKey.scan scan_id)); λ c. (read_record s, c)

    abbrev or_bare : Uuid → String → Uuid → Option PendingRecord → Option PendingRecord
    or_bare user_id address scan_id none = some (bare_record user_id address scan_id)
    or_bare user_id address scan_id (some rec) = some rec

    abbrev pub of_scan : Uuid → String → Option Uuid → Exec db.Conn Error (Option PendingRecord)
    of_scan user_id address none = raise decode_failed
    of_scan user_id address (some scan_id) = do
      rec ← get scan_id
      pure (or_bare user_id address scan_id rec)

    abbrev pub of_reservation :
        Uuid → String → Option String → Exec db.Conn Error (Option PendingRecord)
    of_reservation user_id address none = pure none
    of_reservation user_id address (some s) =
        of_scan user_id address (codec.parse_uuid (trim_space s))

    unfoldable pub get_wallet_by_owner_address :
        Uuid → String → Exec db.Conn Error (Option PendingRecord)
    unfolding get
    get_wallet_by_owner_address user_id address = do
      s ← statement db (get_key (pending_wallet_key user_id address))
      of_reservation user_id address s

    unfoldable pub delete_wallet_reservation : Uuid → String → Uuid → Exec db.Conn Error (Unit {0})
    delete_wallet_reservation user_id address scan_id =
        if scan_id == nil_uuid
        then pure tt
        else statement db
            (compare_delete (pending_wallet_key user_id address) (codec.uuid_text scan_id))

    -- the reservation of the record that was read, and then the error of the read
    abbrev release_read : Try Error (Option PendingRecord) → Exec db.Conn Error (Unit {0})
    release_read (err e) = raise e
    release_read (ok none) = pure tt
    release_read (ok (some rec)) =
        if str_eq rec.family family_wallet
          && (not (rec.user_id == nil_uuid) && not (str_eq (trim_space rec.address) ""))
        then delete_wallet_reservation rec.user_id rec.address rec.scan_id
        else pure tt

    unfoldable pub delete_pending : Uuid → Exec db.Conn Error (Unit {0})
    unfolding get delete_wallet_reservation
    delete_pending scan_id c =
        let (rec, c') = get scan_id c in
        (do statement db (delete_key (PendingKey.scan scan_id)); release_read rec) c'
