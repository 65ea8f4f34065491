-- ===== src/Pending/Exclusive.antt =====
-- What the reservation of a wallet address promises to its owner, while only this service writes to
-- Redis: PutWallet, GetWalletByOwnerAddress and DeleteWalletReservation of
-- internal/repository/pending_v1_scan_repository.go.
use cafe_persistence.Prelude.{
  ℕ, ◌+◌, String, ◌≡◌, ◌≢◌, refl, sym, ◌∙◌, ap, subst, true, false, Option, none, some, ltb, ◌==◌,
  str_eq, str_eq_iff, Bool-cases, inl, inr, Try, ok, err, ◌⊎◌,
}
use cafe_persistence.Domain.{Uuid, nil_uuid}
use cafe_persistence.Db.{Error, Database, IsSerial, statement}
use cafe_persistence.ScanApi.Text.{trim_space}
use cafe_persistence.Pending.{
  pending_ttl, family_wallet, PendingRecord, PendingKey, same_key, Store, held, removed_if,
  PendingCodec, pending_wallet_key, put_wallet, get, get_wallet_by_owner_address,
  delete_wallet_reservation, of_scan,
}
use cafe_persistence.Pending.Held.{held-removed, held-removed_other}
use cafe_persistence.Pending.Reservation.{IsText, reserve-holds, reserve-IsText, reserve-refused}

-- encoding/json and uuid read back what they have written of the record.
pub record ReadsBack (codec : PendingCodec) (rec : PendingRecord) : Type 0 where
  pub json : (b : String) → codec.marshal rec ≡ some b → codec.unmarshal b ≡ some rec
  pub not_empty : (b : String) → codec.marshal rec ≡ some b → str_eq b "" ≡ false
  pub uuid : codec.parse_uuid (trim_space (codec.uuid_text rec.scan_id)) ≡ some rec.scan_id

abbrev pub IsRecordOf : Uuid → Try Error (Option PendingRecord) → Type 0
IsRecordOf scan_id r = (found : PendingRecord) × (r ≡ ok (some found)) × (found.scan_id ≡ scan_id)

of_scan-IsRecordOf :
    (codec : PendingCodec) (db : Database Store)
    → (u : Uuid) (a : String) (rec : PendingRecord) → ReadsBack codec rec
    → (b : String) (c : db.Conn) → codec.marshal rec ≡ some b
    → db.fails c ≡ false
    → IsText b (held (PendingKey.scan rec.scan_id) (db.clock c).now (db.seen c))
    → IsRecordOf rec.scan_id (of_scan codec db u a (some rec.scan_id) c).0
unfolding get statement
of_scan-IsRecordOf codec db u a rec back b c written up (inl gone) = rw (up, gone) (_, refl, refl)
of_scan-IsRecordOf codec db u a rec back b c written up (inr text) =
    rw (up, text, back.not_empty b written, back.json b written) (_, refl, refl)

-- The key holds at any time the same in both stores: nobody has written or deleted it in between.
abbrev pub IsUntouched : PendingKey → Store → Store → Type 0
IsUntouched key entries later = (now : ℕ) → held key now later ≡ held key now entries

module _ (codec : PendingCodec) (db : Database Store) (serial : IsSerial db) (rec : PendingRecord)
    (c c' : db.Conn) (reserved : (put_wallet codec db (some rec) c).0 ≡ ok true)
    (untouched : IsUntouched
      (pending_wallet_key codec rec.user_id rec.address)
      (db.seen (put_wallet codec db (some rec) c).1)
      (db.seen c'))
    (soon : ltb (db.clock c').now ((db.clock c).now + pending_ttl) ≡ true) where
  still-held :
      held (pending_wallet_key codec rec.user_id rec.address) (db.clock c').now (db.seen c')
      ≡ some (codec.uuid_text rec.scan_id)
  unfolding put_wallet
  still-held =
      untouched (db.clock c').now
      ∙ reserve-holds codec db serial (record rec { family = family_wallet }) c (db.clock c').now
          soon reserved

  -- Once PutWallet has answered that a wallet address is reserved, and until the reservation
  -- expires or its key is written or deleted, no PutWallet of the same user and the same address,
  -- up to case and outer blanks, answers so, whatever its scan and whatever is written to other
  -- keys; and it writes nothing.
  pub put_wallet-exclusive :
      (other : PendingRecord)
      → pending_wallet_key codec other.user_id other.address
        ≡ pending_wallet_key codec rec.user_id rec.address
      → ((put_wallet codec db (some other) c').0 ≢ ok true)
        × (db.seen (put_wallet codec db (some other) c').1 ≡ db.seen c')
  unfolding put_wallet
  put_wallet-exclusive other key =
      reserve-refused codec db serial (record other { family = family_wallet }) c'
        (codec.uuid_text rec.scan_id) (rw key still-held)

  -- Until the reservation expires, and as long as its key and that of its scan are not written or
  -- deleted, GetWalletByOwnerAddress of its user and address answers, where neither of its two
  -- reads of Redis fails, a record of the reserved scan: the stored one or, once that has expired,
  -- one made from the reservation.
  pub get_wallet_by_owner_address-put_wallet :
      ReadsBack codec (record rec { family = family_wallet })
      → IsUntouched
          (PendingKey.scan rec.scan_id)
          (db.seen (put_wallet codec db (some rec) c).1)
          (db.seen c')
      → (address : String)
      → pending_wallet_key codec rec.user_id address
        ≡ pending_wallet_key codec rec.user_id rec.address
      → db.fails c' ≡ false
      → db.fails (db.next c' (db.seen c')) ≡ false
      → IsRecordOf rec.scan_id (get_wallet_by_owner_address codec db rec.user_id address c').0
  unfolding get_wallet_by_owner_address statement put_wallet
  get_wallet_by_owner_address-put_wallet back kept address key up up' =
      let stored = record rec { family = family_wallet } in
      let c'' = db.next c' (db.seen c') in
      let (b, written, text) =
        reserve-IsText codec db serial stored c (db.clock c').now soon (db.clock c'').now
          reserved in
      rw (up, key, still-held, back.uuid)
        (of_scan-IsRecordOf codec db rec.user_id address stored back b c'' written up' (
          subst (IsText b)
            (sym (
              ap (held (PendingKey.scan rec.scan_id) (db.clock c'').now)
                (serial.seen-next c' (db.seen c'))
              ∙ kept (db.clock c'').now))
            text))

not_down : {A : Type 0} {e : Error} → ◌≡◌ {A = Try Error (Unit {0})} (err e) (ok tt) → A
not_down h = cc

held-removed_if :
    (k j : PendingKey) (now : ℕ) (entries : Store) (v : String) (o : Option String)
    → (same_key k j ≡ false) ⊎ (o ≢ some v)
    → held j now (removed_if o k v entries) ≡ held j now entries
held-removed_if k j now entries v none other = refl
held-removed_if k j now entries v (some w) (inl apart) = elim (Bool-cases (str_eq w v)) [
  | inl own ↦ rw own (held-removed_other k j now entries apart)
  | inr foreign ↦ rw foreign refl
]
held-removed_if k j now entries v (some w) (inr foreign) = elim (Bool-cases (str_eq w v)) [
  | inl own ↦ absurd (foreign (ap some ((str_eq_iff w v).0 own)))
  | inr apart ↦ rw apart refl
]

module _ (codec : PendingCodec) (db : Database Store) (serial : IsSerial db) (user_id : Uuid)
    (address : String) (scan_id : Uuid) (c : db.Conn) where
  abbrev key : PendingKey
  key = pending_wallet_key codec user_id address

  abbrev release : Try Error (Unit {0}) × db.Conn
  release = delete_wallet_reservation codec db user_id address scan_id c

  -- DeleteWalletReservation takes nothing but its own scan's reservation away: whatever it answers,
  -- each other key holds what it held, and the reservation of another scan stays.
  pub delete_wallet_reservation-keeps :
      (j : PendingKey)
      → (same_key key j ≡ false)
        ⊎ (held key (db.clock c).now (db.seen c) ≢ some (codec.uuid_text scan_id))
      → (now : ℕ) → held j now (db.seen release.1) ≡ held j now (db.seen c)
  unfolding delete_wallet_reservation statement
  delete_wallet_reservation-keeps j other now = elim (Bool-cases (scan_id == nil_uuid)) [
    | inl nil ↦ rw nil refl
    | inr id ↦ elim (Bool-cases (db.fails c)) [
      | inl down ↦ rw (id, down, serial.seen-next) refl
      | inr up ↦
          rw (id, up, serial.seen-next)
            (held-removed_if key j now (db.seen c) (codec.uuid_text scan_id)
              (held key (db.clock c).now (db.seen c)) other)
    ]
  ]

  -- DeleteWalletReservation of the scan that holds the reservation, where it answers without error
  -- and the scan's id is not nil, takes the reservation away.
  pub delete_wallet_reservation-frees :
      (scan_id == nil_uuid) ≡ false
      → held key (db.clock c).now (db.seen c) ≡ some (codec.uuid_text scan_id)
      → release.0 ≡ ok tt
      → (now : ℕ) → held key now (db.seen release.1) ≡ none
  unfolding delete_wallet_reservation statement
  delete_wallet_reservation-frees id own answer now = elim (Bool-cases (db.fails c)) [
    | inl down ↦ not_down (rw (id, down) at answer)
    | inr up ↦
        rw
          (
            id,
            up,
            serial.seen-next,
            own,
            (str_eq_iff (codec.uuid_text scan_id) (codec.uuid_text scan_id)).1 refl,
          )
          (held-removed key now (db.seen c))
  ]
