-- ===== src/Pending/Reservation.antt =====
-- A reservation in Redis, step by step, while only this service writes there.
use cafe_persistence.Prelude.{
  ℕ, ◌+◌, String, ◌≡◌, ◌≢◌, refl, Bool, true, false, Option, none, some, if◌then◌else◌, ltb,
  Bool-cases, Option-cases, inl, inr, Try, ok, err, ◌⊎◌,
}
use cafe_persistence.Domain.{Uuid}
use cafe_persistence.Db.{Error, Database, IsSerial, statement}
use cafe_persistence.Pending.{
  pending_ttl, PendingRecord, PendingKey, Store, held, stored, PendingCodec, pending_wallet_key,
  put, is_incomplete, reserve, put_reserved, unless_put, put_text,
}
use cafe_persistence.ScanApi.Text.{trim_space, to_lower}
use cafe_persistence.Pending.Held.{held-stored, held-stored_other}

cc_of : {A : Type 0} {x : Error} → ◌≡◌ {A = Try Error Bool} (err x) (ok true) → A
cc_of h = cc

not_false : {A : Type 0} → ◌≡◌ {A = Try Error Bool} (ok false) (ok true) → A
not_false h = cc

abbrev pub IsText : String → Option String → Type 0
IsText b o = (o ≡ none) ⊎ (o ≡ some b)

IsText-if : (b : String) (live : Bool) → IsText b (if live then some b else none)
IsText-if b true = inr refl
IsText-if b false = inl refl

module _ (codec : PendingCodec) (db : Database Store) (serial : IsSerial db) where
  put_text-keeps :
      (rec : PendingRecord) (text : Option String) (u : Uuid) (a : String) (now : ℕ) (c : db.Conn)
      → held (PendingKey.wallet u a) now (db.seen (put_text codec db rec text c).1)
        ≡ held (PendingKey.wallet u a) now (db.seen c)
  unfolding statement
  put_text-keeps rec none u a now c = refl
  put_text-keeps rec (some b) u a now c = elim (Bool-cases (db.fails c)) [
    | inl down ↦ rw (down, serial.seen-next) refl
    | inr up ↦
        rw (up, serial.seen-next)
          (held-stored_other (PendingKey.scan rec.scan_id) (PendingKey.wallet u a) now (db.seen c)
            refl b (db.clock c).now)
  ]

  -- An answer of `true` is that of a successful Put.
  unless_put-true :
      (k : PendingKey) (r : Try Error (Unit {0})) (c : db.Conn)
      → (unless_put codec db k r c).0 ≡ ok true
      → (unless_put codec db k r c).1 ≡ c
  unless_put-true k (ok u) c h = refl
  unless_put-true k (err e) c h = cc

  module _ (rec : PendingRecord) (c : db.Conn) (now : ℕ)
      (soon : ltb now ((db.clock c).now + pending_ttl) ≡ true) where
    abbrev key : PendingKey
    key = pending_wallet_key codec rec.user_id rec.address

    put_reserved-holds :
        (c' : db.Conn)
        → held key now (db.seen c') ≡ some (codec.uuid_text rec.scan_id)
        → (put_reserved codec db rec key true c').0 ≡ ok true
        → held key now (db.seen (put_reserved codec db rec key true c').1)
          ≡ some (codec.uuid_text rec.scan_id)
    unfolding put
    put_reserved-holds c' h e =
        rw
          (
            unless_put-true key (put_text codec db rec (codec.marshal rec) c').0
                (put_text codec db rec (codec.marshal rec) c').1 e,
            put_text-keeps rec (codec.marshal rec) rec.user_id
                (to_lower codec.lower (trim_space rec.address)) now c',
          )
          h

    pub reserve-holds :
        (reserve codec db rec c).0 ≡ ok true
        → held key now (db.seen (reserve codec db rec c).1) ≡ some (codec.uuid_text rec.scan_id)
    unfolding reserve statement
    reserve-holds e = elim (Bool-cases (is_incomplete codec db rec)) [
      | inl bad ↦ cc_of (rw bad at e)
      | inr good ↦ elim (Bool-cases (db.fails c)) [
        | inl down ↦ cc_of (rw (good, down) at e)
        | inr up ↦ elim (Option-cases (held key (db.clock c).now (db.seen c))) [
          | inl free ↦
              rw (good, up, free)
                (put_reserved-holds
                  (db.next c
                    (stored key (codec.uuid_text rec.scan_id) (db.clock c).now (db.seen c)))
                  (rw
                    (
                      serial.seen-next,
                      held-stored key now (db.seen c) (codec.uuid_text rec.scan_id)
                          (db.clock c).now,
                      soon,
                    )
                    refl)
                  (rw (good, up, free) at e))
          | inr taken ↦ not_false (rw (good, up, taken.1) at e)
        ]
      ]
    ]

    -- Put has stored the text of the record, until it expires.
    put_text-IsText :
        (text : Option String) (at : ℕ) (c' : db.Conn)
        → (unless_put codec db key
            (put_text codec db rec text c').0
            (put_text codec db rec text c').1).0
          ≡ ok true
        → (b : String) × (text ≡ some b)
          × IsText b (
              held (PendingKey.scan rec.scan_id) at (
                db.seen
                  (unless_put codec db key
                    (put_text codec db rec text c').0
                    (put_text codec db rec text c').1).1))
    unfolding statement
    put_text-IsText none at c' e = cc_of e
    put_text-IsText (some b) at c' e = elim (Bool-cases (db.fails c')) [
      | inl down ↦ cc_of (rw down at e)
      | inr up ↦ (
        b,
        refl,
        rw
            (
              up,
              serial.seen-next,
              held-stored (PendingKey.scan rec.scan_id) at (db.seen c') b (db.clock c').now,
            )
            (IsText-if b _),
      )
    ]

    pub reserve-IsText :
        (at : ℕ)
        → (reserve codec db rec c).0 ≡ ok true
        → (b : String) × (codec.marshal rec ≡ some b)
          × IsText b (held (PendingKey.scan rec.scan_id) at (db.seen (reserve codec db rec c).1))
    unfolding reserve statement put
    reserve-IsText at e = elim (Bool-cases (is_incomplete codec db rec)) [
      | inl bad ↦ cc_of (rw bad at e)
      | inr good ↦ elim (Bool-cases (db.fails c)) [
        | inl down ↦ cc_of (rw (good, down) at e)
        | inr up ↦ elim (Option-cases (held key (db.clock c).now (db.seen c))) [
          | inl free ↦
              rw (good, up, free)
                (put_text-IsText (codec.marshal rec) at _ (rw (good, up, free) at e))
          | inr taken ↦ not_false (rw (good, up, taken.1) at e)
        ]
      ]
    ]

  -- While an address is reserved, no other reservation succeeds or writes.
  pub reserve-refused :
      (rec : PendingRecord) (c : db.Conn) (v : String)
      → held (pending_wallet_key codec rec.user_id rec.address) (db.clock c).now (db.seen c)
        ≡ some v
      → ((reserve codec db rec c).0 ≢ ok true) × (db.seen (reserve codec db rec c).1 ≡ db.seen c)
  unfolding reserve statement
  reserve-refused rec c v h = elim (Bool-cases (is_incomplete codec db rec)) [
    | inl bad ↦ rw bad (cc_of, refl)
    | inr good ↦ elim (Bool-cases (db.fails c)) [
      | inl down ↦ rw (good, down) (cc_of, serial.seen-next c (db.seen c))
      | inr up ↦ rw (good, up, h) (not_false, serial.seen-next c (db.seen c))
    ]
  ]
