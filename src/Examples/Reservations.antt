-- ===== src/Examples/Reservations.antt =====
-- The theorems on pending scans at a concrete reservation.
use cafe_persistence.Prelude.{
  subst, if◌then◌else◌, ◌==◌, str_eq, ℕ, String, ◌≡◌, ◌≢◌, refl, Option, none, some, [], true,
  false, Try, ok, inr,
}
use cafe_persistence.Db.{Error}
use cafe_persistence.Db.Scripted.{Script, scripted, scripted-IsSerial, start}
use cafe_persistence.Db.Table.{first, delete}
use cafe_persistence.ScanApi.Text.{trim_space, to_lower}
use cafe_persistence.Pending.{
  family_wallet, PendingRecord, PendingKey, Store, held, stored, PendingCodec, put, reserve,
  put_wallet, get_wallet_by_owner_address, delete_wallet_reservation, pending_wallet_key,
}
use cafe_persistence.Db.{statement}
use cafe_persistence.Pending.Exclusive.{
  ReadsBack, IsRecordOf, put_wallet-exclusive, get_wallet_by_owner_address-put_wallet,
  delete_wallet_reservation-keeps,
}

abbrev mine : PendingRecord
mine = record {
  scan_id = 11;
  user_id = 7;
  family = family_wallet;
  address = "0xab";
  endpoint = "";
  created_at = 100;
}

abbrev again : PendingRecord
again = record mine { scan_id = 12; address = " 0xab" }

abbrev name : ℕ → String
name u = if u == 11 then "eleven" else "other"

eleven_other : ◌≢◌ {A = Option String} (some "eleven") (some "other")
eleven_other h = cc

abbrev pub codec : PendingCodec
codec = record {
  marshal = λ rec. some "record";
  unmarshal = λ s. some mine;
  uuid_text = name;
  parse_uuid =
      λ s. if str_eq s "eleven" then some 11 else (if str_eq s "seven" then some 7 else none);
  lower = λ c. c;
}

abbrev now_and_later : Script Store
now_and_later = (put_wallet codec (scripted Store) (some mine) (start [] [])).1

reserved_once : (put_wallet codec (scripted Store) (some mine) (start [] [])).0 ≡ ok true
unfolding put_wallet reserve put statement held stored first delete trim_space to_lower
reserved_once = refl

abbrev or_none : Option String → String
or_none none = ""
or_none (some s) = s

named : (b : String) → some "record" ≡ some b → str_eq b "" ≡ false
named b h = subst (λ o. str_eq (or_none o) "" ≡ false) h refl

reads_back : ReadsBack codec mine
unfolding trim_space
reads_back = record { json = λ b h. refl; not_empty = λ b h. named b h; uuid = refl }

put_wallet-exclusive_example :
    ((put_wallet codec (scripted Store) (some again) now_and_later).0 ≢ ok true)
    × ((put_wallet codec (scripted Store) (some again) now_and_later).1.tables
        ≡ now_and_later.tables)
unfolding put_wallet reserve put statement held stored first delete trim_space to_lower
put_wallet-exclusive_example =
    put_wallet-exclusive codec (scripted Store) (scripted-IsSerial Store) mine (start [] [])
      now_and_later reserved_once (λ now. refl) refl again refl

get_wallet_by_owner_address-put_wallet_example :
    IsRecordOf 11 (get_wallet_by_owner_address codec (scripted Store) 7 " 0xab" now_and_later).0
unfolding put_wallet reserve put statement held stored first delete trim_space to_lower
get_wallet_by_owner_address-put_wallet_example =
    get_wallet_by_owner_address-put_wallet codec (scripted Store) (scripted-IsSerial Store) mine
      (start [] []) now_and_later reserved_once (λ now. refl) refl reads_back (λ now. refl) " 0xab"
      refl refl refl

abbrev key : PendingKey
key = pending_wallet_key codec 7 "0xab"

abbrev released : ℕ → Try Error (Unit {0}) × Script Store
released scan_id = delete_wallet_reservation codec (scripted Store) 7 "0xab" scan_id now_and_later

delete_wallet_reservation-keeps_example :
    held key 200 (released 12).1.tables ≡ held key 200 now_and_later.tables
unfolding put_wallet reserve put statement held stored first delete trim_space to_lower
delete_wallet_reservation-keeps_example =
    delete_wallet_reservation-keeps codec (scripted Store) (scripted-IsSerial Store) 7 "0xab" 12
      now_and_later key (inr eleven_other) 200
