-- ===== src/WalletObservation/Export.antt =====
-- internal/walletobservation/export.go: the envelope of a wallet observation. The fields of the
-- event are those of the wire contract; a text of a UUID is a parameter.
use cafe_persistence.Prelude.{
  ℕ, String, ◌≡◌, refl, Bool, false, Option, none, some, List, [], if◌then◌else◌, ◌==◌, str_eq, ℤ,
}
use Prim.Native.Char.{Char}
use Prim.Native.String.{◌++◌}
use cafe_persistence.Domain.{Uuid, Slice, ScanResult}
use cafe_persistence.ScanApi.Text.{trim_space, to_lower, has_prefix}
use cafe_persistence.WalletObservation.{
  Contract, derive_current_pq_posture, map_account_kind, map_algorithm, resolve_chain_ids,
  is_multichain,
}

pub record ExportMeta : Type 0 where
  pub event_id : String
  pub correlation_id : String
  pub causation_id : String
  pub occurred_at : ℕ

-- strings.ReplaceAll(s, "-", "")
abbrev pub remove_dashes : String → String
remove_dashes String.[] = String.[]
remove_dashes (String.◌∷◌ c s) =
    let rest = remove_dashes s in
    if str_eq (String.◌∷◌ c String.[]) "-" then rest else String.◌∷◌ c rest

-- A zero time is 0.
unfoldable pub export_meta_for_scan_job : (Uuid → String) → Uuid → ExportMeta
export_meta_for_scan_job uuid_text scan_id =
    let s = uuid_text scan_id in
    record {
      event_id = "evt_disc_" ++ remove_dashes s;
      correlation_id = s;
      causation_id = s;
      occurred_at = 0;
    }

-- v01.Event with its Subject and its Payload
pub record WalletObservedEvent : Type 0 where
  pub event_id : String
  pub event_type : String
  pub event_version : String
  pub occurred_at : ℕ
  pub correlation_id : String
  pub causation_id : String
  pub producer : String
  pub subject_type : String
  pub subject_id : String
  pub chain_ids : List ℤ
  pub account_kind : String
  pub current_algorithm : String
  pub public_key_exposed : Bool
  pub is_multichain : Bool
  pub observed_at : ℕ
  pub current_pq_posture : String

-- v01.Event{}
abbrev pub zero_event : WalletObservedEvent
zero_event = record {
  event_id = "";
  event_type = "";
  event_version = "";
  occurred_at = 0;
  correlation_id = "";
  causation_id = "";
  producer = "";
  subject_type = "";
  subject_id = "";
  chain_ids = [];
  account_kind = "";
  current_algorithm = "";
  public_key_exposed = false;
  is_multichain = false;
  observed_at = 0;
  current_pq_posture = "";
}

abbrev pub with_0x : String → String
with_0x a = if has_prefix "0x" a then a else "0x" ++ a

unfoldable pub wallet_subject_id : (Char → Char) → String → String
wallet_subject_id lower address = "wallet:" ++ with_0x (trim_space (to_lower lower address))

-- the elements of a slice
abbrev pub elements : {A : Type 0} → Slice A → List A
elements none = []
elements (some xs) = xs

module _ (v01 : Contract) (lower : Char → Char) where
  unfoldable pub to_wallet_observed_event :
      ExportMeta → Option ScanResult → List (String × ℤ) → WalletObservedEvent
  to_wallet_observed_event meta none chains = zero_event
  to_wallet_observed_event meta (some scan) chains =
      let networks = elements scan.networks in
      let chain_ids = resolve_chain_ids networks chains in
      record {
        event_id = meta.event_id;
        event_type = v01.event_type_wallet_observed;
        event_version = v01.event_version;
        occurred_at = if meta.occurred_at == 0 then scan.scanned_at else meta.occurred_at;
        correlation_id = meta.correlation_id;
        causation_id = meta.causation_id;
        producer = v01.producer_cafe_discovery;
        subject_type = v01.subject_type_wallet;
        subject_id = wallet_subject_id lower scan.address;
        chain_ids = chain_ids;
        account_kind = map_account_kind v01 scan;
        current_algorithm = map_algorithm v01 scan;
        public_key_exposed = scan.key_exposed;
        is_multichain = is_multichain chain_ids networks;
        observed_at = scan.scanned_at;
        current_pq_posture = derive_current_pq_posture v01 (some scan);
      }

subject : wallet_subject_id (λ c. c) " 742d " ≡ "wallet:0x742d"
unfolding wallet_subject_id trim_space to_lower
subject = refl
