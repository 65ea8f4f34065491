-- ===== src/Domain/Entity.antt =====
-- internal/domain/scan_result.go: the mapping between a scan result and its row. encoding/json
-- is a parameter: `none` stands for an error of Marshal or Unmarshal.
use cafe_persistence.Prelude.{
  String, ◌≡◌, refl, false, ◌||◌, Option, none, some, List, [], ◌∷◌, arith, if◌then◌else◌, str_eq,
}
use cafe_persistence.Domain.{Uuid, nil_uuid, Slice, Delegation, ScanResult, ScanResultEntity}

pub record Json (A : Type 0) : Type 0 where
  pub marshal : List A → Option String
  pub unmarshal : String → Option (Slice A)

-- What the code relies on: if the slice is not empty, it is encoded, not as one of the texts that
-- stand for an empty list, and is decoded to itself.
abbrev pub IsRoundTrip : {A : Type 0} → Json A → Slice A → Type 0
IsRoundTrip j none = Unit
IsRoundTrip j (some []) = Unit
IsRoundTrip j (some (x ∷ xs)) =
    (s : String) × (j.marshal (x ∷ xs) ≡ some s)
    × (str_eq s "" ≡ false)
    × (str_eq s "[]" ≡ false)
    × (str_eq s "null" ≡ false)
    × (j.unmarshal s ≡ some (some (x ∷ xs)))

abbrev or_brackets : Option String → String
or_brackets none = "[]"
or_brackets (some s) = s

module _ {A : Type 0} (j : Json A) where
  -- stringArrayToString and delegationsToString
  unfoldable pub array_to_string : Slice A → String
  array_to_string none = "[]"
  array_to_string (some []) = "[]"
  array_to_string (some (x ∷ xs)) = or_brackets (j.marshal (x ∷ xs))

  abbrev decoded_strings : Option (Slice A) → Slice A
  decoded_strings none = some []
  decoded_strings (some arr) = arr

  unfoldable pub parse_string_array : String → Slice A
  parse_string_array s =
      if str_eq s "" || str_eq s "[]" then some [] else decoded_strings (j.unmarshal s)

  abbrev decoded_delegations : Option (Slice A) → Slice A
  decoded_delegations (some (some arr)) = some arr
  decoded_delegations _ = some []

  unfoldable pub parse_delegations : String → Slice A
  parse_delegations s =
      if str_eq s "" || str_eq s "[]" || str_eq s "null"
      then some []
      else decoded_delegations (j.unmarshal s)

pub record Codec : Type 0 where
  pub strings : Json String
  pub delegations : Json Delegation

module _ (codec : Codec) where
  unfoldable pub from_scan_result : Uuid → ScanResult → ScanResultEntity
  from_scan_result user_id r = record {
    id = nil_uuid;
    user_id = user_id;
    address = r.address;
    account_type = r.account_type;
    algorithm = r.algorithm;
    nist_level = r.nist_level;
    key_exposed = r.key_exposed;
    public_key = r.public_key;
    transaction_hash = r.transaction_hash;
    exposed_network = r.exposed_network;
    public_key_recovery = r.public_key_recovery;
    is_eoa = r.is_eoa;
    is_erc4337 = r.is_erc4337;
    risk_score = r.risk_score;
    networks = array_to_string codec.strings r.networks;
    delegations = array_to_string codec.delegations r.delegations;
    connections = array_to_string codec.strings r.connections;
    status = "";
    error = "";
    transition_id = none;
    created_at = 0;
    updated_at = 0;
    deleted_at = none;
  }

  unfoldable pub to_scan_result : ScanResultEntity → ScanResult
  to_scan_result s = record {
    address = s.address;
    account_type = s.account_type;
    algorithm = s.algorithm;
    nist_level = s.nist_level;
    key_exposed = s.key_exposed;
    public_key = s.public_key;
    transaction_hash = s.transaction_hash;
    exposed_network = s.exposed_network;
    is_eoa = s.is_eoa;
    is_erc4337 = s.is_erc4337;
    risk_score = s.risk_score;
    public_key_recovery = s.public_key_recovery;
    scanned_at = s.updated_at;
    networks = parse_string_array codec.strings s.networks;
    delegations = parse_delegations codec.delegations s.delegations;
    connections = parse_string_array codec.strings s.connections;
  }

abbrev ensured : Slice Delegation → Slice Delegation
ensured none = some []
ensured (some ds) = some ds

unfoldable pub ensure_scan_result_delegations : Option ScanResult → Option ScanResult
ensure_scan_result_delegations none = none
ensure_scan_result_delegations (some r) = some (record r { delegations = ensured r.delegations })

-- nil and the empty slice are one value once they are stored
abbrev pub listed : {A : Type 0} → Slice A → Slice A
listed none = some []
listed (some xs) = some xs

module _ {A : Type 0} (j : Json A) where
  parse_string_array-array_to_string :
      (xs : Slice A) → IsRoundTrip j xs → parse_string_array j (array_to_string j xs) ≡ listed xs
  unfolding parse_string_array array_to_string
  parse_string_array-array_to_string none law = refl
  parse_string_array-array_to_string (some []) law = refl
  parse_string_array-array_to_string (some (x ∷ xs)) law = ground (arith, law)

  parse_delegations-array_to_string :
      (xs : Slice A) → IsRoundTrip j xs → parse_delegations j (array_to_string j xs) ≡ listed xs
  unfolding parse_delegations array_to_string
  parse_delegations-array_to_string none law = refl
  parse_delegations-array_to_string (some []) law = refl
  parse_delegations-array_to_string (some (x ∷ xs)) law = ground (arith, law)

-- A scan result that is stored and read back is the same, but that its slices are no longer nil
-- and that the time of the scan is the time of the row's last write. The JSON encoding of its
-- networks, connections and delegations is decoded to them where they are not empty.
pub to_scan_result-from_scan_result :
    (codec : Codec) (user_id : Uuid) (r : ScanResult)
    → IsRoundTrip codec.strings r.networks
    → IsRoundTrip codec.strings r.connections
    → IsRoundTrip codec.delegations r.delegations
    → to_scan_result codec (from_scan_result codec user_id r) ≡ record r {
      scanned_at = 0;
      networks = listed r.networks;
      delegations = listed r.delegations;
      connections = listed r.connections;
    }
unfolding to_scan_result from_scan_result
to_scan_result-from_scan_result codec user_id r n c d = rw (
  parse_string_array-array_to_string codec.strings r.networks n,
  parse_string_array-array_to_string codec.strings r.connections c,
  parse_delegations-array_to_string codec.delegations r.delegations d,
)
