-- ===== src/Policies/Payload.antt =====
-- What a payload holds once fields are deleted from it.
use cafe_persistence.Prelude.{
  String, ◌≡◌, refl, Bool, true, false, ◌||◌, [], ◌∷◌, str_eq, Bool-cases, inl, inr,
}
use cafe_persistence.Policies.{JsonMap, without}

true_not_false : {A : Type 0} → true ≡ false → A
true_not_false h = cc

-- Is there a value under the key?
unfoldable pub has_field : String → JsonMap → Bool
has_field key [] = false
has_field key ((k, v) ∷ m) = str_eq k key || has_field key m

has_field-without : (key : String) (m : JsonMap) → has_field key (without key m) ≡ false
unfolding without has_field
has_field-without key [] = refl
has_field-without key ((k, v) ∷ m) = elim (Bool-cases (str_eq k key)) [
  | inl same ↦ rw same (has_field-without key m)
  | inr other ↦ rw other (rw other (has_field-without key m))
]

has_field-without_other :
    (key j : String) (m : JsonMap) → has_field key m ≡ false → has_field key (without j m) ≡ false
unfolding without has_field
has_field-without_other key j [] h = refl
has_field-without_other key j ((k, v) ∷ m) h = elim (Bool-cases (str_eq k key)) [
  | inl same ↦ true_not_false (rw same at h)
  | inr other ↦ elim (Bool-cases (str_eq k j)) [
    | inl dropped ↦ rw dropped (has_field-without_other key j m (rw other at h))
    | inr stays ↦ rw stays (rw other (has_field-without_other key j m (rw other at h)))
  ]
]

abbrev pub NoSecrets : JsonMap → Type 0
NoSecrets m =
    (has_field "signed_message" m ≡ false)
    × (has_field "signature" m ≡ false)
    × (has_field "payload_sha256" m ≡ false)
    × (has_field "draft_id" m ≡ false)

pub stripped :
    (m : JsonMap)
    → NoSecrets (
        without "draft_id"
          (without "payload_sha256" (without "signature" (without "signed_message" m))))
stripped m =
    let a = has_field-without "signed_message" m in
    let a = has_field-without_other "signed_message" "signature" _ a in
    let a = has_field-without_other "signed_message" "payload_sha256" _ a in
    let b = has_field-without "signature" (without "signed_message" m) in
    let b = has_field-without_other "signature" "payload_sha256" _ b in
    (
      has_field-without_other "signed_message" "draft_id" _ a,
      has_field-without_other "signature" "draft_id" _ b,
      has_field-without_other "payload_sha256" "draft_id" _ (has_field-without "payload_sha256" _),
      has_field-without "draft_id" _,
    )
