-- ===== src/Policies/Calls.antt =====
-- The policies that a wallet has at one time, over any calls of the store on one connection.
use cafe_persistence.Prelude.{
  String, ◌≡◌, ◌∙◌, refl, Bool, true, false, not, ◌&&◌, Option, none, some, List, [], ◌∷◌, arith,
  ◌==◌, str_eq, ℤ, is_non_positive, ok, err,
}
use cafe_persistence.Domain.{Uuid, nil_uuid}
use cafe_persistence.Db.{Database, IsSerial}
use cafe_persistence.Db.Preserves.{
  Preserves, answer-Preserves, pure-Preserves, bind-Preserves, on_err-Preserves, if-Preserves,
  statement-Preserves,
}
use cafe_persistence.ScanApi.Text.{trim_space}
use cafe_persistence.Policies.{
  CryptoPolicyEntity, CreatePolicyInput, OwnerScope, PolicyError, PolicyTexts, validate_owner_scope,
  owned_active, has_id, same_owner,
}
use cafe_persistence.Policies.Wallets.{normalize_wallet_target_address}
use cafe_persistence.Policies.Store
use cafe_persistence.Policies.OneActive.{
  active_for, is_wallet, is_misspelled, OneActive, normalize-is_wallet, count-update_gone,
  count-update_same, insert_policy-OneActive,
}

-- a call of the store
pub data Call : Type 0 where
  create : OwnerScope → CreatePolicyInput → Call
  read : OwnerScope → Uuid → Call
  delete : OwnerScope → Uuid → Call
  list : OwnerScope → Uuid → ℤ → ℤ → Call
  count_wallet : OwnerScope → String → Call
  count_scan : OwnerScope → Uuid → Call

module _ (texts : PolicyTexts) (db : Database (List CryptoPolicyEntity)) where
  abbrev pub call : Call → db.Conn → db.Conn
  call (create scope in_) c = (Store.create_policy texts db scope in_ c).1
  call (read scope id) c = (Store.get_policy texts db scope id c).1
  call (delete scope id) c = (Store.delete_policy texts db scope id c).1
  call (list scope scan_id limit offset) c =
      (Store.list_persisted_policies_for_scan texts db scope scan_id limit offset c).1
  call (count_wallet scope wallet) c = (Store.count_policies_by_wallet texts db scope wallet c).1
  call (count_scan scope scan_id) c = (Store.count_policies_by_scan texts db scope scan_id c).1

  abbrev pub calls : List Call → db.Conn → db.Conn
  calls [] c = c
  calls (k ∷ ks) c = calls ks (call k c)

  module _ (serial : IsSerial db) where
    require-Preserves :
        (holds : Bool) (e : PolicyError) → Preserves db OneActive (Store.require texts db holds e)
    unfolding Store.require
    require-Preserves holds e =
        if-Preserves db OneActive holds _ _ (pure-Preserves db OneActive (ok tt))
          (pure-Preserves db OneActive (err e))

    of_wallet-Preserves : (w : Option String) → Preserves db OneActive (Store.of_wallet texts db w)
    of_wallet-Preserves none = pure-Preserves db OneActive _
    of_wallet-Preserves (some wallet) = pure-Preserves db OneActive _

    of_wallet-some :
        (w : Option String) (c : db.Conn) (a : String)
        → (Store.of_wallet texts db w c).0 ≡ ok a
        → w ≡ some a
    of_wallet-some none c a h = cc
    of_wallet-some (some wallet) c a h = cc

    of_wallet-is_wallet :
        (address : String) (c : db.Conn) (a : String)
        → OneActive (db.seen c)
        → (Store.of_wallet texts db (normalize_wallet_target_address texts.lower address) c).0
          ≡ ok a
        → is_wallet a ≡ true
    of_wallet-is_wallet address c a one h =
        normalize-is_wallet texts.lower address a (of_wallet-some _ c a h)

    create_policy-Preserves :
        (scope : OwnerScope) (in_ : CreatePolicyInput)
        → Preserves db OneActive (Store.create_policy texts db scope in_)
    unfolding Store.create_policy Store.new_policy
    create_policy-Preserves scope in_ =
        bind-Preserves db OneActive _ (require-Preserves (validate_owner_scope scope) _) λ u.
          bind-Preserves db OneActive _ (require-Preserves (not (in_.scan_id == nil_uuid)) _) λ u.
            bind-Preserves db OneActive _
              (require-Preserves (not (str_eq (trim_space in_.payload_sha256) "")) _)
              λ u.
                bind-Preserves db OneActive _
                  (require-Preserves (not (Store.is_nil_map texts db in_.payload)) _)
                  λ u.
                    bind-Preserves db OneActive _
                      (require-Preserves (not (is_non_positive in_.chain_id)) _)
                      λ u.
                        answer-Preserves db OneActive (λ w. is_wallet w ≡ true) _
                          (of_wallet-Preserves _) (of_wallet-is_wallet in_.wallet_address)
                          λ wallet spelled. on_err-Preserves db OneActive _ _ (
                            statement-Preserves db OneActive _ serial
                              λ m rows one. insert_policy-OneActive _ rows spelled one)

    of_row-Preserves :
        (row : Option CryptoPolicyEntity) → Preserves db OneActive (Store.of_row texts db row)
    of_row-Preserves none = pure-Preserves db OneActive _
    of_row-Preserves (some ent) = pure-Preserves db OneActive _

    get_policy-Preserves :
        (scope : OwnerScope) (id : Uuid)
        → Preserves db OneActive (Store.get_policy texts db scope id)
    unfolding Store.get_policy
    get_policy-Preserves scope id =
        bind-Preserves db OneActive _ (require-Preserves (validate_owner_scope scope) _) λ u.
          bind-Preserves db OneActive _
            (on_err-Preserves db OneActive _ _
              (statement-Preserves db OneActive _ serial λ m rows one. one))
            λ row. of_row-Preserves row

    why_not_deleted-Preserves :
        (scope : OwnerScope) (other : Option CryptoPolicyEntity)
        → Preserves db OneActive (Store.why_not_deleted texts db scope other)
    why_not_deleted-Preserves scope none = pure-Preserves db OneActive _
    why_not_deleted-Preserves scope (some other) =
        if-Preserves db OneActive (same_owner scope other) _ _
          (pure-Preserves db OneActive (err PolicyError.policy_not_found))
          (pure-Preserves db OneActive (err PolicyError.forbidden))

    explain-Preserves :
        (scope : OwnerScope) (id : Uuid) (affected : Bool)
        → Preserves db OneActive (Store.explain texts db scope id affected)
    explain-Preserves scope id true = pure-Preserves db OneActive _
    explain-Preserves scope id false =
        bind-Preserves db OneActive _
          (on_err-Preserves db OneActive _ _
            (statement-Preserves db OneActive _ serial λ m rows one. one))
          λ other. why_not_deleted-Preserves scope other

    delete_policy-Preserves :
        (scope : OwnerScope) (id : Uuid)
        → Preserves db OneActive (Store.delete_policy texts db scope id)
    unfolding Store.delete_policy
    delete_policy-Preserves scope id =
        bind-Preserves db OneActive _ (require-Preserves (validate_owner_scope scope) _) λ u.
          bind-Preserves db OneActive _
            (on_err-Preserves db OneActive _ _ (
              statement-Preserves db OneActive _ serial λ m rows h. record {
                one = λ user_id wallet. ground (
                  arith,
                  h.one user_id wallet,
                  count-update_gone (active_for user_id wallet)
                      (λ ent. owned_active scope ent && has_id id ent)
                      (Store.policy_deleted texts db m.now) rows (λ r. refl),
                );
                spelled =
                    count-update_same is_misspelled (λ ent. owned_active scope ent && has_id id ent)
                      (Store.policy_deleted texts db m.now) rows (λ r. refl)
                    ∙ h.spelled;
              }))
            λ affected. explain-Preserves scope id affected

    list-Preserves :
        (scope : OwnerScope) (scan_id : Uuid) (limit offset : ℤ)
        → Preserves db OneActive
            (Store.list_persisted_policies_for_scan texts db scope scan_id limit offset)
    unfolding Store.list_persisted_policies_for_scan
    list-Preserves scope scan_id limit offset =
        bind-Preserves db OneActive _ (require-Preserves (validate_owner_scope scope) _) λ u.
          bind-Preserves db OneActive _ (require-Preserves (not (scan_id == nil_uuid)) _) λ u.
            bind-Preserves db OneActive _
              (on_err-Preserves db OneActive _ _
                (statement-Preserves db OneActive _ serial λ m rows one. one))
              λ total.
                bind-Preserves db OneActive _
                  (on_err-Preserves db OneActive _ _
                    (statement-Preserves db OneActive _ serial λ m rows one. one))
                  λ page. pure-Preserves db OneActive _

    count_policies_by_wallet-Preserves :
        (scope : OwnerScope) (wallet : String)
        → Preserves db OneActive (Store.count_policies_by_wallet texts db scope wallet)
    unfolding Store.count_policies_by_wallet
    count_policies_by_wallet-Preserves scope wallet =
        bind-Preserves db OneActive _ (require-Preserves (validate_owner_scope scope) _) λ u.
          bind-Preserves db OneActive _ (of_wallet-Preserves _) λ needle.
            bind-Preserves db OneActive _
              (on_err-Preserves db OneActive _ _
                (statement-Preserves db OneActive _ serial λ m rows one. one))
              λ n. pure-Preserves db OneActive _

    count_policies_by_scan-Preserves :
        (scope : OwnerScope) (scan_id : Uuid)
        → Preserves db OneActive (Store.count_policies_by_scan texts db scope scan_id)
    unfolding Store.count_policies_by_scan
    count_policies_by_scan-Preserves scope scan_id =
        bind-Preserves db OneActive _ (require-Preserves (validate_owner_scope scope) _) λ u.
          bind-Preserves db OneActive _ (require-Preserves (not (scan_id == nil_uuid)) _) λ u.
            bind-Preserves db OneActive _
              (on_err-Preserves db OneActive _ _
                (statement-Preserves db OneActive _ serial λ m rows one. one))
              λ n. pure-Preserves db OneActive _

    call-OneActive :
        (k : Call) (c : db.Conn) → OneActive (db.seen c) → OneActive (db.seen (call k c))
    call-OneActive (create scope in_) = (create_policy-Preserves scope in_).at
    call-OneActive (read scope id) = (get_policy-Preserves scope id).at
    call-OneActive (delete scope id) = (delete_policy-Preserves scope id).at
    call-OneActive (list scope scan_id limit offset) =
        (list-Preserves scope scan_id limit offset).at
    call-OneActive (count_wallet scope wallet) =
        (count_policies_by_wallet-Preserves scope wallet).at
    call-OneActive (count_scan scope scan_id) = (count_policies_by_scan-Preserves scope scan_id).at

    -- Where no user has two active policies of one wallet, and every wallet is 0x and forty
    -- hexadecimal digits in lower case, so that it has one spelling, it stays so over any calls of
    -- the store on one connection, in any order and whatever each of them answers, while nobody
    -- else writes.
    pub calls-OneActive :
        (ks : List Call) (c : db.Conn) → OneActive (db.seen c) → OneActive (db.seen (calls ks c))
    calls-OneActive [] c one = one
    calls-OneActive (k ∷ ks) c one = calls-OneActive ks (call k c) (call-OneActive k c one)
