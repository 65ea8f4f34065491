-- ===== src/ScanApi/Accepted.antt =====
-- What holds of every command that transitionCommand lets through to Apply.
use cafe_persistence.Prelude.{
  String, ◌≡◌, refl, sym, ap, subst, Bool, true, false, not, ◌||◌, Option, none, some, inl, inr,
  arith, if◌then◌else◌, ◌==◌, ==_iff, str_eq, str_eq_iff, Try, ok, Bool-cases,
}
use cafe_persistence.Domain.{Uuid, nil_uuid, ScanResult, ScanResultEntity}
use cafe_persistence.Domain.Entity.{Codec, ensure_scan_result_delegations}
use cafe_persistence.Domain.WalletKind.{normalize_scan_result_wallet_kind}
use cafe_persistence.Db.{Error}
use cafe_persistence.Scan.{success, failed, running}
use cafe_persistence.WalletTransition.{Command}
use cafe_persistence.WalletTransition.Rows.{new_row}
use cafe_persistence.ScanApi.Transition.{
  TransitionBody, Request, quota_for_target, known_sources, normalize_address, payload, of_user,
  command_of, is_quota, success_payload, transition_command,
}
use cafe_persistence.ScanApi.Text.{trim_space}

pub record IsCommand (req : Request) (cmd : Command) : Type 0 where
  pub owner : cmd.user_id ≡ req.header_user
  pub not_nil : (cmd.user_id == nil_uuid) ≡ false
  pub addressed : str_eq cmd.address "" ≡ false
  pub named : str_eq cmd.transition_id "" ≡ false
  pub sources : known_sources cmd.source_states ≡ true
  pub quota : quota_for_target cmd.target_state ≡ some cmd.quota_action
  pub carried :
      str_eq cmd.target_state success ≡ true
      → (r : ScanResult) × (cmd.result ≡ some r) × (r.address ≡ cmd.address)

-- Past a guard, it did not hold.
past :
    {A : Type 0} (b : Bool) (m : Option A) (x : A)
    → (if b then none else m) ≡ some x
    → (b ≡ false) × (m ≡ some x)
past true m x h = cc
past false m x h = (refl, h)

kept :
    {A : Type 0} (b : Bool) (x y : A) → (if b then some x else none) ≡ some y → (b ≡ true) × (x ≡ y)
kept true x y h = (refl, cc)
kept false x y h = cc

some_same : {A : Type 0} {x y : A} → some x ≡ some y → x ≡ y
some_same h = cc

not_running : (t : String) → t ≡ success → str_eq t running ≡ false
not_running t e = rw e refl

either_ok :
    {A : Type 0} (b : Bool) (x y : A)
    → (z : A) × (◌≡◌ {A = Try Error A} (if b then ok x else ok y) (ok z))
either_ok true x y = (x, refl)
either_ok false x y = (y, refl)

command-writable :
    (codec : Codec) (scan_id : Uuid) (cmd : Command)
    → (str_eq cmd.target_state success ≡ true
        → (r : ScanResult) × (cmd.result ≡ some r) × (r.address ≡ cmd.address))
    → (new : ScanResultEntity) × (new_row codec scan_id cmd ≡ ok new)
unfolding new_row ensure_scan_result_delegations normalize_scan_result_wallet_kind
command-writable codec scan_id cmd carried = elim (Bool-cases (str_eq cmd.target_state success)) [
  | inl win ↦ rw (win, (carried win).1) (_, refl)
  | inr lost ↦ rw lost (either_ok (str_eq cmd.target_state failed) _ _)
]

module _ (req : Request) where
  success_carries :
      (address : String) (r : Option ScanResult) (e : Option String)
      (p : Option ScanResult × String)
      → success_payload req address r e ≡ some p
      → (r' : ScanResult) × (p.0 ≡ some r') × (r'.address ≡ address)
  success_carries address none e p h = cc
  success_carries address (some r) (some e) p h = cc
  success_carries address (some r) none p h =
      let address' = normalize_address req r.address in
      let k = kept (str_eq address' address) _ p h in
      (
        record r { address = address' },
        ap (λ q. q.0) (sym k.1),
        (str_eq_iff address' address).0 k.0,
      )

  payload_carries :
      (body : TransitionBody) (address : String) (p : Option ScanResult × String)
      → payload req body address ≡ some p
      → str_eq body.target_state success ≡ true
      → (r : ScanResult) × (p.0 ≡ some r) × (r.address ≡ address)
  unfolding payload
  payload_carries body address p h target = success_carries address body.result body.error p (
      rw (not_running body.target_state ((str_eq_iff body.target_state success).0 target), target)
        at h)

  is_quota-some :
      (quota : Option String) (action : String)
      → is_quota req quota action ≡ true
      → quota ≡ some action
  is_quota-some none action h = cc
  is_quota-some (some q) action h = ap some (sym ((str_eq_iff action q).0 h))

  command_of-IsCommand :
      (body : TransitionBody) (user_id : Uuid) (address : String)
      (p : Option (Option ScanResult × String)) (cmd : Command)
      → payload req body address ≡ p
      → (user_id == nil_uuid || not (user_id == req.header_user)) ≡ false
      → (str_eq address ""
          || str_eq (trim_space body.transition_id) ""
          || not (known_sources body.source_states))
        ≡ false
      → quota_for_target body.target_state ≡ some body.quota_action
      → command_of req body user_id address p ≡ some cmd
      → IsCommand req cmd
  command_of-IsCommand body user_id address none cmd e user rest quota h = cc
  command_of-IsCommand body user_id address (some p) cmd e user rest quota h =
      subst (IsCommand req) (some_same h) (record {
        owner = ground (arith, user, ==_iff user_id req.header_user);
        not_nil = ground (arith, user);
        addressed = ground (arith, rest);
        named = ground (arith, rest);
        sources = ground (arith, rest);
        quota = quota;
        carried = payload_carries body address p e;
      })

  of_user-IsCommand :
      (body : TransitionBody) (user : Option Uuid) (cmd : Command)
      → of_user req body user ≡ some cmd
      → IsCommand req cmd
  of_user-IsCommand body none cmd h = cc
  of_user-IsCommand body (some user_id) cmd h =
      let (owned, h₁) = past _ _ cmd h in
      let (formed, h₂) = past _ _ cmd h₁ in
      let (priced, h₃) =
        past (not (is_quota req (quota_for_target body.target_state) body.quota_action)) _ cmd h₂ in
      command_of-IsCommand body user_id (normalize_address req body.address) _ cmd refl owned formed
        (is_quota-some _ body.quota_action (ground (arith, priced))) h₃

  -- A body that is let through gives a command of the request's own user, which is not nil, with a
  -- transition id, an address, known source states and the quota action of its target; a SUCCESS
  -- command carries a result for the same address.
  pub transition_command-IsCommand :
      (body : TransitionBody) (cmd : Command)
      → transition_command req body ≡ some cmd
      → IsCommand req cmd
  unfolding transition_command
  transition_command-IsCommand body cmd h =
      of_user-IsCommand body (req.parse_uuid (trim_space body.user_id)) cmd h

-- Apply can write the row of every command that is let through: in Go, no nil result is
-- dereferenced.
pub transition_command-writable :
    (codec : Codec) (req : Request) (body : TransitionBody) (cmd : Command) (scan_id : Uuid)
    → transition_command req body ≡ some cmd
    → (new : ScanResultEntity) × (new_row codec scan_id cmd ≡ ok new)
transition_command-writable codec req body cmd scan_id h =
    command-writable codec scan_id cmd (transition_command-IsCommand req body cmd h).carried
