-- ===== src/ScanApi/Answers.antt =====
-- When ApplyWalletTransition of internal/scanapi/transition.go gets past its guards.
use cafe_persistence.Prelude.{◌≡◌, refl, Bool, false, some, str_eq, ◌==◌, Try, ok, pure, continue}
use cafe_persistence.Domain.{Uuid, nil_uuid}
use cafe_persistence.Db.{IsSerial}
use cafe_persistence.WalletTransition.{Command}
use cafe_persistence.ScanApi.Text.{trim_space}
use cafe_persistence.ScanApi.Http.{
  Response, HttpRequest, Backend, Session, found, require_user_id, parse_scan_id_path,
}
use cafe_persistence.ScanApi.TransitionRoute.{
  transition_response, transition, apply_wallet_transition,
}
use cafe_persistence.ScanApi.Projection.{project_transition-Projects}
use cafe_persistence.ScanApi.Transitions.{applied_to, apply_command_lem, Commands}

-- The header and the path are given, and the user is not the nil UUID.
pub record IsAddressed (b : Backend) (r : HttpRequest) (user_id : Uuid) : Type 0 where
  pub header : str_eq (trim_space r.header_user_id) "" ≡ false
  pub path : str_eq (trim_space r.path_scan_id) "" ≡ false
  pub user : (user_id == nil_uuid) ≡ false

module _ (b : Backend) (r : HttpRequest) (s : Session b) (scan_id : Uuid) (cmd : Command)
    (k : Commands b r scan_id cmd) (a : IsAddressed b r k.user_id) where
  -- The guards let the command through to its transition.
  pub addressed-transition : apply_wallet_transition b r s ≡ transition b scan_id (some cmd) s
  unfolding apply_wallet_transition require_user_id parse_scan_id_path found
  addressed-transition = rw (a.header, k.header, a.user, a.path, k.path, k.decoded, k.command) refl

  projected-ok :
      {E A B : Type 0} {C : Type 0} (q : Try E A) (x : A) (f : A → B) (c : C)
      → q ≡ ok x
      → (continue q (λ y. pure (f y)) c).0 ≡ ok (f x)
  projected-ok q x f c e = rw e refl

  pub addressed-ok :
      IsSerial b.cache
      → IsSerial b.bus
      → (response : Response) × ((apply_wallet_transition b r s).0 ≡ ok response)
  addressed-ok cache bus =
      let (res, c) = applied_to b scan_id cmd s in
      let (flags, answer, projects) =
        project_transition-Projects b cache bus res (record s { sql = c }) in
      (
        transition_response res flags.0 flags.1,
        rw (addressed-transition, apply_command_lem b scan_id cmd s)
            (projected-ok _ flags (λ (f : Bool × Bool). transition_response res f.0 f.1) _ answer),
      )
