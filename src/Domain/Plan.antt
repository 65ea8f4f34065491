-- ===== src/Domain/Plan.antt =====
-- internal/domain/plan.go and user.go: the columns that quota reads. A limit is a Go int.
use cafe_persistence.Prelude.{
  ℕ, zero, String, Option, Bool, true, false, if◌then◌else◌, str_eq, ℤ, pos,
}
use cafe_persistence.Domain.{Uuid}

pub record Plan : Type 0 where
  pub id : Uuid
  pub wallet_scan_limit : ℤ
  pub endpoint_scan_limit : ℤ
  pub deleted_at : Option ℕ

pub record User : Type 0 where
  pub id : Uuid
  pub plan_id : Uuid
  pub deleted_at : Option ℕ

abbrev is_zero : ℤ → Bool
is_zero (pos zero) = true
is_zero _ = false

unfoldable pub is_unlimited : Plan → String → Bool
is_unlimited p scan_type =
    if str_eq scan_type "wallet"
    then is_zero p.wallet_scan_limit
    else (if str_eq scan_type "endpoint" then is_zero p.endpoint_scan_limit else false)
