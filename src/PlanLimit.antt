-- ===== src/PlanLimit.antt =====
-- internal/persistence/planlimit/resolver.go and the lookups of the user and plan repositories that
-- it calls.
use cafe_persistence.Prelude.{
  ◌≡◌, refl, String, Bool, true, ◌&&◌, Option, none, some, if◌then◌else◌, ◌==◌, str_eq, ℤ, pos, Try,
  ok, err, Exec, pure, ◌>>=◌,
}
use cafe_persistence.Domain.{Uuid, kind_wallet, kind_endpoint}
use cafe_persistence.Domain.Plan.{Plan, User, is_unlimited}
use cafe_persistence.Db.{Error, invalid_scan_usage_kind, Moment, Database, IsSerial, statement}
use cafe_persistence.Db.Meets.{AllOrNothing, read-AllOrNothing, bind-AllOrNothing}
use cafe_persistence.Db.Table.{first}
use cafe_persistence.Tables.{Tables, is_null}

abbrev plan_limit_key_wallet : String
plan_limit_key_wallet = "wallet"

abbrev plan_limit_key_endpoint : String
plan_limit_key_endpoint = "endpoint"

unfoldable pub select_user : Uuid → Moment → Tables → Try Error (Option User) × Tables
select_user id m t = (ok (first (λ u. is_null u.deleted_at && u.id == id) t.users), t)

unfoldable pub select_plan : Uuid → Moment → Tables → Try Error (Option Plan) × Tables
select_plan id m t = (ok (first (λ p. is_null p.deleted_at && p.id == id) t.plans), t)

unfoldable pub plan_limit : Plan → String → Try Error (ℤ × Bool)
plan_limit p kind =
    if str_eq kind kind_wallet
    then ok (p.wallet_scan_limit, is_unlimited p plan_limit_key_wallet)
    else (if str_eq kind kind_endpoint
        then ok (p.endpoint_scan_limit, is_unlimited p plan_limit_key_endpoint)
        else err invalid_scan_usage_kind)

module _ (db : Database Tables) where
  abbrev of_plan : String → Option Plan → Exec db.Conn Error (ℤ × Bool)
  of_plan kind none = pure (pos 0, true)
  of_plan kind (some p) = λ c. (plan_limit p kind, c)

  abbrev of_user : String → Option User → Exec db.Conn Error (ℤ × Bool)
  of_user kind none = pure (pos 0, true)
  of_user kind (some u) = do plan ← statement db (select_plan u.plan_id); of_plan kind plan

  -- the limit, and whether the plan has none
  unfoldable pub scan_limit : Uuid → String → Exec db.Conn Error (ℤ × Bool)
  scan_limit user_id kind = do user ← statement db (select_user user_id); of_user kind user

abbrev endpoint_of_plan : Option Plan → ℤ × Bool
endpoint_of_plan none = (pos 0, true)
endpoint_of_plan (some p) = (p.endpoint_scan_limit, is_unlimited p plan_limit_key_endpoint)

abbrev plan_at : Uuid → Tables → Option Plan
plan_at id t = first (λ p. is_null p.deleted_at && p.id == id) t.plans

abbrev plan_of_user : Tables → Option User → Option Plan
plan_of_user t none = none
plan_of_user t (some u) = plan_at u.plan_id t

abbrev user_at : Uuid → Tables → Option User
user_at id t = first (λ u. is_null u.deleted_at && u.id == id) t.users

-- The limit of a user for TLS scans and whether there is none, as the tables have it.
abbrev pub endpoint_limit : Uuid → Tables → ℤ × Bool
endpoint_limit user_id t = endpoint_of_plan (plan_of_user t (user_at user_id t))

module _ (db : Database Tables) (serial : IsSerial db) {X : Type 0}
    (blame : (c : db.Conn) → db.fails c ≡ true → X) (t : Tables) where
  of_plan-AllOrNothing :
      (p : Option Plan) (c : db.Conn)
      → db.seen c ≡ t
      → AllOrNothing
          (λ a t'. (a ≡ endpoint_of_plan p) × (t' ≡ t))
          X
          t
          (of_plan db kind_endpoint p c).0
          (db.seen (of_plan db kind_endpoint p c).1)
  unfolding plan_limit
  of_plan-AllOrNothing none c e = (refl, e)
  of_plan-AllOrNothing (some p) c e = (refl, e)

  of_user-AllOrNothing :
      (u : Option User) (c : db.Conn)
      → db.seen c ≡ t
      → AllOrNothing
          (λ a t'. (a ≡ endpoint_of_plan (plan_of_user t u)) × (t' ≡ t))
          X
          t
          (of_user db kind_endpoint u c).0
          (db.seen (of_user db kind_endpoint u c).1)
  unfolding select_plan
  of_user-AllOrNothing none c e = (refl, e)
  of_user-AllOrNothing (some u) c e =
      bind-AllOrNothing db X t (plan_at u.plan_id t)
        (λ a t'. (a ≡ endpoint_of_plan (plan_of_user t (some u))) × (t' ≡ t))
        (of_plan db kind_endpoint) (statement db (select_plan u.plan_id)) c
        (read-AllOrNothing db serial blame (select_plan u.plan_id) _ c e (λ m. refl))
        (of_plan-AllOrNothing (plan_at u.plan_id t))

  pub scan_limit-AllOrNothing :
      (user_id : Uuid) (c : db.Conn)
      → db.seen c ≡ t
      → AllOrNothing
          (λ a t'. (a ≡ endpoint_limit user_id t) × (t' ≡ t))
          X
          t
          (scan_limit db user_id kind_endpoint c).0
          (db.seen (scan_limit db user_id kind_endpoint c).1)
  unfolding scan_limit select_user
  scan_limit-AllOrNothing user_id c e =
      bind-AllOrNothing db X t (user_at user_id t)
        (λ a t'. (a ≡ endpoint_limit user_id t) × (t' ≡ t)) (of_user db kind_endpoint)
        (statement db (select_user user_id)) c
        (read-AllOrNothing db serial blame (select_user user_id) _ c e (λ m. refl))
        (of_user-AllOrNothing (user_at user_id t))
