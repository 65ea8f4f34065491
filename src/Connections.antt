-- ===== src/Connections.antt =====
-- pkg/postgres/postgres.go: the DSN of New and maskDSN, which Run applies before it logs. Go counts
-- bytes and the model characters; the text that is searched is ASCII. viper, gorm and the client
-- libraries of NATS and Redis are not modelled.
pub mod Masked
use Prim.Native.Char.{Char}
use Prim.Native.String.{◌++◌}
use cafe_persistence.Prelude.{String, ◌≡◌, refl, Bool, Option, none, some, if◌then◌else◌, str_eq}
use cafe_persistence.ScanApi.Text.{drop, has_prefix}

-- the values that viper holds
pub record PostgresConfig : Type 0 where
  pub host : String
  pub port : String
  pub user : String
  pub password : String
  pub dbname : String
  pub sslmode : String

unfoldable pub dsn_head : PostgresConfig → String
dsn_head c = "host=" ++ (c.host ++ (" port=" ++ (c.port ++ (" user=" ++ c.user))))

unfoldable pub dsn_tail : PostgresConfig → String
dsn_tail c = " dbname=" ++ (c.dbname ++ (" sslmode=" ++ c.sslmode))

-- the Sprintf of New
unfoldable pub dsn : PostgresConfig → String
dsn c = dsn_head c ++ (" password=" ++ (c.password ++ dsn_tail c))

-- the inner loop: from the next space on
unfoldable pub from_space : String → String
from_space String.[] = String.[]
from_space (String.◌∷◌ c s) =
    let rest = from_space s in if str_eq (String.◌∷◌ c String.[]) " " then String.◌∷◌ c s else rest

abbrev pub prepend : Char → Option String → Option String
prepend c none = none
prepend c (some s) = some (String.◌∷◌ c s)

-- the outer loop; `none` where "password=" is not found
unfoldable pub mask_from : String → Option String
unfolding from_space
mask_from String.[] = none
mask_from (String.◌∷◌ c s) =
    let rest = mask_from s in
    if has_prefix "password=" (String.◌∷◌ c s)
    then some ("password=***" ++ from_space (drop 9 (String.◌∷◌ c s)))
    else prepend c rest

abbrev pub or_stars : Option String → String
or_stars none = "***"
or_stars (some s) = s

unfoldable pub mask_dsn : String → String
unfolding mask_from
mask_dsn s = or_stars (mask_from s)

masks : mask_dsn "host=a password=secret dbname=d" ≡ "host=a password=*** dbname=d"
unfolding mask_dsn
masks = refl

-- What follows a space is shown.
shows_rest : mask_dsn "password=two words dbname=d" ≡ "password=*** words dbname=d"
unfolding mask_dsn
shows_rest = refl
