-- ===== src/Db/Scripted.antt =====
-- A database for tests: which statements fail is a list, and nobody else writes.
use cafe_persistence.Prelude.{ℕ, ◌+◌, refl, Bool, false, List, [], ◌∷◌}
use cafe_persistence.Db.{Database, IsSerial}

pub record Script (T : Type 0) : Type 0 where
  pub tables : T
  pub faults : List Bool
  pub time : ℕ

abbrev next_fault : List Bool → Bool
next_fault [] = false
next_fault (b ∷ bs) = b

abbrev later_faults : List Bool → List Bool
later_faults [] = []
later_faults (b ∷ bs) = bs

abbrev pub scripted : (T : Type 0) → Database T
scripted T = record {
  Conn = Script T;
  seen = λ c. c.tables;
  clock = λ c. record { now = c.time; fresh = c.time };
  fails = λ c. next_fault c.faults;
  next = λ c t. record { tables = t; faults = later_faults c.faults; time = c.time + 1 };
  rolled_back =
      λ c c'. record { tables = c.tables; faults = later_faults c'.faults; time = c'.time + 1 };
}

pub scripted-IsSerial : (T : Type 0) → IsSerial (scripted T)
scripted-IsSerial T = record { seen-next = λ c t. refl; seen-rolled_back = λ c c'. refl }

abbrev pub start : {T : Type 0} → T → List Bool → Script T
start t faults = record { tables = t; faults = faults; time = 100 }

-- its statements never fail
abbrev pub reliable : (T : Type 0) → Database T
reliable T = record (scripted T) { fails = λ c. false }

pub reliable-IsSerial : (T : Type 0) → IsSerial (reliable T)
reliable-IsSerial T = record { seen-next = λ c t. refl; seen-rolled_back = λ c c'. refl }
