-- ===== src/Project2/Database.antt =====
-- The records: project2/include/database.hpp and project2/src/database.cpp.
-- A `record_value_t` is the bit pattern of an int64_t, a number below 2^64, on which + and - wrap.
-- An index is never negative here; a negative one fails the same test as one past the end.
pub mod Access
use ite.Base.{
  ℕ, zero, suc, ◌+◌, ◌-◌, ◌%◌, ◌^◌, ◌<◌, ◌≤◌, Bool, ◌||◌, Option, none, some, List, [], ◌∷◌, ◌==◌,
  ltb, if◌then◌else◌, get_elem?, set,
}

abbrev pub default_record_value : ℕ
default_record_value = 100

abbrev pub add64 : ℕ → ℕ → ℕ
add64 a b = (a + b) % 2 ^ 64

abbrev pub sub64 : ℕ → ℕ → ℕ
sub64 a b = (a + 2 ^ 64 - b % 2 ^ 64) % 2 ^ 64

pub record Record : Type 0 where
  pub index : ℕ
  pub value : ℕ

-- `Record(index)`
abbrev pub new_record : ℕ → Record
new_record index = record { index = index; value = default_record_value }

-- `clone`: a record is a value, so a copy is the record.
unfoldable pub clone : Record → Record
clone r = record { index = r.index; value = r.value }

pub record Database : Type 0 where
  pub num_records : ℕ
  pub records : List Record

-- The loop of the constructor from record `i` on, `n` records long.
unfoldable pub push_records : ℕ → ℕ → List Record
push_records i zero = []
push_records i (suc n) = new_record i ∷ push_records (i + 1) n

unfoldable pub create : ℕ → Database
unfolding push_records
create num_records = record { num_records = num_records; records = push_records 1 num_records }

-- `index > numRecords || index <= 0`, where the code throws -1, which is `none` here.
abbrev pub is_outside : Database → ℕ → Bool
is_outside db index = ltb db.num_records index || index == 0

abbrev pub cloned : Option Record → Option Record
cloned none = none
cloned (some r) = some (clone r)

unfoldable pub get : ℕ → Database → Option Record
unfolding clone
get index db = if is_outside db index then none else cloned (get_elem? db.records (index - 1))

abbrev pub set_value : List Record → ℕ → ℕ → List Record
set_value [] i v = []
set_value (r ∷ rs) zero v = record r { value = v } ∷ rs
set_value (r ∷ rs) (suc i) v = r ∷ set_value rs i v

unfoldable pub set_record : ℕ → ℕ → Database → Option Database
set_record index value db =
    if is_outside db index
    then none
    else some (record db { records = set_value db.records (index - 1) value })
