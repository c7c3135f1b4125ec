-- ===== src/Project2/Database/Access.antt =====
-- Reading and writing records: Database::get and Database::set of project2/src/database.cpp.
use ite.Base.{
  ℕ, zero, suc, ◌+◌, ◌-◌, ◌≡◌, ◌≤◌, ◌<◌, refl, true, false, none, some, List, [], ◌∷◌, ◌==◌, arith,
  Bool-cases, inl, inr, get_elem?, if◌then◌else◌, length, ap, ◌∙◌,
}
use ite.Project2.Database.{
  Record, clone, cloned, Database, push_records, create, is_outside, get, set_record, set_value,
  default_record_value,
}

-- Record `index` stands at position `index - 1` of a vector of `num_records`.
abbrev pub Numbered : ℕ → List Record → Type 0
Numbered i [] = Unit
Numbered i (r ∷ rs) = (r.index ≡ i) × Numbered (i + 1) rs

pub record IsValid (db : Database) : Type 0 where
  pub sized : length db.records ≡ db.num_records
  pub numbered : Numbered 1 db.records

abbrev pub InRange : Database → ℕ → Type 0
InRange db index = (1 ≤ index) × (index ≤ db.num_records)

-- The value of a record, 0 for one that does not exist.
abbrev pub value_in : List Record → ℕ → ℕ
value_in [] i = 0
value_in (r ∷ rs) zero = r.value
value_in (r ∷ rs) (suc i) = value_in rs i

abbrev pub value_at : Database → ℕ → ℕ
value_at db index = value_in db.records (index - 1)

push_records-length : (i n : ℕ) → length (push_records i n) ≡ n
unfolding push_records
push_records-length i zero = refl
push_records-length i (suc n) = ap suc (push_records-length (i + 1) n)

push_records-Numbered : (i n : ℕ) → Numbered i (push_records i n)
unfolding push_records
push_records-Numbered i zero = tt
push_records-Numbered i (suc n) = (refl, push_records-Numbered (i + 1) n)

value_in-push_records : (i n k : ℕ) → k < n → value_in (push_records i n) k ≡ default_record_value
unfolding push_records
value_in-push_records i zero k h = absurd (omega arith)
value_in-push_records i (suc n) zero h = refl
value_in-push_records i (suc n) (suc k) h = value_in-push_records (i + 1) n k (omega arith)

-- A new database is valid, and every record in range has the default value.
pub create_lem :
    (n : ℕ)
    → IsValid (create n)
      × ((index : ℕ) → InRange (create n) index → value_at (create n) index ≡ default_record_value)
unfolding create
create_lem n = (
  record { sized = push_records-length 1 n; numbered = push_records-Numbered 1 n },
  λ index h. value_in-push_records 1 n (index - 1) (omega arith),
)

length-set_value : (rs : List Record) (i v : ℕ) → length (set_value rs i v) ≡ length rs
length-set_value [] i v = refl
length-set_value (r ∷ rs) zero v = refl
length-set_value (r ∷ rs) (suc i) v = ap suc (length-set_value rs i v)

Numbered-set_value :
    (k : ℕ) (rs : List Record) (i v : ℕ) → Numbered k rs → Numbered k (set_value rs i v)
Numbered-set_value k [] i v h = h
Numbered-set_value k (r ∷ rs) zero v h = h
Numbered-set_value k (r ∷ rs) (suc i) v h = (h.0, Numbered-set_value (k + 1) rs i v h.1)

pub value_in-set_value :
    (rs : List Record) (i j v : ℕ)
    → i < length rs
    → value_in (set_value rs i v) j ≡ (if i == j then v else value_in rs j)
value_in-set_value [] i j v h = elim h [ ]
value_in-set_value (r ∷ rs) zero zero v h = refl
value_in-set_value (r ∷ rs) zero (suc j) v h = ground arith
value_in-set_value (r ∷ rs) (suc i) zero v h = ground arith
value_in-set_value (r ∷ rs) (suc i) (suc j) v h =
    value_in-set_value rs i j v (omega arith) ∙ ground arith

get_elem?-Numbered :
    (k : ℕ) (rs : List Record) (i : ℕ)
    → Numbered k rs
    → i < length rs
    → cloned (get_elem? rs i) ≡ some (record { index = k + i; value = value_in rs i })
unfolding clone
get_elem?-Numbered k [] i h lt = elim lt [ ]
get_elem?-Numbered k (r ∷ rs) zero h lt = ground arith
get_elem?-Numbered k (r ∷ rs) (suc i) h lt =
    get_elem?-Numbered (k + 1) rs i h.1 (omega arith) ∙ ground arith

-- `get` returns the number and the value of a record in range.
pub get_lem :
    (db : Database) (index : ℕ)
    → IsValid db
    → InRange db index
    → get index db ≡ some (record { index = index; value = value_at db index })
unfolding get
get_lem db index v h =
    let inside : is_outside db index ≡ false = ground arith in
    rw inside (
      get_elem?-Numbered 1 db.records (index - 1) v.numbered (omega arith)
      ∙ ap (λ (i : ℕ). some (record { index = i; value = value_at db index })) (omega arith))

abbrev pub written : ℕ → ℕ → Database → Database
written index value db = record db { records = set_value db.records (index - 1) value }

pub set_record_lem :
    (db : Database) (index value : ℕ)
    → InRange db index
    → set_record index value db ≡ some (written index value db)
unfolding set_record
set_record_lem db index value h =
    let inside : is_outside db index ≡ false = ground arith in rw inside

pub written-IsValid :
    (db : Database) (index value : ℕ) → IsValid db → IsValid (written index value db)
written-IsValid db index value v = record {
  sized = omega (arith, length-set_value db.records (index - 1) value);
  numbered = Numbered-set_value 1 db.records (index - 1) value v.numbered;
}

pub value_at-written :
    (db : Database) (index other value : ℕ)
    → IsValid db
    → InRange db index
    → 1 ≤ other
    → value_at (written index value db) other
      ≡ (if index == other then value else value_at db other)
value_at-written db index other value v h pos =
    value_in-set_value db.records (index - 1) (other - 1) value (omega arith) ∙ ground arith

outside_of : (db : Database) (index : ℕ) → ¬ InRange db index → is_outside db index ≡ true
outside_of db index out = elim (Bool-cases (is_outside db index)) [
  | inl h ↦ h
  | inr h ↦ absurd (out (ground arith))
]

-- Both operations throw exactly outside the range 1 to `num_records`. In range, a write succeeds, keeps the database valid,
-- and a read afterwards returns the written value at that record and the old one at every other.
pub get-set_record :
    (db : Database) (index value : ℕ)
    → IsValid db
    → (InRange db index
        → (set_record index value db ≡ some (written index value db))
          × IsValid (written index value db)
          × ((other : ℕ)
              → InRange db other
              → get other (written index value db)
                ≡ some (record {
                  index = other;
                  value = if index == other then value else value_at db other;
                })))
      × (¬ InRange db index → (set_record index value db ≡ none) × (get index db ≡ none))
unfolding get set_record
get-set_record db index value v = (
  λ h. (
    set_record_lem db index value h,
    written-IsValid db index value v,
    λ other o.
        get_lem (written index value db) other (written-IsValid db index value v) o
        ∙ ap (λ (w : ℕ). some (record { index = other; value = w }))
            (value_at-written db index other value v h o.0),
  ),
  λ out. let outside = outside_of db index out in (rw outside, rw outside),
)
