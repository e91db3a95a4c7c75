-- ===== src/Db/Mysql.antt =====
-- db/mysql.go: the calls of a database behind results that a test gave it. What gorm is asked is a
-- value of `Ask`, and what it answers a parameter; D are the values that are read and written, Q the
-- conditions of a query, and `copy` is deepCopy over encoding/gob.
pub mod Mocks
pub mod Tests
use goms.Base.{
  ℕ, zero, suc, ◌+◌, ◌-◌, ◌*◌, Bytes, bytes_eq, Option, none, some, List, [], ◌∷◌, Bool, true,
  false, if◌then◌else◌, ◌||◌, ◌==◌,
}
use goms.Base.Int.{ℤ, pos, negsuc}
use goms.Util.HashSet.{is_blank}

pub record MockResult (D : Type 0) : Type 0 where
  pub content : D
  pub error : Option Bytes
  pub count : ℕ

-- MysqlDB: the results of a test, if it is one, and whether there is a connection.
pub record MysqlDb (D : Type 0) : Type 0 where
  pub mock : Option (List (MockResult D))
  pub connected : Bool

-- InitMysql once gorm has opened the database and migrated the tables.
abbrev pub init_mysql : {D : Type 0} → List (MockResult D) → MysqlDb D
init_mysql [] = record { mock = none; connected = true }
init_mysql (r ∷ results) = record { mock = some (r ∷ results); connected = false }

-- What gorm is asked. An order is blank and a limit 0 where none is set; an offset may be negative.
pub data Ask (D Q : Type 0) : Type 0 where
  run_sql : Bytes → Ask D Q
  first_by : List Bytes → Bytes → Bytes → Ask D Q
  first_where : Q → Ask D Q
  find_all : Option Q → Bytes → ℕ → Ask D Q
  upsert : D → Ask D Q
  update_fields : D → List Bytes → Ask D Q
  update_where : D → Bytes → Bytes → Ask D Q
  delete_where : Option Q → Ask D Q
  count_where : Option Q → Ask D Q
  page : Option Q → Bytes → ℕ → ℤ → Ask D Q

-- What a caller gets: the value that is written to its variable, the number and the error.
pub record Answer (D : Type 0) : Type 0 where
  pub content : Option D
  pub count : ℕ
  pub error : Option Bytes

-- `crashed` is the panic of a call on a nil database.
pub data Outcome (D : Type 0) : Type 0 where
  answered : Answer D → Outcome D
  crashed : Outcome D

module _ {D Q : Type 0} (copy : D → Option D) (gorm : Ask D Q → Answer D) where
  -- The first result of the test, if there is one left.
  unfoldable pub take_result : MysqlDb D → Option (MockResult D × MysqlDb D)
  take_result md = elim md.mock [
    | none ↦ none
    | some results ↦ elim results [
      | [] ↦ none
      | r ∷ rest ↦ some (r, record md { mock = some rest })
    ]
  ]

  unfoldable pub asked : Ask D Q → MysqlDb D → Outcome D × MysqlDb D
  asked question md = (if md.connected then answered (gorm question) else crashed, md)

  -- The head of the calls that fill a variable, and of those that do not.
  abbrev pub reading : (MockResult D → ℕ) → Ask D Q → MysqlDb D → Outcome D × MysqlDb D
  reading number question md = elim (take_result md) [
    | some (r, md') ↦
        (answered (record { content = copy r.content; count = number r; error = r.error }), md')
    | none ↦ asked question md
  ]

  abbrev pub writing : (MockResult D → ℕ) → Ask D Q → MysqlDb D → Outcome D × MysqlDb D
  writing number question md = elim (take_result md) [
    | some (r, md') ↦ (answered (record { content = none; count = number r; error = r.error }), md')
    | none ↦ asked question md
  ]

  abbrev pub no_count : MockResult D → ℕ
  no_count r = 0

  abbrev pub own_count : MockResult D → ℕ
  own_count r = r.count

  -- Exec takes no result of the test.
  unfoldable pub exec : Bytes → MysqlDb D → Outcome D × MysqlDb D
  unfolding asked
  exec sql md = elim md.mock [
    | some results ↦ (answered (record { content = none; count = 0; error = none }), md)
    | none ↦ asked (run_sql sql) md
  ]

  unfoldable pub query_one : Bytes → Bytes → List Bytes → MysqlDb D → Outcome D × MysqlDb D
  query_one k v fields md = reading no_count (first_by fields k v) md

  unfoldable pub query : Q → MysqlDb D → Outcome D × MysqlDb D
  query q md = reading no_count (first_where q) md

  unfoldable pub query_all : Bytes → ℕ → Option Q → MysqlDb D → Outcome D × MysqlDb D
  query_all order limit q md = reading no_count (find_all q order limit) md

  -- Save without fields writes a row that is missing.
  unfoldable pub save : D → List Bytes → MysqlDb D → Outcome D × MysqlDb D
  save row [] md = writing no_count (upsert row) md
  save row (field ∷ fields) md = writing no_count (update_fields row (field ∷ fields)) md

  unfoldable pub save_by_where : D → Bytes → Bytes → MysqlDb D → Outcome D × MysqlDb D
  save_by_where row k v md = writing no_count (update_where row k v) md

  unfoldable pub delete : Option Q → MysqlDb D → Outcome D × MysqlDb D
  delete q md = writing no_count (delete_where q) md

  -- `(index - 1) * limit`
  abbrev pub offset : ℕ → ℕ → ℤ
  offset limit zero = if limit == 0 then pos 0 else negsuc (limit - 1)
  offset limit (suc index) = pos (index * limit)

  -- An error of the page leaves no number.
  abbrev pub page_answer : Answer D → Answer D
  page_answer a = elim a.error [ none ↦ a | some e ↦ record a { count = 0 } ]

  unfoldable pub query_list : Bytes → ℕ → ℕ → Option Q → MysqlDb D → Outcome D × MysqlDb D
  query_list order limit index q md = elim (take_result md) [
    | some (r, md') ↦
        (answered (record { content = copy r.content; count = r.count; error = r.error }), md')
    | none ↦ (
      if md.connected
          then answered (page_answer (gorm (page q order limit (offset limit index))))
          else crashed,
      md,
    )
  ]

  unfoldable pub count : Option Q → MysqlDb D → Outcome D × MysqlDb D
  count q md = writing own_count (count_where q) md

-- Marshal: a field that is not among those that are named is left out.
unfoldable pub names_field : Bytes → List Bytes → Bool
names_field field [] = false
names_field field (f ∷ fields) = bytes_eq field f || names_field field fields

unfoldable pub marshal : {D : Type 0} → (D → Option Bytes) → D → Bytes → List Bytes → Bytes
unfolding names_field
marshal encode row field fields =
    let text : Bytes = elim (encode row) [ none ↦ [] | some buff ↦ buff ] in
    elim fields [ [] ↦ text | f ∷ rest ↦ if names_field field (f ∷ rest) then text else [] ]

-- Unmarshal: the text that is left and the value, or the error of the text.
unfoldable pub unmarshal : {D : Type 0} → (Bytes → Option D) → Bytes → Option (Bytes × Option D)
unmarshal decode s =
    if is_blank s
    then some (s, none)
    else elim (decode s) [ none ↦ none | some row ↦ some ([], some row) ]
