-- ===== src/Db/Mysql/Mocks.antt =====
-- The results that a test gives to the database of db/mysql.go.
use goms.Base.{false, ℕ, Bytes, Option, none, some, List, [], ◌∷◌, ◌≡◌, refl, ap}
use goms.Db.Mysql.{
  MockResult, MysqlDb, init_mysql, Ask, Answer, Outcome, answered, crashed, take_result, asked,
  exec, query_one, query, query_all, save, save_by_where, delete, query_list, count,
}

-- A call of the database.
pub data Call (D Q : Type 0) : Type 0 where
  execs : Bytes → Call D Q
  queries_one : Bytes → Bytes → List Bytes → Call D Q
  queries : Q → Call D Q
  queries_all : Bytes → ℕ → Option Q → Call D Q
  saves : D → List Bytes → Call D Q
  saves_by_where : D → Bytes → Bytes → Call D Q
  deletes : Option Q → Call D Q
  queries_list : Bytes → ℕ → ℕ → Option Q → Call D Q
  counts : Option Q → Call D Q

module _ {D Q : Type 0} (copy : D → Option D) (gorm : Ask D Q → Answer D) where
  unfoldable call_db : Call D Q → MysqlDb D → Outcome D × MysqlDb D
  unfolding exec query_one query query_all save save_by_where delete query_list count
  call_db (execs sql) md = exec copy gorm sql md
  call_db (queries_one k v fields) md = query_one copy gorm k v fields md
  call_db (queries q) md = query copy gorm q md
  call_db (queries_all order limit q) md = query_all copy gorm order limit q md
  call_db (saves row fields) md = save copy gorm row fields md
  call_db (saves_by_where row k v) md = save_by_where copy gorm row k v md
  call_db (deletes q) md = delete copy gorm q md
  call_db (queries_list order limit index q) md = query_list copy gorm order limit index q md
  call_db (counts q) md = count copy gorm q md

  unfoldable pub run_calls : List (Call D Q) → MysqlDb D → List (Outcome D)
  unfolding call_db
  run_calls [] md = []
  run_calls (c ∷ cs) md = let (o, md') = call_db c md in o ∷ run_calls cs md'

  -- What a call makes of a result of the test.
  abbrev pub answer_of : Call D Q → MockResult D → Answer D
  answer_of (execs sql) r = record { content = none; count = 0; error = none }
  answer_of (queries_one k v fields) r = record {
    content = copy r.content;
    count = 0;
    error = r.error;
  }
  answer_of (queries q) r = record { content = copy r.content; count = 0; error = r.error }
  answer_of (queries_all order limit q) r = record {
    content = copy r.content;
    count = 0;
    error = r.error;
  }
  answer_of (saves row fields) r = record { content = none; count = 0; error = r.error }
  answer_of (saves_by_where row k v) r = record { content = none; count = 0; error = r.error }
  answer_of (deletes q) r = record { content = none; count = 0; error = r.error }
  answer_of (queries_list order limit index q) r = record {
    content = copy r.content;
    count = r.count;
    error = r.error;
  }
  answer_of (counts q) r = record { content = none; count = r.count; error = r.error }

  -- Each call but Exec takes the next result; one that finds none left panics.
  abbrev pub replies : List (Call D Q) → List (MockResult D) → List (Outcome D)
  replies [] results = []
  replies (execs sql ∷ cs) results =
      answered (record { content = none; count = 0; error = none }) ∷ replies cs results
  replies (c ∷ cs) [] = crashed ∷ replies cs []
  replies (c ∷ cs) (r ∷ results) = answered (answer_of c r) ∷ replies cs results

  in_test : List (MockResult D) → MysqlDb D
  in_test results = record { mock = some results; connected = false }

  run_calls-in_test :
      (cs : List (Call D Q)) (results : List (MockResult D))
      → run_calls cs (in_test results) ≡ replies cs results
  unfolding run_calls take_result asked in_test
  run_calls-in_test [] results = refl
  run_calls-in_test (execs sql ∷ cs) results =
      ap (λ os. answered (record { content = none; count = 0; error = none }) ∷ os)
        (run_calls-in_test cs results)
  run_calls-in_test (queries_one k v fields ∷ cs) [] =
      ap (λ os. crashed ∷ os) (run_calls-in_test cs [])
  run_calls-in_test (queries_one k v fields ∷ cs) (r ∷ results) =
      ap (λ os. answered (answer_of (queries_one k v fields) r) ∷ os) (run_calls-in_test cs results)
  run_calls-in_test (queries q ∷ cs) [] = ap (λ os. crashed ∷ os) (run_calls-in_test cs [])
  run_calls-in_test (queries q ∷ cs) (r ∷ results) =
      ap (λ os. answered (answer_of (queries q) r) ∷ os) (run_calls-in_test cs results)
  run_calls-in_test (queries_all order limit q ∷ cs) [] =
      ap (λ os. crashed ∷ os) (run_calls-in_test cs [])
  run_calls-in_test (queries_all order limit q ∷ cs) (r ∷ results) =
      ap (λ os. answered (answer_of (queries_all order limit q) r) ∷ os)
        (run_calls-in_test cs results)
  run_calls-in_test (saves row [] ∷ cs) [] = ap (λ os. crashed ∷ os) (run_calls-in_test cs [])
  run_calls-in_test (saves row [] ∷ cs) (r ∷ results) =
      ap (λ os. answered (answer_of (saves row []) r) ∷ os) (run_calls-in_test cs results)
  run_calls-in_test (saves row (field ∷ fields) ∷ cs) [] =
      ap (λ os. crashed ∷ os) (run_calls-in_test cs [])
  run_calls-in_test (saves row (field ∷ fields) ∷ cs) (r ∷ results) =
      ap (λ os. answered (answer_of (saves row (field ∷ fields)) r) ∷ os)
        (run_calls-in_test cs results)
  run_calls-in_test (saves_by_where row k v ∷ cs) [] =
      ap (λ os. crashed ∷ os) (run_calls-in_test cs [])
  run_calls-in_test (saves_by_where row k v ∷ cs) (r ∷ results) =
      ap (λ os. answered (answer_of (saves_by_where row k v) r) ∷ os) (run_calls-in_test cs results)
  run_calls-in_test (deletes q ∷ cs) [] = ap (λ os. crashed ∷ os) (run_calls-in_test cs [])
  run_calls-in_test (deletes q ∷ cs) (r ∷ results) =
      ap (λ os. answered (answer_of (deletes q) r) ∷ os) (run_calls-in_test cs results)
  run_calls-in_test (queries_list order limit index q ∷ cs) [] =
      ap (λ os. crashed ∷ os) (run_calls-in_test cs [])
  run_calls-in_test (queries_list order limit index q ∷ cs) (r ∷ results) =
      ap (λ os. answered (answer_of (queries_list order limit index q) r) ∷ os)
        (run_calls-in_test cs results)
  run_calls-in_test (counts q ∷ cs) [] = ap (λ os. crashed ∷ os) (run_calls-in_test cs [])
  run_calls-in_test (counts q ∷ cs) (r ∷ results) =
      ap (λ os. answered (answer_of (counts q) r) ∷ os) (run_calls-in_test cs results)

  -- A database that a test gave results to answers each call but Exec with the next of them, and
  -- Exec with no error; every call but Exec that finds none left panics.
  pub run_calls-replies :
      (cs : List (Call D Q)) (r : MockResult D) (results : List (MockResult D))
      → run_calls cs (init_mysql (r ∷ results)) ≡ replies cs (r ∷ results)
  unfolding in_test
  run_calls-replies cs r results = run_calls-in_test cs (r ∷ results)
