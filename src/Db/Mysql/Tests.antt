-- ===== src/Db/Mysql/Tests.antt =====
-- A test's results for db/mysql.go, and the theorem at them.
use goms.Base.{ℕ, Bytes, codes, Option, none, some, List, [], ◌∷◌, ◌≡◌, refl}
use goms.Db.Mysql.{MockResult, init_mysql, Ask, Answer, answered, crashed, marshal}
use goms.Db.Mysql.Mocks.{Call, queries_list, execs, saves, counts, run_calls, run_calls-replies}

abbrev row : ℕ → MockResult ℕ
row n = record { content = n; error = none; count = 10 }

abbrev gorm : Ask ℕ Bytes → Answer ℕ
gorm question = record { content = none; count = 0; error = none }

abbrev calls : List (Call ℕ Bytes)
calls =
    queries_list [] 5 1 (some (codes "id"))
    ∷ execs (codes "select 1")
    ∷ saves 3 []
    ∷ counts none
    ∷ []

run_calls-replies_example :
    run_calls some gorm calls (init_mysql (row 7 ∷ row 8 ∷ []))
    ≡ answered (record { content = some 7; count = 10; error = none })
      ∷ answered (record { content = none; count = 0; error = none })
      ∷ answered (record { content = none; count = 0; error = none })
      ∷ crashed
      ∷ []
run_calls-replies_example = run_calls-replies some gorm calls (row 7) (row 8 ∷ [])

left_out : marshal (λ (n : ℕ). some (codes "{}")) 3 (codes "a") (codes "b" ∷ []) ≡ []
unfolding marshal goms.Base.bytes_eq
left_out = refl
