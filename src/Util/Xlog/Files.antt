-- ===== src/Util/Xlog/Files.antt =====
-- The files of util/xlog.go: the lines of a day stand in the file of the day.
use goms.Base.{
  Bytes, bytes_eq, bytes_Eq, bytes_eq_iff, bytes_eq_sound, insert, lookup-insert, Option, none,
  some, List, [], ◌∷◌, ◌++◌, append_assoc, append-nil, Bool, true, false, if◌then◌else◌, ◌≡◌, refl,
  sym, ap, arith, ◌∙◌, Bool-cases, inl, inr, Option-cases,
}
use goms.Util.Xlog.{
  Param, Content, GosLog, opened, check_time, json_line, lines_at, file_name, write_log, write_logs,
}

module _ (path : Bytes) (opens : Bytes → Bool) (marshal : List (Bytes × Param) → Option Bytes) where
  -- The open file is that of the logger's day, if it can be opened.
  abbrev pub IsOpen : GosLog → Type 0
  IsOpen l = l.log_file ≡ opened path opens marshal l.name l.time

  -- The lines of the messages whose day has this file.
  abbrev pub lines_of : Bytes → Bytes → List (Bytes × Content) → List Bytes
  lines_of name file [] = []
  lines_of name file ((day, c) ∷ rest) =
      let more = lines_of name file rest in
      if bytes_eq (file_name path name day) file
      then json_line path opens marshal c ∷ more
      else more

  check_time-IsOpen :
      (day : Bytes) (l : GosLog)
      → IsOpen l
      → ((check_time path opens marshal day l).log_file ≡ opened path opens marshal l.name day)
        × ((check_time path opens marshal day l).name ≡ l.name)
        × ((check_time path opens marshal day l).time ≡ day)
  unfolding check_time
  check_time-IsOpen day l h = elim (Bool-cases (bytes_eq day l.time)) [
    | inl same ↦
        rw (same, check_time)
          (
            h ∙ ap (opened path opens marshal l.name) (sym (bytes_eq_sound day l.time same)),
            refl,
            sym (bytes_eq_sound day l.time same),
          )
    | inr new ↦ rw (new, check_time) (refl, refl, refl)
  ]

  write_log-logger :
      (day : Bytes) (c : Content) (l : GosLog) (files : List (Bytes × List Bytes))
      → (write_log path opens marshal day c l files).0 ≡ check_time path opens marshal day l
  unfolding write_log
  write_log-logger day c l files =
      elim (Option-cases (check_time path opens marshal day l).log_file) [
        | inl lost ↦ rw (lost, write_log) refl
        | inr (file, e) ↦ rw (e, write_log) refl
      ]

  lines_at-insert :
      (name file : Bytes) (lines : List Bytes) (files : List (Bytes × List Bytes))
      → lines_at path opens marshal file (insert name lines files)
        ≡ (if bytes_eq name file then lines else lines_at path opens marshal file files)
  lines_at-insert name file lines files = ground (arith, lookup-insert name file lines files)

  written : Bytes → Bytes → Bytes → Content → List Bytes
  written name file day c =
      if bytes_eq (file_name path name day) file then json_line path opens marshal c ∷ [] else []

  write_log-lines :
      (file day : Bytes) (c : Content) (l : GosLog) (files : List (Bytes × List Bytes))
      → opens file ≡ true
      → IsOpen l
      → lines_at path opens marshal file (write_log path opens marshal day c l files).1
        ≡ lines_at path opens marshal file files ++ written l.name file day c
  unfolding write_log written
  write_log-lines file day c l files can h =
      let here = file_name path l.name day in
      let now = (check_time-IsOpen day l h).0 in
      elim (Bool-cases (opens here)) [
        | inl able ↦
            let e : (check_time path opens marshal day l).log_file ≡ some here =
              now ∙ rw able refl in
            rw (e, write_log)
              (lines_at-insert here file
                  (lines_at path opens marshal here files ++ json_line path opens marshal c ∷ [])
                  files
                ∙ (elim (Bool-cases (bytes_eq here file)) [
                  | inl same ↦ rw same (
                      ap
                        (λ k.
                          lines_at path opens marshal k files
                          ++ json_line path opens marshal c ∷ [])
                        (bytes_eq_sound here file same))
                  | inr other ↦ rw other (sym (append-nil (lines_at path opens marshal file files)))
                ]))
        | inr unable ↦
            let e : (check_time path opens marshal day l).log_file ≡ none = now ∙ rw unable refl in
            let apart : bytes_eq here file ≡ false =
              ground (arith, bytes_eq_iff here file, ap opens) in
            rw (e, write_log) (rw apart (sym (append-nil (lines_at path opens marshal file files))))
      ]

  write_log-IsOpen :
      (day : Bytes) (c : Content) (l : GosLog) (files : List (Bytes × List Bytes))
      → IsOpen l
      → IsOpen (write_log path opens marshal day c l files).0
        × ((write_log path opens marshal day c l files).0.name ≡ l.name)
  write_log-IsOpen day c l files h =
      let (file, name, time) = check_time-IsOpen day l h in
      rw (write_log-logger day c l files) (
        file
            ∙ ap (λ n. opened path opens marshal n day) (sym name)
            ∙ ap (opened path opens marshal (check_time path opens marshal day l).name) (sym time),
        name,
      )

  written-append :
      (name file day : Bytes) (c : Content) (rest : List (Bytes × Content))
      → written name file day c ++ lines_of name file rest ≡ lines_of name file ((day, c) ∷ rest)
  unfolding written
  written-append name file day c rest = ground arith

  -- From a logger whose file is that of its day: after any messages, each written on its day, a
  -- file that can be opened has its earlier lines and then those of the messages of its days, in
  -- order, whatever order the days came in.
  pub lines_at-write_logs :
      (file : Bytes) (rounds : List (Bytes × Content)) (l : GosLog)
      (files : List (Bytes × List Bytes))
      → opens file ≡ true
      → IsOpen l
      → lines_at path opens marshal file (write_logs path opens marshal rounds l files).1
        ≡ lines_at path opens marshal file files ++ lines_of l.name file rounds
  unfolding write_logs
  lines_at-write_logs file [] l files can h =
      sym (append-nil (lines_at path opens marshal file files))
  lines_at-write_logs file ((day, c) ∷ rest) l files can h =
      let next = write_log path opens marshal day c l files in
      let (open_next, name) = write_log-IsOpen day c l files h in
      lines_at-write_logs file rest next.0 next.1 can open_next
      ∙ ap (λ n. lines_at path opens marshal file next.1 ++ lines_of n file rest) name
      ∙ ap (λ k. k ++ lines_of l.name file rest) (write_log-lines file day c l files can h)
      ∙ append_assoc (lines_at path opens marshal file files) (written l.name file day c)
          (lines_of l.name file rest)
      ∙ ap (λ k. lines_at path opens marshal file files ++ k)
          (written-append l.name file day c rest)
