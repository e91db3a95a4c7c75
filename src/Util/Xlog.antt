-- ===== src/Util/Xlog.antt =====
-- util/xlog.go: which messages a logger takes, how it lays them out, and which file it writes them
-- to. The date and the place of the caller are inputs; `shown` is what fmt.Sprint makes of a value,
-- `opens` says which files can be opened, and a file is its lines. The console gets the same messages.
pub mod Lines
pub mod Files
pub mod Tests
use goms.Base.{
  ℕ, zero, suc, ◌+◌, ◌-◌, ◌/◌, Bytes, codes, bytes_eq, bytes_Eq, lookup, insert, Option, none, some,
  List, [], ◌∷◌, ◌++◌, Bool, true, false, if◌then◌else◌, ◌==◌, ltb, leb, length, replicate,
}
use goms.Base.Int.{ℤ, pos, negsuc}
use goms.Base.Decimal.{format_nat}

-- A value of `Param`: a text, or another one.
pub data Param : Type 0 where
  text : Bytes → Param
  other : ℕ → Param

pub record LogTime : Type 0 where
  pub year : ℕ
  pub month : ℕ
  pub day : ℕ
  pub hour : ℕ
  pub min : ℕ
  pub sec : ℕ
  pub nanosecond : ℕ

-- GosLogContent
pub record Content : Type 0 where
  pub message : Bytes
  pub now : LogTime
  pub file : Bytes
  pub line : ℕ
  pub level : Bytes
  pub params : List Param

-- GosLog without its plugins; `log_file` is the name of the open file, if there is one.
pub record GosLog : Type 0 where
  pub name : Bytes
  pub level : ℤ
  pub log_file : Option Bytes
  pub time : Bytes

pub data Level : Type 0 where
  trace : Level
  debug : Level
  warn : Level
  error : Level
  info : Level
  fatal : Level

abbrev pub rank : Level → ℕ
rank trace = 0
rank debug = 1
rank warn = 2
rank error = 3
rank info = 4
rank fatal = 5

-- logText
abbrev pub log_text : Level → Bytes
log_text trace = codes "TRAC"
log_text debug = codes "DEBU"
log_text warn = codes "WARN"
log_text error = codes "ERRO"
log_text info = codes "INFO"
log_text fatal = codes "FATA"

abbrev pub escape : Bytes → Bytes
escape s = 27 ∷ (b'[' ∷ s)

-- logColor: the texts left and right of a level.
abbrev pub log_color : List (Bytes × Bytes × Bytes)
log_color =
    (codes "TRAC", [], [])
    ∷ (codes "DEBU", escape (codes "35m"), escape (codes "0m"))
    ∷ (codes "WARN", escape (codes "34m"), escape (codes "0m"))
    ∷ (codes "ERRO", escape (codes "31m"), escape (codes "0m"))
    ∷ (codes "INFO", escape (codes "37m"), escape (codes "0m"))
    ∷ (codes "FATA", escape (codes "31m"), escape (codes "0m"))
    ∷ []

-- A level without colours is the panic of a nil entry.
abbrev pub color_of : Bytes → List (Bytes × Bytes × Bytes) → Option (Bytes × Bytes)
color_of level [] = none
color_of level ((name, left, right) ∷ colors) =
    if bytes_eq name level then some (left, right) else color_of level colors

-- What stands behind the last slash, if there is one.
unfoldable pub after_slash : Bytes → Option Bytes
after_slash [] = none
after_slash (c ∷ s) = elim (after_slash s) [
  | some rest ↦ some rest
  | none ↦ if c == b'/' then some s else none
]

-- The loops of textFormat and jsonFormat for the file's short name: the first byte is not looked at.
unfoldable pub short_name : Bytes → Bytes
unfolding after_slash
short_name [] = []
short_name (c ∷ s) = elim (after_slash s) [ none ↦ c ∷ s | some rest ↦ rest ]

-- `%0wd`
abbrev pub padded : ℕ → ℕ → Bytes
padded w n = let digits = format_nat n in replicate (w - length digits) b'0' ++ digits

abbrev pub joined : List Bytes → Bytes
joined [] = []
joined (s ∷ parts) = s ++ joined parts

unfoldable pub format_time : LogTime → Bytes
unfolding format_nat
format_time t = joined (
    padded 4 t.year
    ∷ codes "-"
    ∷ padded 2 t.month
    ∷ codes "-"
    ∷ padded 2 t.day
    ∷ codes " "
    ∷ padded 2 t.hour
    ∷ codes ":"
    ∷ padded 2 t.min
    ∷ codes ":"
    ∷ padded 2 t.sec
    ∷ codes "."
    ∷ padded 6 (t.nanosecond / 1000)
    ∷ [])

-- The parameters by twos; one that is left over is dropped.
unfoldable pub pairs : List Param → List (Param × Param)
pairs [] = []
pairs (p ∷ []) = []
pairs (p ∷ q ∷ params) = (p, q) ∷ pairs params

-- The parameters whose name is a text become fields.
unfoldable pub add_fields : List (Param × Param) → List (Bytes × Param) → List (Bytes × Param)
add_fields [] m = m
add_fields ((text key, value) ∷ rest) m = add_fields rest (insert key value m)
add_fields ((other n, value) ∷ rest) m = add_fields rest m

abbrev pub own_fields : Content → List (Bytes × Param)
own_fields c = insert (codes "msg") (text c.message) (
    insert (codes "level") (text c.level) (
      insert (codes "line") (text (short_name c.file ++ b':' ∷ format_nat c.line))
        (insert (codes "time") (text (format_time c.now)) [])))

-- The map of jsonFormat.
unfoldable pub json_fields : Content → List (Bytes × Param)
unfolding add_fields pairs
json_fields c = add_fields (pairs c.params) (own_fields c)

module _ (shown : Param → Bytes) where
  unfoldable pub shown_params : Bytes → Bytes → List (Param × Param) → Bytes
  shown_params left right [] = []
  shown_params left right ((key, value) ∷ []) =
      joined (left ∷ shown key ∷ right ∷ codes "=" ∷ shown value ∷ [])
  shown_params left right ((key, value) ∷ next ∷ rest) = joined (
      left
      ∷ shown key
      ∷ right
      ∷ codes "="
      ∷ shown value
      ∷ codes " "
      ∷ shown_params left right (next ∷ rest)
      ∷ [])

  -- textFormat; `none` is the panic of a level without colours.
  unfoldable pub text_format : Content → Option Bytes
  unfolding shown_params short_name format_time pairs bytes_eq
  text_format c = elim (color_of c.level log_color) [
    | none ↦ none
    | some (left, right) ↦ some (
        joined (
          format_time c.now
          ∷ codes " "
          ∷ left
          ∷ c.level
          ∷ right
          ∷ codes " "
          ∷ short_name c.file
          ∷ codes ":"
          ∷ format_nat c.line
          ∷ codes " "
          ∷ c.message
          ∷ codes " ["
          ∷ shown_params left right (pairs c.params)
          ∷ codes "]"
          ∷ (10 ∷ [])
          ∷ []))
  ]

unfoldable pub set_level : ℤ → GosLog → GosLog
set_level (pos n) l = record l { level = if ltb 5 n then pos 0 else pos n }
set_level (negsuc n) l = record l { level = pos 0 }

abbrev pub above : ℤ → ℕ → Bool
above (pos n) k = ltb k n
above (negsuc n) k = false

-- The frames of the stack by their depth, as runtime.Caller answers them.
abbrev pub Callers : Type 0
Callers = ℕ → Option (Bytes × ℕ)

-- Log: the content that goes to the logger's channel and to the console, if any.
unfoldable pub log : Level → ℕ → Bytes → List Param → LogTime → Callers → GosLog → Option Content
log level skip message params now callers l =
    if above l.level (rank level) then none else elim (callers skip) [
      | some (file, line) ↦ some (record {
        message = message;
        now = now;
        file = file;
        line = line;
        level = log_text level;
        params = params;
      })
      | none ↦ some (record {
        message = message;
        now = now;
        file = codes "???";
        line = 0;
        level = log_text level;
        params = params;
      })
    ]

-- The methods Trace, Debug, Warn, Error, Info and Fatal, and those with `Skip`, which are given the
-- depth.
abbrev pub method_skip : Option ℕ → ℕ
method_skip none = 3
method_skip (some skip) = skip

unfoldable pub log_method :
    Level → Option ℕ → Bytes → List Param → LogTime → Callers → GosLog → Option Content
unfolding log
log_method level skip message params now callers l =
    log level (method_skip skip) message params now callers l

-- The functions of these names: without a default logger the text goes to the package log.
pub data Emitted : Type 0 where
  printed : Bytes → List Param → Emitted
  emitted : Option Content → Emitted

unfoldable pub log_default :
    Level → Option ℕ → Bytes → List Param → LogTime → Callers → Option GosLog → Emitted
unfolding log_method
log_default level skip message params now callers none = printed message params
log_default level skip message params now callers (some l) =
    emitted (log_method level skip message params now callers l)

abbrev pub file_name : Bytes → Bytes → Bytes → Bytes
file_name path name day = path ++ (b'/' ∷ (name ++ (codes ".log." ++ day)))

module _ (path : Bytes) (opens : Bytes → Bool) (marshal : List (Bytes × Param) → Option Bytes) where
  abbrev pub opened : Bytes → Bytes → Option Bytes
  opened name day = let file = file_name path name day in if opens file then some file else none

  -- GosLogNewRouter: no logger where the file cannot be opened.
  unfoldable pub new_router : Bytes → Bytes → Option GosLog
  new_router name day = elim (opened name day) [
    | none ↦ none
    | some file ↦ some (record { name = name; level = pos 0; log_file = some file; time = day })
  ]

  unfoldable pub check_time : Bytes → GosLog → GosLog
  check_time day l =
      if bytes_eq day l.time then l else record l { time = day; log_file = opened l.name day }

  abbrev pub json_line : Content → Bytes
  json_line c = elim (marshal (json_fields c)) [ none ↦ [] | some buff ↦ buff ]

  abbrev pub lines_at : Bytes → List (Bytes × List Bytes) → List Bytes
  lines_at file files = elim (lookup file files) [ none ↦ [] | some lines ↦ lines ]

  -- One round of the logger's goroutine: a write to a file that is not open is lost.
  unfoldable pub write_log :
      Bytes → Content → GosLog → List (Bytes × List Bytes) → GosLog × List (Bytes × List Bytes)
  unfolding check_time
  write_log day c l files =
      let l' = check_time day l in
      elim l'.log_file [
        | none ↦ (l', files)
        | some file ↦ (l', insert file (lines_at file files ++ json_line c ∷ []) files)
      ]

  -- The goroutine over the messages, each with the day on which it is written.
  unfoldable pub write_logs :
      List (Bytes × Content)
      → GosLog
      → List (Bytes × List Bytes)
      → GosLog × List (Bytes × List Bytes)
  unfolding write_log
  write_logs [] l files = (l, files)
  write_logs ((day, c) ∷ rest) l files =
      let (l', files') = write_log day c l files in write_logs rest l' files'
