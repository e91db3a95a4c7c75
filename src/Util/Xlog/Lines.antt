-- ===== src/Util/Xlog/Lines.antt =====
-- The lines of util/xlog.go: the short name of the file and the fields of the JSON object.
use goms.Base.{
  ℕ, Bytes, bytes_eq, bytes_Eq, lookup, insert, lookup-insert, Option, none, some, List, [], ◌∷◌,
  ◌++◌, if◌then◌else◌, leb, ◌≡◌, refl, arith,
}
use goms.Base.Int.{pos}
use goms.Rpc.Node.Lookup.{Lacks}
use goms.Util.HashSet.{is_some}
use goms.Util.Xlog.{
  Param, text, other, Content, GosLog, Level, rank, after_slash, short_name, pairs, add_fields,
  own_fields, json_fields, LogTime, Callers, log_method, emitted, log_default, set_level,
}

after_slash-none : (s : Bytes) → Lacks b'/' s → after_slash s ≡ none
unfolding after_slash
after_slash-none [] h = refl
after_slash-none (c ∷ s) (ne, h) = ground (arith, after_slash-none s h)

after_slash-append :
    (before name : Bytes) → Lacks b'/' name → after_slash (before ++ b'/' ∷ name) ≡ some name
unfolding after_slash
after_slash-append [] name h = ground (arith, after_slash-none name h)
after_slash-append (c ∷ s) name h = ground (arith, after_slash-append s name h)

-- The short name of a file in a directory with a name is the file's name.
pub short_name-append :
    (c : ℕ) (dir name : Bytes) → Lacks b'/' name → short_name ((c ∷ dir) ++ b'/' ∷ name) ≡ name
unfolding short_name
short_name-append c dir name h = ground (arith, after_slash-append dir name h)

-- The value of the last parameter with this name.
abbrev pub last_value : Bytes → List (Param × Param) → Option Param
last_value key [] = none
last_value key ((text name, value) ∷ rest) = elim (last_value key rest) [
  | some v ↦ some v
  | none ↦ if bytes_eq name key then some value else none
]
last_value key ((other n, value) ∷ rest) = last_value key rest

lookup-add_fields :
    (key : Bytes) (ps : List (Param × Param)) (m : List (Bytes × Param))
    → lookup key (add_fields ps m)
      ≡ elim (last_value key ps) [ some v ↦ some v | none ↦ lookup key m ]
unfolding add_fields
lookup-add_fields key [] m = refl
lookup-add_fields key ((text name, value) ∷ rest) m =
    ground (arith, lookup-add_fields key rest (insert name value m), lookup-insert name key value m)
lookup-add_fields key ((other n, value) ∷ rest) m = lookup-add_fields key rest m

-- A field of the JSON object is the last parameter of that name, and else the message's own field:
-- a parameter named "msg", "level", "line" or "time" takes the place of the message's own.
pub lookup-json_fields :
    (key : Bytes) (c : Content)
    → lookup key (json_fields c) ≡ elim (last_value key (pairs c.params)) [
      | some v ↦ some v
      | none ↦ lookup key (own_fields c)
    ]
unfolding json_fields
lookup-json_fields key c = lookup-add_fields key (pairs c.params) (own_fields c)

-- After SetLevel with the number of a level, the default logger takes a message exactly when its
-- level is not below, from whichever function.
pub log_default-set_level :
    (least level : Level) (skip : Option ℕ) (message : Bytes) (params : List Param) (now : LogTime)
    (callers : Callers) (l : GosLog)
    → (c : Option Content) × (log_default level skip message params now callers
          (some (set_level (pos (rank least)) l))
        ≡ emitted c)
      × (is_some c ≡ leb (rank least) (rank level))
unfolding log_default set_level
log_default-set_level least level skip message params now callers l = (
  log_method level skip message params now callers (set_level (pos (rank least)) l),
  refl,
  ground arith,
)
