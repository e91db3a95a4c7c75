-- ===== src/Util/Misc/Commands.antt =====
-- ExportServiceFunction of util/misc.go: the methods that are called by a command. The names are
-- those of the service's methods, in the order in which reflection has them.
use goms.Base.{
  ℕ, ◌+◌, ◌-◌, ◌*◌, ◌%◌, ◌^◌, Bytes, nat_eq, lookup, insert, lookup-insert, Option, none, some,
  List, [], ◌∷◌, ◌&&◌, if◌then◌else◌, ◌==◌, leb, length, drop, ◌≡◌, refl, ap, ◌∙◌, Option-cases,
  inl, inr,
}

abbrev hex_digit : ℕ → Option ℕ
hex_digit c =
    if leb b'0' c && leb c b'9'
    then some (c - b'0')
    else if leb b'a' c && leb c b'f'
    then some (c - b'a' + 10)
    else if leb b'A' c && leb c b'F'
    then some (c - b'A' + 10)
    else none

abbrev hex_digits : Bytes → ℕ → Option ℕ
hex_digits [] n = some n
hex_digits (c ∷ s) n = elim (hex_digit c) [ none ↦ none | some d ↦ hex_digits s (n * 16 + d) ]

abbrev unsigned_hex : Bytes → Option ℕ
unsigned_hex [] = none
unsigned_hex (c ∷ s) = hex_digits (c ∷ s) 0

-- strconv.ParseInt to base 16 of at most four bytes, which is never out of range, and uint16 of it.
unfoldable pub parse_cmd : Bytes → Option ℕ
parse_cmd [] = none
parse_cmd (c ∷ s) =
    if c == b'+'
    then unsigned_hex s
    else if c == b'-'
    then elim (unsigned_hex s) [ none ↦ none | some n ↦ some ((2 ^ 16 - n) % 2 ^ 16) ]
    else unsigned_hex (c ∷ s)

-- The command in a method's name: its last four bytes, for a name of six bytes or more.
unfoldable pub cmd_of : Bytes → Option ℕ
unfolding parse_cmd
cmd_of name = if leb (length name) 5 then none else parse_cmd (drop (length name - 4) name)

abbrev export_from : List Bytes → List (ℕ × Bytes) → List (ℕ × Bytes)
export_from [] funcs = funcs
export_from (name ∷ names) funcs =
    export_from names (elim (cmd_of name) [ none ↦ funcs | some cmd ↦ insert cmd name funcs ])

unfoldable pub export_service_function : List Bytes → List (ℕ × Bytes)
export_service_function names = export_from names []

-- The last of the names that has the command, and `before` if none has.
abbrev last_with : ℕ → List Bytes → Option Bytes → Option Bytes
last_with cmd [] before = before
last_with cmd (name ∷ names) before =
    last_with cmd names
      (elim (cmd_of name) [ none ↦ before | some c ↦ if c == cmd then some name else before ])

lookup-export_from :
    (cmd : ℕ) (names : List Bytes) (funcs : List (ℕ × Bytes))
    → lookup cmd (export_from names funcs) ≡ last_with cmd names (lookup cmd funcs)
lookup-export_from cmd [] funcs = refl
lookup-export_from cmd (name ∷ names) funcs = elim (Option-cases (cmd_of name)) [
  | inl out ↦ rw out (lookup-export_from cmd names funcs)
  | inr (c, found) ↦ rw found (
      lookup-export_from cmd names (insert c name funcs)
      ∙ ap (last_with cmd names) (lookup-insert c cmd name funcs))
]

-- A command calls the last of the methods whose names end in it, and none if there is none.
lookup-export_service_function :
    (cmd : ℕ) (names : List Bytes)
    → lookup cmd (export_service_function names) ≡ last_with cmd names none
unfolding export_service_function
lookup-export_service_function cmd names = lookup-export_from cmd names []
