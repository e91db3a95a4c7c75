-- ===== src/Watch/Message.antt =====
-- watch/message.go: the line protocol between the watch server and its clients. A connection is
-- the bytes still to be read; a read that meets its end is an error, `none`. What is written is
-- the text handed to a writer whose connection does not fail.
pub mod Lines
pub mod RoundTrip
pub mod Tests
use mathlib.Core.List.{reverse}
use goms.Base.{
  ℕ, zero, suc, Bytes, Option, none, some, List, [], ◌∷◌, ◌++◌, Bool, true, false, ◌||◌,
  if◌then◌else◌, ◌==◌, length, ◌&&◌, leb,
}
use goms.Base.Int.{ℤ, pos, negsuc, pos_part}
use goms.Base.Decimal.{atoi, itoa}

infixl 5 ◌>>=◌
abbrev pub ◌>>=◌ {ℓ κ} : {A : Type ℓ} {B : Type κ} → Option A → (A → Option B) → Option B
none >>= f = none
some a >>= f = f a

pub record WatchMessage : Type 0 where
  pub cmd : Bytes
  pub seq : ℤ
  pub values : List Bytes

abbrev pub newline : ℕ
newline = 10

-- r.ReadString('\n'): the bytes through the next newline, and those behind it.
unfoldable pub read_string : Bytes → Option (Bytes × Bytes)
read_string [] = none
read_string (c ∷ s) =
    if c == newline
    then some (c ∷ [], s)
    else elim (read_string s) [ none ↦ none | some (line, rest) ↦ some (c ∷ line, rest) ]

unfoldable pub drop_while : (ℕ → Bool) → Bytes → Bytes
drop_while p [] = []
drop_while p (c ∷ s) = if p c then drop_while p s else c ∷ s

-- strings.TrimFunc: both ends lose the bytes that satisfy `p`.
unfoldable pub trim : (ℕ → Bool) → Bytes → Bytes
unfolding drop_while
trim p s = reverse (drop_while p (reverse (drop_while p s)))

abbrev pub is_newline : ℕ → Bool
is_newline c = c == newline

-- The ASCII white space of strings.TrimSpace: \t \n \v \f \r and the blank.
abbrev pub is_space : ℕ → Bool
is_space c = c == 32 || leb 9 c && leb c 13

-- The loop over the values: `n` lines.
unfoldable pub read_values : ℕ → Bytes → Option (List Bytes × Bytes)
unfolding read_string trim
read_values zero s = some ([], s)
read_values (suc n) s = elim (read_string s) [
  | none ↦ none
  | some (line, rest) ↦ elim (read_values n rest) [
    | none ↦ none
    | some (values, rest') ↦ some (trim is_newline line ∷ values, rest')
  ]
]

unfoldable pub read_watch_message : Bytes → Option (WatchMessage × Bytes)
unfolding read_string trim read_values atoi
read_watch_message s = do
  (cmd, s₁) ← read_string s
  (seq, s₂) ← read_string s₁
  (count, s₃) ← read_string s₂
  (values, s₄) ← read_values (pos_part (atoi (trim is_newline count))) s₃
  some (record { cmd = trim is_space cmd; seq = atoi (trim is_newline seq); values = values }, s₄)

-- fmt.Sprintf("%v\n", …)
abbrev pub line : Bytes → Bytes
line s = s ++ newline ∷ []

unfoldable pub write_values : List Bytes → Bytes
write_values [] = []
write_values (v ∷ values) = line v ++ write_values values

unfoldable pub write_watch_message : WatchMessage → Bytes
unfolding write_values itoa
write_watch_message m =
    line m.cmd
    ++ (line (itoa m.seq) ++ (line (itoa (pos (length m.values))) ++ write_values m.values))

-- The reading goroutines: messages until the first error. Each takes three bytes at least, so
-- the number of bytes is fuel enough.
unfoldable pub read_loop : ℕ → Bytes → List WatchMessage
unfolding read_watch_message
read_loop zero s = []
read_loop (suc fuel) s = elim (read_watch_message s) [
  | none ↦ []
  | some (m, rest) ↦ m ∷ read_loop fuel rest
]
