-- ===== src/Watch/Message/RoundTrip.antt =====
-- The reader of watch/message.go at what its writer wrote.
use goms.Base.{
  ℕ, zero, suc, Bytes, some, List, [], ◌∷◌, ◌++◌, ◌≡◌, refl, arith, All, ◌∙◌, ap, All-map, ◌<◌, ◌≤◌,
  ◌^◌, length, append_assoc, append-nil,
}
use goms.Base.Int.{ℤ, pos, pos_part, IsInt64}
use goms.Base.Decimal.{atoi, itoa, atoi-itoa, itoa-AtLeast}
use goms.Watch.Message.{
  WatchMessage, newline, read_string, trim, line, is_newline, is_space, read_values,
  read_watch_message, write_values, write_watch_message, read_loop,
}
use goms.Watch.Message.Lines.{NoNewline, Misses, read_string-line, trim-line}

abbrev pub Ascii : ℕ → Type 0
Ascii c = c < 128

-- What the protocol carries: an ASCII command without white space, a 64-bit sequence number, and
-- values without newlines.
pub record IsSendable (m : WatchMessage) : Type 0 where
  pub ascii : All Ascii m.cmd
  pub word : All (Misses is_space) m.cmd
  pub seq_fits : IsInt64 m.seq
  pub one_line : All (All NoNewline) m.values
  pub count_fits : length m.values < 2 ^ 63

NoNewline-of_Misses : (c : ℕ) → Misses is_space c → NoNewline c
NoNewline-of_Misses c h = ground arith

Misses-newline : (c : ℕ) → NoNewline c → Misses is_newline c
Misses-newline c h = ground arith

itoa-NoNewline : (z : ℤ) → All NoNewline (itoa z)
itoa-NoNewline z = All-map (λ c. b'-' ≤ c) NoNewline (λ c h. omega arith) (itoa z) (itoa-AtLeast z)

-- A line that was written is read, and trimmed to its text.
trim-newline : (s : Bytes) → All NoNewline s → trim is_newline (line s) ≡ s
trim-newline s h = trim-line is_newline s (All-map NoNewline _ Misses-newline s h) refl

read_line : (s rest : Bytes) → All NoNewline s → read_string (line s ++ rest) ≡ some (line s, rest)
read_line = read_string-line

read_values_step :
    (n : ℕ) (s l r v : Bytes) (values : List Bytes) (r' : Bytes)
    → read_string s ≡ some (l, r)
    → read_values n r ≡ some (values, r')
    → trim is_newline l ≡ v
    → read_values (suc n) s ≡ some (v ∷ values, r')
unfolding read_values
read_values_step n s l r v values r' e₁ e₂ e₃ = ground arith

read_values-write_values :
    (values : List Bytes) (rest : Bytes)
    → All (All NoNewline) values
    → read_values (length values) (write_values values ++ rest) ≡ some (values, rest)
read_values-write_values [] rest h = unfold read_values write_values in refl
read_values-write_values (v ∷ values) rest h =
    read_values_step (length values) _ (line v) (write_values values ++ rest) v values rest
      (unfold write_values in
        rw (append_assoc (line v) (write_values values) rest)
          (read_string-line v (write_values values ++ rest) h.0))
      (read_values-write_values values rest h.1) (trim-newline v h.0)

read_watch_message_step :
    (s l₁ s₁ l₂ s₂ l₃ s₃ : Bytes) (m : WatchMessage) (rest : Bytes)
    → read_string s ≡ some (l₁, s₁)
    → read_string s₁ ≡ some (l₂, s₂)
    → read_string s₂ ≡ some (l₃, s₃)
    → read_values (pos_part (atoi (trim is_newline l₃))) s₃ ≡ some (m.values, rest)
    → trim is_space l₁ ≡ m.cmd
    → atoi (trim is_newline l₂) ≡ m.seq
    → read_watch_message s ≡ some (m, rest)
unfolding read_watch_message
read_watch_message_step s l₁ s₁ l₂ s₂ l₃ s₃ m rest e₁ e₂ e₃ e₄ e₅ e₆ = ground arith

-- The three header lines, before any text that holds `n` lines.
read_header :
    (m : WatchMessage) (n : ℕ) (tail rest : Bytes)
    → All (Misses is_space) m.cmd
    → IsInt64 m.seq
    → n < 2 ^ 63
    → read_values n tail ≡ some (m.values, rest)
    → read_watch_message (line m.cmd ++ (line (itoa m.seq) ++ (line (itoa (pos n)) ++ tail)))
      ≡ some (m, rest)
read_header m n tail rest word seq_fits fits e =
    let count : atoi (trim is_newline (line (itoa (pos n)))) ≡ pos n =
      ap atoi (trim-newline (itoa (pos n)) (itoa-NoNewline (pos n))) ∙ atoi-itoa (pos n) fits in
    read_watch_message_step _ (line m.cmd) (line (itoa m.seq) ++ (line (itoa (pos n)) ++ tail))
      (line (itoa m.seq)) (line (itoa (pos n)) ++ tail) (line (itoa (pos n))) tail m rest
      (read_string-line m.cmd _
        (All-map (Misses is_space) NoNewline NoNewline-of_Misses m.cmd word))
      (read_string-line (itoa m.seq) _ (itoa-NoNewline m.seq))
      (read_string-line (itoa (pos n)) _ (itoa-NoNewline (pos n))) (rw count e)
      (trim-line is_space m.cmd word refl)
      (ap atoi (trim-newline (itoa m.seq) (itoa-NoNewline m.seq)) ∙ atoi-itoa m.seq seq_fits)

write_watch_message-append :
    (m : WatchMessage) (rest : Bytes)
    → write_watch_message m ++ rest
      ≡ line m.cmd
        ++ (line (itoa m.seq)
            ++ (line (itoa (pos (length m.values))) ++ (write_values m.values ++ rest)))
unfolding write_watch_message
write_watch_message-append m rest = simp append_assoc

-- A sendable message is read back whole, and exactly its own bytes are taken from the stream.
pub read-write_watch_message :
    (m : WatchMessage) (rest : Bytes)
    → IsSendable m
    → read_watch_message (write_watch_message m ++ rest) ≡ some (m, rest)
read-write_watch_message m rest h = rw (write_watch_message-append m rest) (
    read_header m (length m.values) (write_values m.values ++ rest) rest h.word h.seq_fits
      h.count_fits (read_values-write_values m.values rest h.one_line))

read_values_nil : (rest : Bytes) → read_values 0 rest ≡ some ([], rest)
unfolding read_values
read_values_nil rest = refl

line_split :
    (u v rest : Bytes) → write_values ((u ++ newline ∷ v) ∷ []) ++ rest ≡ line u ++ (line v ++ rest)
unfolding write_values
line_split u v rest = simp (append_assoc, append-nil)

-- For an ASCII command without white space and a number that fits 64 bits, a value that holds a
-- newline is cut there: the reader takes the part before it for the value, and the part behind it
-- stands at the head of what it reads as the next message.
pub read-write_injection :
    (cmd : Bytes) (seq : ℤ) (u v rest : Bytes)
    → All Ascii cmd
    → All (Misses is_space) cmd
    → IsInt64 seq
    → All NoNewline u
    → read_watch_message (
        write_watch_message (record { cmd = cmd; seq = seq; values = (u ++ newline ∷ v) ∷ [] })
        ++ rest)
      ≡ some (record { cmd = cmd; seq = seq; values = u ∷ [] }, line v ++ rest)
read-write_injection cmd seq u v rest ascii word fits h =
    rw (write_watch_message-append _ rest, line_split u v rest)
      (read_header (record { cmd = cmd; seq = seq; values = u ∷ [] }) 1 _ _ word fits (omega arith)
        (read_values_step 0 _ (line u) (line v ++ rest) u [] _ (read_string-line u _ h)
          (read_values_nil (line v ++ rest)) (trim-newline u h)))

read_loop_step :
    (fuel : ℕ) (s : Bytes) (m : WatchMessage) (rest : Bytes)
    → read_watch_message s ≡ some (m, rest)
    → read_loop (suc fuel) s ≡ m ∷ read_loop fuel rest
unfolding read_loop
read_loop_step fuel s m rest e = ground arith

read_loop_end : (fuel : ℕ) → read_loop (suc fuel) [] ≡ []
unfolding read_loop read_watch_message
read_loop_end fuel = refl

abbrev pub write_all : List WatchMessage → Bytes
write_all [] = []
write_all (m ∷ ms) = write_watch_message m ++ write_all ms

-- For messages whose command is ASCII without white space, whose number fits 64 bits and whose
-- values have no newlines, and fuel above their number, the reading goroutine delivers the
-- messages that were written to the connection, all of them and in order.
pub read_loop-write_all :
    (ms : List WatchMessage) (fuel : ℕ)
    → All IsSendable ms
    → length ms < fuel
    → read_loop fuel (write_all ms) ≡ ms
read_loop-write_all ms zero h enough = absurd (omega arith)
read_loop-write_all [] (suc fuel) h enough = read_loop_end fuel
read_loop-write_all (m ∷ ms) (suc fuel) h enough =
    read_loop_step fuel _ m (write_all ms) (read-write_watch_message m (write_all ms) h.0)
    ∙ ap (λ r. m ∷ r) (read_loop-write_all ms fuel h.1 (omega arith))
