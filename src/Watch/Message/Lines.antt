-- ===== src/Watch/Message/Lines.antt =====
-- Lines of the protocol of watch/message.go: a text without a newline is one line, and trimming
-- takes off what was added.
use mathlib.Core.List.{reverse, reverse-cons, reverse-append, reverse-reverse}
use mathlib.Core.Path.{◌≡⟨◌⟩◌, ◌∎}
use goms.Base.{
  ℕ, Bytes, some, [], ◌∷◌, ◌++◌, Bool, true, false, ◌≡◌, ◌≢◌, refl, arith, All, All-append, ◌∙◌, ap,
}
use goms.Watch.Message.{newline, read_string, drop_while, trim, line}

abbrev pub NoNewline : ℕ → Type 0
NoNewline c = c ≢ newline

abbrev pub Misses : (ℕ → Bool) → ℕ → Type 0
Misses p c = p c ≡ false

pub read_string-line :
    (s rest : Bytes) → All NoNewline s → read_string (line s ++ rest) ≡ some (line s, rest)
unfolding read_string
read_string-line [] rest h = refl
read_string-line (c ∷ s) rest h = ground (arith, read_string-line s rest h.1)

drop_while_id : (p : ℕ → Bool) (s : Bytes) → All (Misses p) s → drop_while p s ≡ s
unfolding drop_while
drop_while_id p [] h = refl
drop_while_id p (c ∷ s) h = ground arith

All-reverse : (P : ℕ → Type 0) (s : Bytes) → All P s → All P (reverse s)
All-reverse P [] h = h
All-reverse P (c ∷ s) h =
    rw (reverse-cons c s) (All-append P (reverse s) (c ∷ []) (All-reverse P s h.1) (h.0, tt))

drop_while-hit :
    (p : ℕ → Bool) (c : ℕ) (s : Bytes) → p c ≡ true → drop_while p (c ∷ s) ≡ drop_while p s
unfolding drop_while
drop_while-hit p c s h = ground arith

drop_while-miss : (p : ℕ → Bool) (c : ℕ) (s : Bytes) → p c ≡ false → drop_while p (c ∷ s) ≡ c ∷ s
unfolding drop_while
drop_while-miss p c s h = ground arith

drop_while-line :
    (p : ℕ → Bool) (s : Bytes)
    → All (Misses p) s
    → p newline ≡ true
    → drop_while p (reverse (drop_while p (line s))) ≡ reverse s
drop_while-line p [] h e = rw (drop_while-hit p newline [] e) (unfold drop_while in refl)
drop_while-line p (c ∷ s) h e =
    drop_while p (reverse (drop_while p (line (c ∷ s))))
    ≡⟨ ap (λ l. drop_while p (reverse l)) (drop_while-miss p c (line s) h.0) ⟩
      drop_while p (reverse (line (c ∷ s)))
    ≡⟨ ap (drop_while p) (reverse-append (c ∷ s) (newline ∷ [])) ⟩
      drop_while p (newline ∷ reverse (c ∷ s))
    ≡⟨ drop_while-hit p newline (reverse (c ∷ s)) e ⟩ drop_while p (reverse (c ∷ s))
    ≡⟨ drop_while_id p (reverse (c ∷ s)) (All-reverse (Misses p) (c ∷ s) h) ⟩ reverse (c ∷ s) ∎

pub trim-line :
    (p : ℕ → Bool) (s : Bytes) → All (Misses p) s → p newline ≡ true → trim p (line s) ≡ s
unfolding trim
trim-line p s h e = ap reverse (drop_while-line p s h e) ∙ reverse-reverse s
