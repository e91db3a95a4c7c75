-- ===== src/Gate/Connect/Ids.antt =====
-- The numbers of the gate's connections: newID, NewClientConn and DelClientConn of gnet/connect.go.
use Prim.Native.Nat.{bit_or}
use goms.Base.{
  ℕ, zero, suc, ◌+◌, ◌*◌, ◌/◌, ◌%◌, ◌^◌, ◌≤◌, ◌<◌, Bytes, nat_eq, lookup, insert, remove,
  lookup-remove, length-remove-lt, Option, none, some, List, false, ◌==◌, length, ◌≡◌, ◌≢◌, refl,
  sym, ap, arith, ◌∙◌, inl, inr, Option-cases, subst,
}
use goms.Base.Bits.{bit_and-ones, bit_or-div, bit_or-mod, bit_or-zero, zero_bit_or}
use goms.Gate.Connect.{ClientConn, Gater, conn_id, new_id, new_client_conn}

-- The parts of a number: the counter in the low 32 bits, the node in the 16 above.
pub conn_id-parts :
    (node_id counter : ℕ)
    → (conn_id node_id counter % 2 ^ 32 ≡ counter % 2 ^ 32)
      × (conn_id node_id counter / 2 ^ 32 ≡ node_id % 2 ^ 16)
unfolding conn_id
conn_id-parts node_id counter = rw (bit_and-ones 32 counter) (
    rw (bit_and-ones 16 node_id) (
      bit_or-mod 32 (counter % 2 ^ 32) (node_id % 2 ^ 16 * 2 ^ 32)
          ∙ ap (λ n. bit_or (counter % 2 ^ 32 % 2 ^ 32) n) (omega arith)
          ∙ bit_or-zero (counter % 2 ^ 32 % 2 ^ 32)
          ∙ omega arith,
      bit_or-div 32 (counter % 2 ^ 32) (node_id % 2 ^ 16 * 2 ^ 32)
          ∙ ap (λ n. bit_or n (node_id % 2 ^ 16 * 2 ^ 32 / 2 ^ 32)) (omega arith)
          ∙ zero_bit_or (node_id % 2 ^ 16 * 2 ^ 32 / 2 ^ 32)
          ∙ omega arith,
    ))

-- The next counters of newID all make numbers that are in use.
abbrev AllUsed : ℕ → ℕ → ℕ → List (ℕ × ClientConn) → Type 0
AllUsed node_id counter zero m = Unit {0}
AllUsed node_id counter (suc fuel) m =
    (lookup (conn_id node_id ((counter + 1) % 2 ^ 64)) m ≢ none)
    × AllUsed node_id ((counter + 1) % 2 ^ 64) fuel m

conn_id-differs :
    (node_id counter other : ℕ)
    → counter % 2 ^ 32 ≢ other % 2 ^ 32
    → (conn_id node_id counter == conn_id node_id other) ≡ false
conn_id-differs node_id counter other h =
    let p = (conn_id-parts node_id counter).0 in
    let q = (conn_id-parts node_id other).0 in ground (arith, p, q)

AllUsed-remove :
    (node_id start counter d fuel : ℕ) (m : List (ℕ × ClientConn))
    → counter % 2 ^ 32 ≡ (start + d) % 2 ^ 32
    → d + fuel < 2 ^ 32
    → AllUsed node_id counter fuel m
    → AllUsed node_id counter fuel (remove (conn_id node_id start) m)
AllUsed-remove node_id start counter d zero m e room used = tt
AllUsed-remove node_id start counter d (suc fuel) m e room (used, more) =
    let next : ℕ = (counter + 1) % 2 ^ 64 in
    let apart = conn_id-differs node_id start next (omega arith) in
    (
      λ gone. used (
          sym (lookup-remove (conn_id node_id start) (conn_id node_id next) m ∙ rw apart refl)
          ∙ gone),
      AllUsed-remove node_id start next (d + 1) fuel m (omega arith) (omega arith) more,
    )

AllUsed-le-length :
    (node_id counter fuel : ℕ) (m : List (ℕ × ClientConn))
    → fuel ≤ 2 ^ 32
    → AllUsed node_id counter fuel m
    → fuel ≤ length m
AllUsed-le-length node_id counter zero m room used = omega arith
AllUsed-le-length node_id counter (suc fuel) m room (used, more) =
    let next : ℕ = (counter + 1) % 2 ^ 64 in
    let k = conn_id node_id next in
    omega (
      arith,
      length-remove-lt k m used,
      AllUsed-le-length node_id next fuel (remove k m) (omega arith)
          (AllUsed-remove node_id next next 0 fuel m (omega arith) (omega arith) more),
    )

-- How newID ends: at a number that is not in use, of the node, or without fuel.
abbrev Ends : ℕ → ℕ → Gater → Option (ℕ × Gater) → Type 0
Ends fuel node_id g none = AllUsed node_id g.id_counter fuel g.ids
Ends fuel node_id g (some (id, after)) =
    (lookup id g.ids ≡ none)
    × (id / 2 ^ 32 ≡ node_id % 2 ^ 16)
    × (after ≡ record g { id_counter = after.id_counter })

Ends-later :
    (fuel node_id counter : ℕ) (g : Gater) (r : Option (ℕ × Gater))
    → lookup (conn_id node_id ((g.id_counter + 1) % 2 ^ 64)) g.ids ≢ none
    → counter ≡ (g.id_counter + 1) % 2 ^ 64
    → Ends fuel node_id (record g { id_counter = counter }) r
    → Ends (suc fuel) node_id g r
Ends-later fuel node_id counter g none used e h =
    (used, subst (λ c. AllUsed node_id c fuel g.ids) e h)
Ends-later fuel node_id counter g (some (id, after)) used e h = h

new_id-Ends : (fuel node_id : ℕ) (g : Gater) → Ends fuel node_id g (new_id fuel node_id g)
unfolding new_id
new_id-Ends zero node_id g = tt
new_id-Ends (suc fuel) node_id g =
    let counter : ℕ = (g.id_counter + 1) % 2 ^ 64 in
    let id = conn_id node_id counter in
    elim (Option-cases (lookup id g.ids)) [
      | inl free ↦ rw free (free, (conn_id-parts node_id counter).1, refl)
      | inr (conn, taken) ↦ rw taken (
          Ends-later fuel node_id counter g _ (λ gone. cc) refl
            (new_id-Ends fuel node_id (record g { id_counter = counter })))
    ]

-- With fewer than 2^32 connections, and a round for each and one more, newID returns; the number
-- is not in use, and carries the node.
pub new_id-fresh :
    (node_id : ℕ) (g : Gater)
    → length g.ids < 2 ^ 32
    → (id : ℕ) × (after : Gater) × (new_id (length g.ids + 1) node_id g ≡ some (id, after))
      × (lookup id g.ids ≡ none)
      × (id / 2 ^ 32 ≡ node_id % 2 ^ 16)
      × (after ≡ record g { id_counter = after.id_counter })
new_id-fresh node_id g room = elim (Option-cases (new_id (length g.ids + 1) node_id g)) [
  | inl out ↦ absurd (
      omega (
        arith,
        AllUsed-le-length node_id g.id_counter (length g.ids + 1) g.ids (omega arith) (
            subst (Ends (length g.ids + 1) node_id g) out
              (new_id-Ends (length g.ids + 1) node_id g)),
      ))
  | inr ((id, after), e) ↦
      let (free, part, same) =
        subst (Ends (length g.ids + 1) node_id g) e (new_id-Ends (length g.ids + 1) node_id g) in
      (id, after, e, free, part, same)
]

-- A new connection takes a free number of the node.
pub new_client_conn-fresh :
    (fuel node_id : ℕ) (gate_name remote : Bytes) (g : Gater) (conn : ClientConn) (after : Gater)
    → new_client_conn fuel node_id gate_name remote g ≡ some (conn, after)
    → (lookup conn.context.id g.ids ≡ none)
      × (conn.context.id / 2 ^ 32 ≡ node_id % 2 ^ 16)
      × (after.count ≡ (g.count + 1) % 2 ^ 32)
      × (after.ids ≡ insert conn.context.id conn g.ids)
unfolding new_client_conn
new_client_conn-fresh fuel node_id gate_name remote g conn after e =
    elim (Option-cases (new_id fuel node_id g)) [
      | inl out ↦ ground (arith, out)
      | inr ((id, mid), found) ↦
          let (free, part, same) = subst (Ends fuel node_id g) found (new_id-Ends fuel node_id g) in
          ground (arith, found, free, part, same)
    ]
