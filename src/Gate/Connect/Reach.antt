-- ===== src/Gate/Connect/Reach.antt =====
-- What the connections of gnet/connect.go come and go to: the count, the map of the connections and
-- their numbers, and ForConn over them.
use goms.Base.{
  ℕ, ◌/◌, ◌%◌, ◌^◌, Bytes, nat_eq, lookup, insert, remove, modify, lookup-insert, lookup-remove,
  lookup-modify, IsDistinct, insert-IsDistinct, remove-IsDistinct, length-remove,
  length-insert_fresh, modify-IsDistinct, length-modify, Option, none, some, List, [], ◌∷◌,
  if◌then◌else◌, ◌==◌, length, ◌≡◌, ◌≢◌, refl, sym, ap, arith, ◌∙◌, inl, inr, Option-cases, subst,
}
use goms.Util.HashSet.{is_some}
use goms.Gate.Connect.{
  conn_ids, for_each, for_conn, ClientConn, Gater, new_gater, get_conn_by_id, new_client_conn,
  del_client_conn,
}
use goms.Gate.Connect.Ids.{new_client_conn-fresh}

-- What happens to the gate: a connection is accepted, or one that it has ends, or the goroutine of
-- one changes it.
pub data Step (node_id : ℕ) (g : Gater) (after : Gater) : Type 0 where
  accepts :
      (fuel : ℕ) (gate_name remote : Bytes) (conn : ClientConn)
      → new_client_conn fuel node_id gate_name remote g ≡ some (conn, after)
      → Step node_id g after
  ends :
      (id : ℕ) (conn : ClientConn)
      → get_conn_by_id id g ≡ some conn
      → after ≡ del_client_conn conn g
      → Step node_id g after
  works :
      (id : ℕ) (f : ClientConn → ClientConn)
      → ((conn : ClientConn) → (f conn).context.id ≡ conn.context.id)
      → after ≡ record g { ids = modify id f g.ids }
      → Step node_id g after

pub data Reach (node_id : ℕ) : Gater → Type 0 where
  start : (g : Gater) → g ≡ new_gater → Reach node_id g
  step : (before g : Gater) → Reach node_id before → Step node_id before g → Reach node_id g

-- A connection stands under its number, which carries the node.
abbrev pub Keyed : ℕ → List (ℕ × ClientConn) → Type 0
Keyed node_id m =
    (id : ℕ) (conn : ClientConn)
    → lookup id m ≡ some conn
    → (conn.context.id ≡ id) × (id / 2 ^ 32 ≡ node_id % 2 ^ 16)

pub record IsSound (node_id : ℕ) (g : Gater) : Type 0 where
  pub counted : g.count ≡ length g.ids % 2 ^ 32
  pub distinct : IsDistinct g.ids
  pub keyed : Keyed node_id g.ids

insert-Keyed :
    (node_id id : ℕ) (conn : ClientConn) (m : List (ℕ × ClientConn))
    → conn.context.id ≡ id
    → id / 2 ^ 32 ≡ node_id % 2 ^ 16
    → Keyed node_id m
    → Keyed node_id (insert id conn m)
insert-Keyed node_id id conn m same part h k c found =
    ground (arith, lookup-insert id k conn m, h k c)

remove-Keyed :
    (node_id id : ℕ) (m : List (ℕ × ClientConn)) → Keyed node_id m → Keyed node_id (remove id m)
remove-Keyed node_id id m h k c found = ground (arith, lookup-remove id k m, h k c)

modify-Keyed :
    (node_id id : ℕ) (f : ClientConn → ClientConn) (m : List (ℕ × ClientConn))
    → ((conn : ClientConn) → (f conn).context.id ≡ conn.context.id)
    → Keyed node_id m
    → Keyed node_id (modify id f m)
modify-Keyed node_id id f m keeps h k c found = elim (Option-cases (lookup k m)) [
  | inl out ↦ ground (arith, lookup-modify id k f m)
  | inr (old, e) ↦ ground (arith, lookup-modify id k f m, h k old e, keeps old)
]

Step-IsSound :
    (node_id : ℕ) (g after : Gater)
    → Step node_id g after
    → IsSound node_id g
    → IsSound node_id after
unfolding new_client_conn del_client_conn
Step-IsSound node_id g after (accepts fuel gate_name remote conn e) s =
    let (free, part, counted, stored) =
      new_client_conn-fresh fuel node_id gate_name remote g conn after e in
    record {
      counted = omega (
        arith,
        counted,
        s.counted,
        ap (length {A = ℕ × ClientConn}) stored,
        length-insert_fresh conn.context.id conn g.ids free,
      );
      distinct =
          subst (IsDistinct {K = ℕ} {V = ClientConn}) (sym stored)
            (insert-IsDistinct conn.context.id conn g.ids s.distinct);
      keyed =
          subst (Keyed node_id) (sym stored)
            (insert-Keyed node_id conn.context.id conn g.ids refl part s.keyed);
    }
Step-IsSound node_id g after (ends id conn found e) s =
    let ours : conn.context.id ≡ id = (s.keyed id conn found).0 in
    let here : lookup conn.context.id g.ids ≢ none =
      λ gone. ground (arith, ap (λ k. lookup k g.ids) ours) in
    subst (IsSound node_id) (sym e) (record {
      counted = omega (arith, s.counted, length-remove conn.context.id g.ids s.distinct here);
      distinct = remove-IsDistinct conn.context.id g.ids s.distinct;
      keyed = remove-Keyed node_id conn.context.id g.ids s.keyed;
    })
Step-IsSound node_id g after (works id f keeps e) s = subst (IsSound node_id) (sym e) (record {
  counted = s.counted ∙ ap (λ n. n % 2 ^ 32) (sym (length-modify id f g.ids));
  distinct = modify-IsDistinct id f g.ids s.distinct;
  keyed = modify-Keyed node_id id f g.ids keeps s.keyed;
})

-- Whatever connections were accepted, ended and served since NewGater: the count is the number of
-- the connections, up to 32 bits, no number has two connections, and each connection stands under
-- its own number, which carries the node.
pub Reach-IsSound : (node_id : ℕ) (g : Gater) → Reach node_id g → IsSound node_id g
Reach-IsSound node_id _ (start g e) =
    subst (IsSound node_id) (sym e)
      (record { counted = refl; distinct = tt; keyed = λ id conn h. absurd (cc) })
Reach-IsSound node_id _ (step before g r s) =
    Step-IsSound node_id before g s (Reach-IsSound node_id before r)

abbrev applied : (ClientConn → ClientConn) → Option ClientConn → Option ClientConn
applied h none = none
applied h (some conn) = some (h conn)

-- A callback that changes the connection that it is given.
abbrev pub visit : (ClientConn → ClientConn) → ClientConn → Gater → Gater
visit h conn g = record g { ids = modify conn.context.id h g.ids }

abbrev visit_at : (ClientConn → ClientConn) → ℕ → Gater → Gater
visit_at h id g = elim (lookup id g.ids) [ none ↦ g | some conn ↦ visit h conn g ]

module _ (node_id : ℕ) (h : ClientConn → ClientConn)
    (keeps : (conn : ClientConn) → (h conn).context.id ≡ conn.context.id) where
  visit_at-Keyed : (id : ℕ) (g : Gater) → Keyed node_id g.ids → Keyed node_id (visit_at h id g).ids
  visit_at-Keyed id g k = elim (Option-cases (lookup id g.ids)) [
    | inl out ↦ rw (out, visit_at) k
    | inr (conn, found) ↦
        rw (found, visit_at) (modify-Keyed node_id conn.context.id h g.ids keeps k)
  ]

  lookup-visit_at :
      (id : ℕ) (g : Gater) (k : ℕ)
      → Keyed node_id g.ids
      → lookup k (visit_at h id g).ids
        ≡ (if id == k then applied h (lookup k g.ids) else lookup k g.ids)
  lookup-visit_at id g k keyed = elim (Option-cases (lookup id g.ids)) [
    | inl out ↦ ground (arith, out)
    | inr (conn, found) ↦
        ground (arith, found, (keyed id conn found).0, lookup-modify conn.context.id k h g.ids)
  ]

  lookup-for_each :
      (m : List (ℕ × ClientConn)) (g : Gater) (k : ℕ)
      → IsDistinct m
      → Keyed node_id g.ids
      → lookup k (for_each (visit h) (conn_ids m) g).ids
        ≡ (if is_some (lookup k m) then applied h (lookup k g.ids) else lookup k g.ids)
  unfolding for_each conn_ids
  lookup-for_each [] g k d keyed = refl
  lookup-for_each ((id, conn) ∷ m) g k (fresh, d) keyed = ground (
    arith,
    lookup-visit_at id g k keyed,
    lookup-for_each m (visit_at h id g) k d (visit_at-Keyed id g keyed),
    ap (λ x. lookup x m),
  )

  -- After any run of the gate, ForConn with a callback that changes the connection that it is
  -- given, and keeps its number, changes every connection of the gate once, and no other entry.
  pub for_conn-Reach :
      (g : Gater) (k : ℕ)
      → Reach node_id g
      → get_conn_by_id k (for_conn (visit h) g)
        ≡ elim (get_conn_by_id k g) [ none ↦ none | some conn ↦ some (h conn) ]
  unfolding for_conn
  for_conn-Reach g k r =
      let s = Reach-IsSound node_id g r in
      ground (arith, lookup-for_each g.ids g k s.distinct s.keyed)
