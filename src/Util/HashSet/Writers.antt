-- ===== src/Util/HashSet/Writers.antt =====
-- Hset of util/hash_set.go with many callers: the map changes under the mutex, and the write to the
-- file of util/hash_set_db.go follows after the mutex is free, so that the writes of several calls may
-- come in another order than their changes.
use mathlib.Core.Option.{some-injective}
use goms.Base.{
  Bytes, bytes_eq, bytes_eq_iff, Option, none, some, List, [], ◌∷◌, ◌++◌, Bool, true, false, ◌&&◌,
  if◌then◌else◌, All, Bool-cases, inl, inr, ◌≡◌, refl, sym, subst, ap, arith, ◌∙◌,
}
use goms.Util.Bolt.{Bolt}
use goms.Util.HashSet.{Data, Status, is_blank, hset_data, save}
use goms.Util.HashSet.Refine.{entry_at, accepts, entry_at-hset_data}
use goms.Util.HashSet.Persist.{IsSynced, Takes, write_of, view-write_of, save-hset_data}

-- A call that has changed the map and has not written yet.
pub record Pending : Type 0 where
  pub key : Bytes
  pub field : Bytes
  pub value : Bytes
  pub status : Option Status

abbrev pub touches : Pending → Bytes → Bytes → Bool
touches c j g = bytes_eq c.key j && bytes_eq c.field g

-- No call at a key and a field.
abbrev pub IsFree : Bytes → Bytes → List Pending → Type 0
IsFree j g = All (λ c. touches c j g ≡ false)

-- No two calls at one key and field.
abbrev AreApart : List Pending → Type 0
AreApart [] = Unit {0}
AreApart (c ∷ cs) = IsFree c.key c.field cs × AreApart cs

abbrev leaves : Bytes → Option Bytes
leaves value = if is_blank value then none else some value

-- What an entry of the file is once the calls have written.
abbrev outcome : Bytes → Bytes → List Pending → Option Bytes → Option Bytes
outcome j g [] v = v
outcome j g (c ∷ cs) v = if touches c j g then leaves c.value else outcome j g cs v

outcome-free :
    (j g : Bytes) (cs : List Pending) (v : Option Bytes) → IsFree j g cs → outcome j g cs v ≡ v
outcome-free j g [] v h = refl
outcome-free j g (c ∷ cs) v (apart, h) = rw apart (outcome-free j g cs v h)

touches-sym : (a b : Pending) → touches a b.key b.field ≡ false → touches b a.key a.field ≡ false
touches-sym a b h = ground (
  arith,
  bytes_eq_iff a.key b.key,
  bytes_eq_iff b.key a.key,
  bytes_eq_iff a.field b.field,
  bytes_eq_iff b.field a.field,
)

IsFree-at :
    (c : Pending) (j g : Bytes) (cs : List Pending)
    → touches c j g ≡ true
    → IsFree c.key c.field cs
    → IsFree j g cs
IsFree-at c j g cs t h =
    subst (λ k. IsFree k g cs) (ground (arith, bytes_eq_iff c.key j))
      (subst (λ f. IsFree c.key f cs) (ground (arith, bytes_eq_iff c.field g)) h)

All-middle :
    (P : Pending → Type 0) (before after : List Pending) (c : Pending)
    → All P (before ++ c ∷ after)
    → P c × All P (before ++ after)
All-middle P [] after c h = h
All-middle P (b ∷ before) after c (first, h) =
    let (mine, rest) = All-middle P before after c h in (mine, (first, rest))

AreApart-middle :
    (before after : List Pending) (c : Pending)
    → AreApart (before ++ c ∷ after)
    → IsFree c.key c.field (before ++ after) × AreApart (before ++ after)
AreApart-middle [] after c h = h
AreApart-middle (b ∷ before) after c (free, h) =
    let (other, rest) = All-middle (λ x. touches x b.key b.field ≡ false) before after c free in
    let (mine, apart) = AreApart-middle before after c h in
    ((touches-sym c b other, mine), (rest, apart))

outcome-middle :
    (j g : Bytes) (before after : List Pending) (c : Pending) (v v' : Option Bytes)
    → IsFree c.key c.field (before ++ after)
    → v' ≡ (if touches c j g then leaves c.value else v)
    → outcome j g (before ++ after) v' ≡ outcome j g (before ++ c ∷ after) v
outcome-middle j g [] after c v v' free e = elim (Bool-cases (touches c j g)) [
  | inl t ↦ ground (arith, t, e, outcome-free j g after v' (IsFree-at c j g after t free))
  | inr f ↦ let same : v' ≡ v = ground (arith, e, f) in rw f (ap (outcome j g after) same)
]
outcome-middle j g (b ∷ before) after c v v' (_, free) e =
    ap (λ r. if touches b j g then leaves b.value else r)
      (outcome-middle j g before after c v v' free e)

module _ (bolt : Bolt) where
  open bolt use {Db, view}

  pub record Writers : Type 0 where
    pub content : Data
    pub file : Option Db
    pub pending : List Pending

  -- A call changes the map, while no other call at its key and field is under way; or one of the calls
  -- writes, and the database takes it.
  pub data Step (s t : Writers) : Type 0 where
    changes :
        (key field value : Bytes)
        → accepts key field ≡ true
        → IsFree key field s.pending
        → t ≡ record s {
          content = (hset_data key field value s.content).0;
          pending =
              record {
                key = key;
                field = field;
                value = value;
                status = (hset_data key field value s.content).1;
              }
              ∷ s.pending;
        }
        → Step s t
    writes :
        (before after : List Pending) (c : Pending) (d d' : Db)
        → s.pending ≡ before ++ c ∷ after
        → s.file ≡ some d
        → Takes bolt c.key (write_of bolt c.key c.field c.value) d d'
        → t ≡ record s {
          file = save bolt c.key c.field c.value c.status s.file;
          pending = before ++ after;
        }
        → Step s t

  pub data Reach (s : Writers) : Writers → Type 0 where
    at_start : Reach s s
    goes_on : {t u : Writers} → Reach s t → Step t u → Reach s u

  -- The status of a call is that of its change.
  abbrev IsOfChange : Pending → Type 0
  IsOfChange c =
      (accepts c.key c.field ≡ true)
      × ((content : Data) × (c.status ≡ (hset_data c.key c.field c.value content).1))

  -- The map is what the file will be.
  abbrev Inv : Writers → Type 0
  Inv s =
      (d : Db) × (s.file ≡ some d)
      × AreApart s.pending
      × All IsOfChange s.pending
      × ((j g : Bytes) → outcome j g s.pending (view d j g) ≡ entry_at j g s.content)

  Step-Inv : {s t : Writers} → Step s t → Inv s → Inv t
  Step-Inv {s} {t} (changes key field value ok free e) (d, f, apart, kept, same) =
      subst Inv (sym e) (
        d,
        f,
        (free, apart),
        ((ok, (s.content, refl)), kept),
        λ j g.
            rw (entry_at-hset_data key field value j g s.content, ok)
              (ap (λ r. if bytes_eq key j && bytes_eq field g then leaves value else r) (same j g)),
      )
  Step-Inv {s} {t} (writes before after c d₀ d' p f₀ takes e) (d, f, apart, kept, same) =
      let ((ok, (content, status)), rest) =
        All-middle IsOfChange before after c (subst (All IsOfChange) p kept) in
      let (mine, others) = AreApart-middle before after c (subst AreApart p apart) in
      let file : d₀ ≡ d = some-injective _ _ (sym f₀ ∙ f) in
      let saved : save bolt c.key c.field c.value c.status s.file ≡ some d' =
        ap (save bolt c.key c.field c.value c.status) f₀
        ∙ ap (λ r. save bolt c.key c.field c.value r (some d₀)) status
        ∙ save-hset_data bolt c.key c.field c.value content d₀ d' ok takes in
      subst Inv (sym e) (
        d',
        saved,
        others,
        rest,
        λ j g.
            outcome-middle j g before after c (view d j g) (view d' j g) mine (
              view-write_of bolt c.key c.field c.value d d' j g (
                subst (λ x. Takes bolt c.key (write_of bolt c.key c.field c.value) x d') file
                  takes))
            ∙ ap (λ cs. outcome j g cs (view d j g)) (sym p)
            ∙ same j g,
      )

  Reach-Inv : {s t : Writers} → Reach s t → Inv s → Inv t
  Reach-Inv at_start h = h
  Reach-Inv (goes_on r st) h = Step-Inv st (Reach-Inv r h)

  abbrev pub fresh : Data → Db → Writers
  fresh content d = record { content = content; file = some d; pending = [] }

  -- If the file is open and holds the entries of the map, then after any calls of Hset, whose
  -- changes and writes may overlap as long as no two calls at one key and field do, at keys and
  -- fields that are not blank, with buckets and writes that the database takes: once every call
  -- has written, the file is open and holds the entries of the map again.
  pub writers-IsSynced :
      (content : Data) (d : Db) (t : Writers)
      → IsSynced bolt content d
      → Reach (fresh content d) t
      → t.pending ≡ []
      → (d' : Db) × (t.file ≡ some d') × IsSynced bolt t.content d'
  writers-IsSynced content d t same run idle =
      let (d', f, _, _, end) = Reach-Inv run (d, refl, tt, tt, same) in
      (d', f, λ j g. ap (λ cs. outcome j g cs (view d' j g)) (sym idle) ∙ end j g)
