-- ===== src/WatchConfig/Alloc.antt =====
-- The choice of a node by its load: allocLoad of watch_config/service.go.
use goms.Base.{
  ℕ, zero, suc, ◌<◌, Bytes, bytes_Eq, bytes_eq_refl, lookup, List, [], ◌∷◌, length, get_elem?, some,
  true, false, ◌≡◌, refl, sym, subst, arith, ◌++◌, All, codes, none, ap, ◌∙◌,
}
use goms.Base.Int.{pos}
use goms.Base.Decimal.{atoi}
use goms.Util.HashSet.{Fields, Data, fields_of, is_blank, is_some, flatten_fields}
use goms.Util.HashSet
use goms.Watch.Message.{WatchMessage}
use goms.Watch.Client.{
  int_eq, int_Eq, add_int32, WatchClient, returned, values_result, receive_message, deliver_taking,
  request, hgetall,
}
use goms.Watch.Client.Deliver.{IsAnnouncement, request-answered}
use goms.Util.Rand.Share.{LeavesRoom, rand_less_weight-total}
use goms.WatchConfig.{to_uint64, split_loads, alloc_load}

abbrev pub nodes_in : Fields → List Bytes
nodes_in [] = []
nodes_in ((name, load) ∷ info) = name ∷ nodes_in info

abbrev pub loads_in : Fields → List ℕ
loads_in [] = []
loads_in ((name, load) ∷ info) = to_uint64 (atoi load) ∷ loads_in info

split_loads-flatten_fields :
    (info : Fields) → split_loads (flatten_fields info) ≡ some (nodes_in info, loads_in info)
unfolding split_loads
split_loads-flatten_fields [] = refl
split_loads-flatten_fields ((name, load) ∷ info) = rw (split_loads-flatten_fields info) refl

node_at :
    (info : Fields) (index : ℕ)
    → index < length (loads_in info)
    → (name : Bytes) × (get_elem? (nodes_in info) index ≡ some name)
      × (is_some (lookup name info) ≡ true)
node_at [] index h = ground arith
node_at ((name, load) ∷ info) zero h = (name, refl, ground (arith, bytes_eq_refl name))
node_at ((name, load) ∷ info) (suc index) h =
    let (other, at, known) = node_at info index (ground arith) in (other, at, ground arith)

hgetall-stored :
    (key : Bytes) (info : Fields) (content : Data)
    → is_blank key ≡ false
    → lookup key content ≡ some info
    → HashSet.hgetall key content ≡ flatten_fields info
unfolding HashSet.hgetall
hgetall-stored key info content named there = ground arith

fields_of-stored :
    (key : Bytes) (info : Fields) (content : Data)
    → lookup key content ≡ some info
    → fields_of key content ≡ info
fields_of-stored key info content there = ground arith

stored-alloc_load :
    (random bound : ℕ) (key name load : Bytes) (info : Fields) (content : Data)
    → is_blank key ≡ false
    → lookup key content ≡ some ((name, load) ∷ info)
    → LeavesRoom bound (loads_in ((name, load) ∷ info))
    → (node : Bytes) × (alloc_load random (returned (HashSet.hgetall key content)) ≡ some node)
      × (is_some (lookup node (fields_of key content)) ≡ true)
unfolding alloc_load
stored-alloc_load random bound key name load info content named there room =
    let rows = (name, load) ∷ info in
    let (index, weights, chosen, inside) =
      rand_less_weight-total random bound (to_uint64 (atoi load)) (loads_in info) room in
    let (node, at, known) = node_at rows index inside in
    (
      node,
      rw
          (
            alloc_load,
            hgetall-stored key rows content named there,
            split_loads-flatten_fields rows,
            chosen,
          )
          at,
      subst (λ m. is_some (lookup node m) ≡ true) (sym (fields_of-stored key rows content there))
          known,
    )

-- For a key that is not blank and holds at least one node, with loads at most a bound that leaves
-- room for the sum of the weights in 64 bits, and an open client whose number does not wrap to 0
-- and whose channel of announcements is empty and is read as they come: when the server's answer
-- to Hgetall comes, with announcements around it, allocLoad does not panic, and it answers a node
-- of that key.
pub alloc_load-registered :
    {C : Type 0} (random bound : ℕ) (key name load : Bytes) (info : Fields) (content : Data)
    (wc : WatchClient C) (before behind : List WatchMessage)
    → is_blank key ≡ false
    → lookup key content ≡ some ((name, load) ∷ info)
    → LeavesRoom bound (loads_in ((name, load) ∷ info))
    → wc.is_close ≡ false
    → int_eq (add_int32 wc.seq) (pos 0) ≡ false
    → lookup (pos 0) wc.message_chan ≡ none
    → wc.watch_chan ≡ []
    → All IsAnnouncement before
    → All IsAnnouncement behind
    → let answer = record (request (codes "hgetall") (key ∷ []) wc) {
      values = HashSet.hgetall key content;
    } in
      (after : WatchClient C) × (node : Bytes) × (deliver_taking
          (before ++ answer ∷ behind)
          (hgetall key wc)
        ≡ some (before ++ behind, after))
      × (alloc_load random (values_result (receive_message (add_int32 wc.seq) after).0) ≡ some node)
      × (is_some (lookup node (fields_of key content)) ≡ true)
unfolding values_result
alloc_load-registered random bound key name load info content wc before behind named there room
      running number quiet idle a b =
    let (node, chosen, known) =
      stored-alloc_load random bound key name load info content named there room in
    let (after, read, (reply, _)) =
      request-answered (codes "hgetall") (key ∷ []) wc (HashSet.hgetall key content) before behind
        running number quiet idle a b in
    (after, node, read, ap (λ r. alloc_load random (values_result r)) reply ∙ chosen, known)
