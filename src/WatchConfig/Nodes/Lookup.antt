-- ===== src/WatchConfig/Nodes/Lookup.antt =====
-- What watch_config reads of what it wrote.
use goms.Base.{
  Bytes, bytes_eq_refl, bytes_eq_iff, bytes_Eq, codes, IsDistinct, insert, lookup, lookup-insert,
  Option, none, some, List, [], ◌∷◌, false, if◌then◌else◌, ◌≡◌, refl, ap, ◌∙◌, arith,
}
use goms.Util.HashSet.{Fields, Data, fields_of, hgetall, flatten_fields, is_blank}
use goms.Util.HashSet.Refine.{entry_at, entry_at-hset_data, hget-entry_at, hget-hset_data}
use goms.Rpc.Node.{NodeInfo}
use goms.WatchConfig.{register_key, node_load_key, client_hset, register_node}
use goms.WatchConfig.Registry.{zero_loads-other, service_apart_register, node_apart_register}
use goms.WatchConfig.Nodes.{
  collect, get_all_register_node, get_register_node, GateInfo, set_gate_info, get_gate_info,
}

abbrev pub parsed : {V : Type 0} → (Bytes → V) → Option Bytes → Option V
parsed parse none = none
parsed parse (some value) = some (parse value)

collect-flatten_fields :
    {V : Type 0} (parse : Bytes → V) (info : Fields) (m : List (Bytes × V))
    → IsDistinct info
    → (out : List (Bytes × V)) × (collect parse (flatten_fields info) m ≡ some out)
      × ((k : Bytes)
          → lookup k out
            ≡ elim (lookup k info) [ none ↦ lookup k m | some value ↦ some (parse value) ])
unfolding collect
collect-flatten_fields parse [] m d = (m, refl, λ k. refl)
collect-flatten_fields parse ((name, value) ∷ info) m (fresh, d) =
    let (out, e, found) = collect-flatten_fields parse info (insert name (parse value) m) d in
    (
      out,
      e,
      λ k. ground (arith, found k, lookup-insert name k (parse value) m, bytes_eq_iff name k),
    )

hgetall-fields_of :
    (key : Bytes) (content : Data)
    → is_blank key ≡ false
    → hgetall key content ≡ flatten_fields (fields_of key content)
unfolding hgetall
hgetall-fields_of key content full = ground arith

-- If no node is twice among the entries of a set, GetAllRegisterNode answers a map that has each
-- registered node of the set, read from its text, and no other.
pub get_all_register_node_lem :
    (parse : Bytes → NodeInfo) (set : Bytes) (content : Data)
    → IsDistinct (fields_of (register_key set) content)
    → (out : List (Bytes × NodeInfo)) × (get_all_register_node parse set content ≡ some out)
      × ((name : Bytes) → lookup name out ≡ parsed parse (entry_at (register_key set) name content))
unfolding get_all_register_node
get_all_register_node_lem parse set content d =
    let (out, e, found) =
      collect-flatten_fields parse (fields_of (register_key set) content) [] d in
    (
      out,
      ap (λ values. collect parse values []) (hgetall-fields_of (register_key set) content refl)
          ∙ e,
      λ name. found name ∙ ground arith,
    )

entry_at-register_node :
    (text : NodeInfo → Bytes) (info : NodeInfo) (content : Data)
    → is_blank info.name ≡ false
    → entry_at (register_key info.set) info.name (register_node text info content)
      ≡ (if is_blank (text info) then none else some (text info))
unfolding register_node
entry_at-register_node text info content named =
    let key = register_key info.set in
    let load = node_load_key info.node_type in
    let d₁ = client_hset key info.name (text info) content in
    let d₂ = client_hset load info.name (codes "0") d₁ in
    zero_loads-other info.name key info.name info.services d₂ (service_apart_register info.set)
    ∙ ground (
      arith,
      entry_at-hset_data load info.name (codes "0") key info.name d₁,
      entry_at-hset_data key info.name (text info) key info.name content,
      node_apart_register info.node_type info.set,
      bytes_eq_refl key,
      bytes_eq_refl info.name,
    )

-- x
pub get_register_node-register_node :
    (text : NodeInfo → Bytes) (parse : Bytes → NodeInfo) (info : NodeInfo) (content : Data)
    → is_blank info.name ≡ false
    → is_blank (text info) ≡ false
    → parse (text info) ≡ info
    → get_register_node parse info.name info.set (register_node text info content) ≡ some info
unfolding get_register_node
get_register_node-register_node text parse info content named full back = ground (
  arith,
  hget-entry_at (register_key info.set) info.name (register_node text info content),
  entry_at-register_node text info content named,
)

-- x
pub get_gate_info-set_gate_info :
    (text : GateInfo → Bytes) (parse : Bytes → Option GateInfo) (gate : GateInfo) (content : Data)
    → is_blank gate.name ≡ false
    → is_blank (text gate) ≡ false
    → parse (text gate) ≡ some gate
    → get_gate_info parse gate.name (set_gate_info text gate content) ≡ some gate
unfolding get_gate_info
get_gate_info-set_gate_info text parse gate content named full back =
    ground (arith, hget-hset_data (codes "gate") gate.name (text gate) content (ground arith))
