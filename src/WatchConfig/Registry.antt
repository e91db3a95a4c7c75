-- ===== src/WatchConfig/Registry.antt =====
-- The entries of a node in the registry of watch_config.
use goms.Base.{
  Bytes, bytes_eq, bytes_eq_refl, codes, List, [], ◌∷◌, ◌++◌, none, some, false, ◌≡◌, refl, ◌∙◌,
  arith,
}
use goms.Util.HashSet.{Data, is_blank}
use goms.Util.HashSet.Refine.{entry_at, entry_at-hset_data}
use goms.Rpc.Node.{NodeInfo, ServiceInfo}
use goms.WatchConfig.{
  register_key, node_load_key, service_load_key, client_hset, zero_loads, del_register_node,
}

-- The loop leaves the entries of every other key.
pub zero_loads-other :
    (name j g : Bytes) (services : List ServiceInfo) (content : Data)
    → ((service : Bytes) → bytes_eq (service_load_key service) j ≡ false)
    → entry_at j g (zero_loads name services content) ≡ entry_at j g content
unfolding zero_loads
zero_loads-other name j g [] content apart = refl
zero_loads-other name j g (service ∷ services) content apart =
    zero_loads-other name j g services
      (client_hset (service_load_key service.name) name (codes "0") content) apart
    ∙ ground (
      arith,
      entry_at-hset_data (service_load_key service.name) name (codes "0") j g content,
      apart service.name,
    )

-- A load of 0 stays.
zero_loads-stays :
    (name j : Bytes) (services : List ServiceInfo) (content : Data)
    → entry_at j name content ≡ some (codes "0")
    → entry_at j name (zero_loads name services content) ≡ some (codes "0")
unfolding zero_loads
zero_loads-stays name j [] content h = h
zero_loads-stays name j (service ∷ services) content h =
    zero_loads-stays name j services
      (client_hset (service_load_key service.name) name (codes "0") content)
      (ground
        (arith, entry_at-hset_data (service_load_key service.name) name (codes "0") j name content))

zero_loads-service :
    (name : Bytes) (service : ServiceInfo) (before after : List ServiceInfo) (content : Data)
    → is_blank name ≡ false
    → entry_at
        (service_load_key service.name)
        name
        (zero_loads name (before ++ service ∷ after) content)
      ≡ some (codes "0")
unfolding zero_loads
zero_loads-service name service [] after content named =
    zero_loads-stays name (service_load_key service.name) after
      (client_hset (service_load_key service.name) name (codes "0") content)
      (ground (
        arith,
        entry_at-hset_data (service_load_key service.name) name (codes "0")
            (service_load_key service.name) name content,
        bytes_eq_refl (service_load_key service.name),
        bytes_eq_refl name,
      ))
zero_loads-service name service (b ∷ before) after content named =
    zero_loads-service name service before after
      (client_hset (service_load_key b.name) name (codes "0") content) named

pub service_apart_register :
    (set service : Bytes) → bytes_eq (service_load_key service) (register_key set) ≡ false
unfolding bytes_eq
service_apart_register set service = refl

service_apart_node :
    (node_type service : Bytes)
    → bytes_eq (service_load_key service) (node_load_key node_type) ≡ false
unfolding bytes_eq
service_apart_node node_type service = refl

pub node_apart_register :
    (node_type set : Bytes) → bytes_eq (node_load_key node_type) (register_key set) ≡ false
unfolding bytes_eq
node_apart_register node_type set = refl

-- For a node whose name is not blank and that offers a service, DelRegisterNode removes the node's
-- registration and its node load, and leaves the service with a load of 0 for the node.
pub del_register_node_lem :
    (info : NodeInfo) (service : ServiceInfo) (before after : List ServiceInfo) (content : Data)
    → is_blank info.name ≡ false
    → info.services ≡ before ++ service ∷ after
    → (entry_at (register_key info.set) info.name (del_register_node info content) ≡ none)
      × (entry_at (node_load_key info.node_type) info.name (del_register_node info content) ≡ none)
      × (entry_at (service_load_key service.name) info.name (del_register_node info content)
          ≡ some (codes "0"))
unfolding del_register_node
del_register_node_lem info service before after content named offers =
    let key = register_key info.set in
    let load = node_load_key info.node_type in
    let d₁ = client_hset key info.name [] content in
    let d₂ = client_hset load info.name [] d₁ in
    (
      zero_loads-other info.name key info.name info.services d₂ (service_apart_register info.set)
          ∙ ground (
            arith,
            entry_at-hset_data load info.name [] key info.name d₁,
            entry_at-hset_data key info.name [] key info.name content,
            node_apart_register info.node_type info.set,
            bytes_eq_refl key,
            bytes_eq_refl info.name,
          ),
      zero_loads-other info.name load info.name info.services d₂ (service_apart_node info.node_type)
          ∙ ground (
            arith,
            entry_at-hset_data load info.name [] load info.name d₁,
            bytes_eq_refl load,
            bytes_eq_refl info.name,
          ),
      rw offers (zero_loads-service info.name service before after d₂ named),
    )
