-- ===== src/Rpc/Node.antt =====
-- rpc/rpc_node.go: which connection, service or mock answers a call. The node's state is a record;
-- a call that the code hands to a client, to its own server or to a mock is the value `Outcome`.
-- Dialling is given from outside: `dial` answers with the number of a new connection or fails.
pub mod Lookup
pub mod Mocks
pub mod Calls
pub mod Routing
pub mod Tests
use goms.Base.{
  ℕ, Bytes, bytes_eq, bytes_Eq, lookup, insert, remove, modify, Option, none, some, List, [], ◌∷◌,
  ◌++◌, Bool, true, false, if◌then◌else◌, ◌==◌, not, ◌||◌, codes,
}
use goms.Base.Decimal.{format_nat}

-- splitServiceMethod: at the last dot; two empty texts where there is none.
unfoldable pub split_last : Bytes → Option (Bytes × Bytes)
split_last [] = none
split_last (c ∷ s) = elim (split_last s) [
  | some (before, after) ↦ some (c ∷ before, after)
  | none ↦ if c == b'.' then some ([], s) else none
]

unfoldable pub split_service_method : Bytes → Bytes × Bytes
unfolding split_last
split_service_method s = elim (split_last s) [ none ↦ ([], []) | some p ↦ p ]

-- A connected client, as the node sees it.
pub record Client : Type 0 where
  pub id : ℕ
  pub region : ℕ
  pub is_close : Bool

-- A client fresh from Dial: its region is Go's zero value.
abbrev pub new_client : ℕ → Client
new_client id = record { id = id; region = 0; is_close = false }

pub record ServiceInfo : Type 0 where
  pub name : Bytes
  pub funcs : List (Bytes × ℕ)

pub record NodeInfo : Type 0 where
  pub id : ℕ
  pub name : Bytes
  pub node_type : Bytes
  pub address : Bytes
  pub services : List ServiceInfo
  pub region : ℕ
  pub set : Bytes

-- GxNodeConn
pub record NodeConn : Type 0 where
  pub info : NodeInfo
  pub conn : Option Client
  pub close : Bool

abbrev pub NodeNames : Type 0
NodeNames = List (Bytes × Unit {0})

pub record Node : Type 0 where
  pub name : Bytes
  pub region : ℕ
  -- the names of the node's own services
  pub services : List (Bytes × Unit {0})
  pub rpc_client : List (Bytes × NodeConn)
  pub service_node : List (Bytes × NodeNames)
  pub cmd_service : List (Bytes × Bytes)
  pub mock_data : Option (List (Bytes × ℕ))

-- callMock: the mock's number stands for its response, code and error.
unfoldable pub call_mock : Bytes → Node → Option ℕ
call_mock method node = elim node.mock_data [ none ↦ none | some mocks ↦ lookup method mocks ]

abbrev pub is_local : Bytes → Node → Bool
is_local service node = elim (lookup service node.services) [ none ↦ false | some _ ↦ true ]

-- strings.Split on one byte: the first part and the others.
unfoldable pub split_parts : ℕ → Bytes → Bytes × List Bytes
split_parts sep [] = ([], [])
split_parts sep (c ∷ s) =
    let (part, parts) = split_parts sep s in
    if c == sep then ([], part ∷ parts) else (c ∷ part, parts)

unfoldable pub split_on : ℕ → Bytes → List Bytes
unfolding split_parts
split_on sep s = let (part, parts) = split_parts sep s in part ∷ parts

abbrev pub nth : ℕ → List Bytes → Option Bytes
nth n [] = none
nth ℕ.zero (p ∷ parts) = some p
nth (ℕ.suc n) (p ∷ parts) = nth n parts

-- getNodeAddress: `none` is the panic of an index out of range.
unfoldable pub get_node_address : Bytes → ℕ → Node → Option Bytes
unfolding split_on
get_node_address address region node =
    let arr = split_on b':' address in
    elim (nth 0 arr) [
      | none ↦ none
      | some hosts ↦
          let arr₁ = split_on b'/' hosts in
          elim (nth 1 arr₁) [
            | none ↦ some address
            | some outer ↦ elim (nth 0 arr₁) [
              | none ↦ none
              | some inner ↦ elim (nth 1 arr) [
                | none ↦ none
                | some port ↦ some ((if region == node.region then inner else outer) ++ b':' ∷ port)
              ]
            ]
          ]
    ]

-- AddServiceMethod: under the peer's type, and under no type.
abbrev pub cmd_key : Bytes → ℕ → Bytes
cmd_key node_type cmd = node_type ++ b'.' ∷ format_nat cmd

unfoldable pub add_service_method : Bytes → ℕ → Bytes → List (Bytes × Bytes) → List (Bytes × Bytes)
add_service_method node_type cmd method m =
    insert (cmd_key [] cmd) method (insert (cmd_key node_type cmd) method m)

unfoldable pub find_service_method : Bytes → ℕ → Node → Bytes
find_service_method node_type cmd node = elim (lookup (cmd_key node_type cmd) node.cmd_service) [
  | none ↦ []
  | some method ↦ method
]

-- The loops of connectNode over the peer's services and over their functions.
unfoldable pub add_functions :
    Bytes → Bytes → List (Bytes × ℕ) → List (Bytes × Bytes) → List (Bytes × Bytes)
unfolding add_service_method
add_functions node_type service [] m = m
add_functions node_type service ((name, cmd) ∷ funcs) m =
    add_functions node_type service funcs
      (add_service_method node_type cmd (service ++ b'.' ∷ name) m)

unfoldable pub names_of : Bytes → List (Bytes × NodeNames) → NodeNames
names_of service m = elim (lookup service m) [ none ↦ [] | some names ↦ names ]

unfoldable pub add_services : NodeInfo → List ServiceInfo → Node → Node
unfolding add_functions names_of
add_services info [] node = node
add_services info (service ∷ services) node = add_services info services (record node {
  service_node =
      insert service.name (insert info.name tt (names_of service.name node.service_node))
        node.service_node;
  cmd_service = add_functions info.node_type service.name service.funcs node.cmd_service;
})

unfoldable pub usable : NodeConn → Option Client
usable nc = elim nc.conn [ none ↦ none | some c ↦ if c.is_close then none else some c ]

-- The loop of getClient: the first client, and the first of the node's own region.
unfoldable pub pick : ℕ → List (Bytes × Client) → Option Client → Option Client → Option Client
pick region [] client client2 = elim client [ some c ↦ some c | none ↦ client2 ]
pick region ((_, c) ∷ clients) client client2 =
    pick region clients
      (elim client [ some c' ↦ some c' | none ↦ if region == c.region then some c else none ])
      (elim client2 [ some c' ↦ some c' | none ↦ some c ])

module _ (dial : Bytes → Option ℕ) where
  -- What connectNode stores for the peer: no client, and the mark, where dialling failed.
  abbrev pub dialled : NodeInfo → Option ℕ → NodeConn
  dialled info none = record { info = info; conn = none; close = true }
  dialled info (some id) = record {
    info = info;
    conn = some (record (new_client id) { region = info.region });
    close = false;
  }

  unfoldable pub connect_node : NodeInfo → Node → Option Node
  unfolding get_node_address add_services
  connect_node info node =
      if bytes_eq info.name node.name
      then some node
      else elim (get_node_address info.address info.region node) [
        | none ↦ none
        | some address ↦
            let node₁ = add_services info info.services node in
            some (record node₁ {
              rpc_client = insert info.name (dialled info (dial address)) node₁.rpc_client;
            })
      ]

  -- getNode: the peer's connection, dialled again if it is missing or closed. getNodeAddress does
  -- not panic here, since it did not when connectNode stored the entry.
  unfoldable pub redial : Bytes → NodeConn → Node → Option Client × Node
  unfolding get_node_address
  redial name nc node = elim (get_node_address nc.info.address nc.info.region node) [
    | none ↦ (none, node)
    | some address ↦ elim (dial address) [
      | none ↦ (none, node)
      | some id ↦ (
        some (new_client id),
        record node {
          rpc_client =
              modify name (λ nc. record nc { conn = some (new_client id) }) node.rpc_client;
        },
      )
    ]
  ]

  unfoldable pub get_node : Bytes → Node → Option Client × Node
  unfolding usable redial
  get_node name node = elim (lookup name node.rpc_client) [
    | none ↦ (none, node)
    | some nc ↦ elim (usable nc) [ none ↦ redial name nc node | some c ↦ (some c, node) ]
  ]

  -- The loop of FindRpcConnByService.
  unfoldable pub connect_all : List (Bytes × Unit {0}) → Node → List (Bytes × Client) × Node
  unfolding get_node
  connect_all [] node = ([], node)
  connect_all ((name, _) ∷ names) node =
      let (found, node₁) = get_node name node in
      let (clients, node₂) = connect_all names node₁ in
      (elim found [ none ↦ clients | some c ↦ (name, c) ∷ clients ], node₂)

  unfoldable pub find_rpc_conn_by_service : Bytes → Node → List (Bytes × Client) × Node
  unfolding connect_all
  find_rpc_conn_by_service service node = elim (lookup service node.service_node) [
    | none ↦ ([], node)
    | some names ↦ connect_all names node
  ]

  unfoldable pub get_client : Bytes → Node → Option Client × Node
  unfolding find_rpc_conn_by_service pick
  get_client service node =
      let (clients, node') = find_rpc_conn_by_service service node in
      (pick node.region clients none none, node')
