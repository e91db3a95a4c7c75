-- ===== src/Rpc/Node/Mocks.antt =====
-- The mocks, the events and the node's own data of rpc/rpc_node.go.
use goms.Base.{
  ℕ, Bytes, bytes_eq, bytes_Eq, bytes_eq_refl, lookup, insert, remove, lookup-insert, Option, none,
  some, List, [], ◌∷◌, Option-cases, inl, inr, if◌then◌else◌, ◌≡◌, refl, arith, ◌∙◌,
}
use goms.Util.HashSet.{is_blank}
use goms.Rpc.Node.{Node, call_mock, is_local}
use goms.Rpc.Node.Calls.{
  Routes, mocked, call, send, json_call_method, json_send_method, raw_call_method, raw_send_method,
}

unfoldable pub init_mock : Node → Node
init_mock node = record node { mock_data = some [] }

-- InsertMock; `none` is the panic of a write to a nil map.
unfoldable pub insert_mock : Bytes → ℕ → Node → Option Node
insert_mock method rsp node = elim node.mock_data [
  | none ↦ none
  | some mocks ↦ some (record node { mock_data = some (insert method rsp mocks) })
]

unfoldable pub remove_mock : Node → Node
remove_mock node = record node { mock_data = none }

-- RegisterService
unfoldable pub add_service : Bytes → Node → Node
add_service name node = record node { services = insert name tt node.services }

abbrev pub all_names : List (Bytes × Unit {0}) → List Bytes
all_names [] = []
all_names ((name, _) ∷ services) = name ∷ all_names services

-- SubmitEvent: the services that get the event.
unfoldable pub submit_event : Bytes → Node → List Bytes
submit_event service node =
    if is_blank service
    then all_names node.services
    else if is_local service node
    then service ∷ []
    else all_names node.services

-- GetData and DelData on the node's map.
abbrev pub load_or_store : Bytes → ℕ → List (Bytes × ℕ) → ℕ × List (Bytes × ℕ)
load_or_store key def m = elim (lookup key m) [ none ↦ (def, insert key def m) | some v ↦ (v, m) ]

abbrev pub del_data : Bytes → List (Bytes × ℕ) → List (Bytes × ℕ)
del_data key m = remove key m

insert_mock-eq_some :
    (method : Bytes) (rsp : ℕ) (node node' : Node)
    → insert_mock method rsp node ≡ some node'
    → (mocks : List (Bytes × ℕ)) × (node.mock_data ≡ some mocks)
      × (node'.mock_data ≡ some (insert method rsp mocks))
unfolding insert_mock
insert_mock-eq_some method rsp node node' e = elim (Option-cases node.mock_data) [
  | inl out ↦ absurd (ground (arith, out))
  | inr (mocks, had) ↦ (mocks, had, ground (arith, had))
]

-- The other methods answer as before.
pub call_mock-insert_mock :
    (method other : Bytes) (rsp : ℕ) (node node' : Node)
    → insert_mock method rsp node ≡ some node'
    → call_mock other node' ≡ (if bytes_eq method other then some rsp else call_mock other node)
unfolding call_mock
call_mock-insert_mock method other rsp node node' e =
    let (mocks, had, has) = insert_mock-eq_some method rsp node node' e in
    rw (has, call_mock) (rw (had, call_mock) (lookup-insert method other rsp mocks))

-- After a mock was inserted, each way of calling its method answers it whatever routes the context
-- has, and the node stays as it is.
pub calls-insert_mock :
    (dial : Bytes → Option ℕ) (routes : Routes) (method : Bytes) (rsp : ℕ) (node node' : Node)
    → insert_mock method rsp node ≡ some node'
    → (call dial routes method node' ≡ (mocked rsp, node'))
      × (send dial routes method node' ≡ (mocked rsp, node'))
      × (json_call_method dial routes method node' ≡ (mocked rsp, node'))
      × (json_send_method dial routes method node' ≡ (mocked rsp, node'))
      × (raw_call_method dial routes method node' ≡ (mocked rsp, node'))
      × (raw_send_method dial routes method node' ≡ (mocked rsp, node'))
unfolding call send json_call_method json_send_method raw_call_method raw_send_method
calls-insert_mock dial routes method rsp node node' e =
    let found : call_mock method node' ≡ some rsp =
      call_mock-insert_mock method method rsp node node' e ∙ rw (bytes_eq_refl method) refl in
    (
      rw (found, call),
      rw (found, send),
      rw (found, json_call_method),
      rw (found, json_send_method),
      rw (found, raw_call_method),
      rw (found, raw_send_method),
    )

-- What was stored is kept, until it is deleted.
pub load_or_store-twice :
    (key : Bytes) (a b : ℕ) (m : List (Bytes × ℕ))
    → (load_or_store key b (load_or_store key a m).1).0 ≡ (load_or_store key a m).0
load_or_store-twice key a b m = ground (arith, lookup-insert key key a m, bytes_eq_refl key)
