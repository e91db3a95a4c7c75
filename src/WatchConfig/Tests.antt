-- ===== src/WatchConfig/Tests.antt =====
-- A registry with two nodes, and the theorems of watch_config at it.
use goms.Base.{
  ℕ, Bytes, codes, bytes_Eq, lookup, List, [], ◌∷◌, ◌++◌, Option, none, some, true, ◌≡◌, refl,
  arith,
}
use goms.Base.Int.{pos}
use goms.Util.HashSet.{Data, fields_of, is_some, hgetall}
use goms.Watch.Client
use goms.Watch.Client.{
  int_Eq, add_int32, WatchClient, new_watch_client, returned, panicked, values_result,
  receive_message, deliver_taking, request,
}
use goms.Util.HashSet.Refine.{entry_at}
use goms.Rpc.Node.{NodeInfo, ServiceInfo}
use goms.WatchConfig.{del_register_node, alloc_load}
use goms.WatchConfig.Registry.{del_register_node_lem}
use goms.WatchConfig.Alloc.{alloc_load-registered}

abbrev pub logger : ServiceInfo
logger = record { name = codes "Log"; funcs = [] }

abbrev pub node : NodeInfo
node = record {
  id = 1;
  name = codes "n1";
  node_type = codes "t";
  address = codes "a:1";
  services = logger ∷ [];
  region = 1;
  set = [];
}

abbrev pub registry : Data
registry =
    (codes "nodeRegister:", (codes "n1", codes "{}") ∷ [])
    ∷ (codes "node_load:t", (codes "n1", codes "4") ∷ (codes "n2", codes "7") ∷ [])
    ∷ (codes "service_load:Log", (codes "n1", codes "4") ∷ [])
    ∷ []

del_register_node_lem_example :
    (entry_at (codes "nodeRegister:") (codes "n1") (del_register_node node registry) ≡ none)
    × (entry_at (codes "node_load:t") (codes "n1") (del_register_node node registry) ≡ none)
    × (entry_at (codes "service_load:Log") (codes "n1") (del_register_node node registry)
        ≡ some (codes "0"))
del_register_node_lem_example = del_register_node_lem node logger [] [] registry refl refl

-- A client that is closed has no values, and a request that is not answered in time panics.
alloc_load_test : (alloc_load 77 (returned []) ≡ none) × (alloc_load 77 panicked ≡ none)
unfolding alloc_load goms.Util.Rand.rand_less_weight
alloc_load_test = (refl, refl)

abbrev asking : WatchClient ℕ
asking = new_watch_client

alloc_load-registered_example :
    let key = codes "node_load:t" in
    let answer = record (request (codes "hgetall") (key ∷ []) asking) {
      values = hgetall key registry;
    } in
    (after : WatchClient ℕ) × (chosen : Bytes) × (deliver_taking
        (answer ∷ [])
        (Client.hgetall key asking)
      ≡ some ([], after))
    × (alloc_load 77 (values_result (receive_message (pos 1) after).0) ≡ some chosen)
    × (is_some (lookup chosen (fields_of key registry)) ≡ true)
unfolding goms.Base.bytes_eq goms.Base.Decimal.atoi add_int32
alloc_load-registered_example =
    alloc_load-registered 77 7 (codes "node_load:t") (codes "n1") (codes "4")
      ((codes "n2", codes "7") ∷ []) registry asking [] [] refl refl
      ((omega arith, (omega arith, tt)), omega arith) refl refl refl refl tt tt
