-- ===== src/Rpc/Node/Lookup.antt =====
-- The connections of rpc/rpc_node.go: which address is dialled, when a peer is dialled again, and
-- which provider of a service is taken.
use goms.Base.{
  ℕ, Bytes, bytes_Eq, bytes_eq_iff, bytes_eq_refl, lookup, insert, lookup-modify, lookup-insert,
  Option, none, some, List, [], ◌∷◌, ◌++◌, false, if◌then◌else◌, ◌==◌, ◌≡◌, ◌≢◌, refl, ◌∙◌, arith,
  All, All-append, Option-cases, inl, inr,
}
use goms.Rpc.Node.{
  Client, NodeConn, NodeInfo, Node, new_client, split_last, split_service_method, split_parts,
  split_on, get_node_address, usable, redial, get_node, pick, get_client, find_rpc_conn_by_service,
  connect_node, add_services,
}

abbrev pub Lacks : ℕ → Bytes → Type 0
Lacks b = All (λ c. c ≢ b)

split_last-none : (s : Bytes) → Lacks b'.' s → split_last s ≡ none
unfolding split_last
split_last-none [] h = refl
split_last-none (c ∷ s) h = ground (arith, split_last-none s h.1)

pub split_last-append :
    (service name : Bytes)
    → Lacks b'.' name
    → split_last (service ++ b'.' ∷ name) ≡ some (service, name)
unfolding split_last
split_last-append [] name h = ground (arith, split_last-none name h)
split_last-append (c ∷ s) name h = ground (arith, split_last-append s name h)

-- A service and a method name without dots are found again in "service.method", whatever dots the
-- service has.
pub split_service_method-join :
    (service name : Bytes)
    → Lacks b'.' name
    → split_service_method (service ++ b'.' ∷ name) ≡ (service, name)
unfolding split_service_method
split_service_method-join service name h = ground (arith, split_last-append service name h)

pub split_parts-none : (sep : ℕ) (s : Bytes) → Lacks sep s → split_parts sep s ≡ (s, [])
unfolding split_parts
split_parts-none sep [] h = refl
split_parts-none sep (c ∷ s) h = ground (arith, split_parts-none sep s h.1)

pub split_parts-append :
    (sep : ℕ) (s rest : Bytes)
    → Lacks sep s
    → split_parts sep (s ++ sep ∷ rest) ≡ (s, split_on sep rest)
unfolding split_parts split_on
split_parts-append sep [] rest h = ground arith
split_parts-append sep (c ∷ s) rest h = ground (arith, split_parts-append sep s rest h.1)

-- For hosts and a port without colons and slashes where these part an address, "inner/outer:port"
-- is dialled at its inner host from the peer's own region, and at its outer host from any other.
pub get_node_address-pair :
    (inner outer port : Bytes) (region : ℕ) (node : Node)
    → Lacks b':' inner
    → Lacks b':' outer
    → Lacks b'/' inner
    → Lacks b'/' outer
    → Lacks b':' port
    → get_node_address ((inner ++ b'/' ∷ outer) ++ b':' ∷ port) region node
      ≡ some ((if region == node.region then inner else outer) ++ b':' ∷ port)
unfolding get_node_address split_on
get_node_address-pair inner outer port region node hi ho si so hp = ground (
  arith,
  split_parts-append b':' (inner ++ b'/' ∷ outer) port
      (All-append (λ c. c ≢ b':') inner (b'/' ∷ outer) hi (omega arith, ho)),
  split_parts-none b':' port hp,
  split_parts-append b'/' inner outer si,
  split_parts-none b'/' outer so,
)

-- An address with one host is dialled as it stands.
pub get_node_address-single :
    (host rest : Bytes) (region : ℕ) (node : Node)
    → Lacks b':' host
    → Lacks b'/' host
    → get_node_address (host ++ b':' ∷ rest) region node ≡ some (host ++ b':' ∷ rest)
unfolding get_node_address split_on
get_node_address-single host rest region node h s =
    ground (arith, split_parts-append b':' host rest h, split_parts-none b'/' host s)

-- The client of the first pair that fits the region, or of the first pair.
abbrev pub first_in_region : ℕ → List (Bytes × Client) → Option Client
first_in_region region [] = none
first_in_region region ((_, c) ∷ clients) =
    if region == c.region then some c else first_in_region region clients

abbrev pub first_client : List (Bytes × Client) → Option Client
first_client [] = none
first_client ((_, c) ∷ clients) = some c

abbrev pub or_else {ℓ} : {A : Type ℓ} → Option A → Option A → Option A
or_else none b = b
or_else (some a) b = some a

pick_lem :
    (region : ℕ) (clients : List (Bytes × Client)) (a b : Option Client)
    → pick region clients a b
      ≡ or_else a (or_else (first_in_region region clients) (or_else b (first_client clients)))
unfolding pick
pick_lem region [] a b = ground arith
pick_lem region ((_, c) ∷ clients) none b =
    pick_lem region clients (if region == c.region then some c else none) _ ∙ ground arith
pick_lem region ((_, c) ∷ clients) (some a) b = pick_lem region clients (some a) _

module _ (dial : Bytes → Option ℕ) where
  -- The single loop of getClient finds the first connected provider in the node's own region if
  -- there is one, and else the first connected provider.
  pub get_client_lem :
      (service : Bytes) (node : Node)
      → (get_client dial service node).0
        ≡ or_else
            (first_in_region node.region (find_rpc_conn_by_service dial service node).0)
            (first_client (find_rpc_conn_by_service dial service node).0)
  unfolding get_client
  get_client_lem service node =
      pick_lem node.region (find_rpc_conn_by_service dial service node).0 none none

  redial-stores :
      (name : Bytes) (nc : NodeConn) (node : Node) (c : Client)
      → lookup name node.rpc_client ≡ some nc
      → (redial dial name nc node).0 ≡ some c
      → (c.region ≡ 0)
        × (c.is_close ≡ false)
        × (lookup name (redial dial name nc node).1.rpc_client ≡ some (record nc { conn = some c }))
  unfolding redial
  redial-stores name nc node c found e =
      elim (Option-cases (get_node_address nc.info.address nc.info.region node)) [
        | inl no_address ↦ absurd (ground arith)
        | inr (address, ea) ↦ elim (Option-cases (dial address)) [
          | inl failed ↦ absurd (ground arith)
          | inr (id, ed) ↦ ground (
            arith,
            lookup-modify name name (λ (nc : NodeConn). record nc { conn = some (new_client id) })
                node.rpc_client,
            bytes_eq_refl name,
          )
        ]
      ]

  -- A peer that was found stays connected: asked for again at once, it is the same client, and the
  -- node does not change.
  pub get_node-again :
      (name : Bytes) (node : Node) (c : Client)
      → (get_node dial name node).0 ≡ some c
      → get_node dial name (get_node dial name node).1 ≡ (some c, (get_node dial name node).1)
  unfolding get_node usable
  get_node-again name node c e = elim (Option-cases (lookup name node.rpc_client)) [
    | inl missing ↦ absurd (ground arith)
    | inr (nc, found) ↦ ground (arith, redial-stores name nc node c found)
  ]

  -- A peer whose stored connection cannot be used and that is reached when it is dialled again
  -- becomes an open client of region 0, whatever region the peer registered.
  pub get_node-redialled :
      (name : Bytes) (node : Node) (nc : NodeConn) (c : Client)
      → lookup name node.rpc_client ≡ some nc
      → usable nc ≡ none
      → (get_node dial name node).0 ≡ some c
      → (c.region ≡ 0) × (c.is_close ≡ false)
  unfolding get_node
  get_node-redialled name node nc c found lost e =
      ground (arith, redial-stores name nc node c found)

  -- After connectNode reached a peer other than the node itself, at an address that it has, the
  -- peer's connection is at hand, with the peer's region.
  pub get_node-connect_node :
      (info : NodeInfo) (node : Node) (address : Bytes) (id : ℕ)
      → info.name ≢ node.name
      → get_node_address info.address info.region node ≡ some address
      → dial address ≡ some id
      → (node' : Node) × (connect_node dial info node ≡ some node')
        × (get_node dial info.name node'
            ≡ (some (record (new_client id) { region = info.region }), node'))
  unfolding connect_node
  get_node-connect_node info node address id other ea ed =
      let node₁ = add_services info info.services node in
      let nc : NodeConn = record {
        info = info;
        conn = some (record (new_client id) { region = info.region });
        close = false;
      } in
      let node' = record node₁ { rpc_client = insert info.name nc node₁.rpc_client } in
      (
        node',
        ground (arith, bytes_eq_iff info.name node.name),
        unfold get_node usable in
            ground (
              arith,
              lookup-insert info.name info.name nc node₁.rpc_client,
              bytes_eq_refl info.name,
            ),
      )
