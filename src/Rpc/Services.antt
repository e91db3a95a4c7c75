-- ===== src/Rpc/Services.antt =====
-- The services of a node, from rpc/go_server.go: their registration, how their methods are found,
-- and the calls inside the process. What reflection says of a method is its `Signature`; the method
-- itself is a function of the context and the message.
pub mod Methods
pub mod Tests
use goms.Base.{
  ℕ, ◌+◌, Bytes, codes, bytes_Eq, lookup, insert, Option, none, some, List, [], ◌∷◌, ◌++◌, Bool,
  ◌&&◌, ◌||◌, not, if◌then◌else◌, ◌==◌,
}
use goms.Util.HashSet.{is_blank, is_some}
use goms.Rpc.Coder.{Wire, Context}
use goms.Rpc.Node.{split_last, split_service_method}

-- How a method ends; the text is blank where its error is nil.
pub data Returned (M : Type 0) : Type 0 where
  returned : ℕ → M → Bytes → Returned M
  panicked : Returned M

-- methodType: how its argument type is decoded, and its function.
pub record MethodType (M : Type 0) : Type 0 where
  pub arg_pb : Wire M
  pub arg_json : Wire M
  pub function : Option Context → M → Returned M

-- What suitableMethods asks of a method's type.
pub record Signature (M : Type 0) : Type 0 where
  pub name : Bytes
  pub exported : Bool
  pub num_in : ℕ
  pub arg_exported : Bool
  pub reply_pointer : Bool
  pub reply_exported : Bool
  pub num_out : ℕ
  pub second_is_error : Bool
  pub first_is_uint16 : Bool
  pub method : MethodType M

pub data RegisterError : Type 0 where
  no_name : RegisterError
  not_exported : RegisterError
  no_methods : RegisterError
  already_defined : RegisterError

abbrev pub Methods : Type 0 → Type 0
Methods M = List (Bytes × MethodType M)

-- The service map, and how often each method was called.
pub record Server (M : Type 0) : Type 0 where
  pub service_map : List (Bytes × Methods M)
  pub num_calls : List (Bytes × ℕ)

-- The lookups of the three entrances, with what their errors say behind the prefix.
pub data Found (M : Type 0) : Type 0 where
  found : MethodType M → Found M
  refused : Bytes → Found M

-- What the calls inside the process return: the code, the reply, and the error's text.
pub data Called (M : Type 0) : Type 0 where
  replied : ℕ → M → Called M
  failed : Bytes → Called M
  crashed : Called M

abbrev pub ill_formed : Bytes → Bytes
ill_formed name = codes "rpc: service/method request ill-formed: " ++ name

module _ {M : Type 0} where
  abbrev pub is_suitable : Signature M → Bool
  is_suitable m =
      m.exported
      && m.num_in == 4
      && m.arg_exported
      && m.reply_pointer
      && m.reply_exported
      && m.num_out == 2
      && m.second_is_error
      && m.first_is_uint16

  unfoldable pub suitable_methods : List (Signature M) → Methods M
  suitable_methods [] = []
  suitable_methods (m ∷ ms) =
      let rest = suitable_methods ms in if is_suitable m then (m.name, m.method) ∷ rest else rest

  -- `register` with the name of the receiver's type, and whether that name is exported.
  unfoldable pub register_service :
      Bytes → Bool → Bytes → Bool → List (Signature M) → Server M → Server M × Option RegisterError
  unfolding suitable_methods
  register_service type_name exported name use_name signatures server =
      let sname = if use_name then name else type_name in
      let methods = suitable_methods signatures in
      if is_blank sname
      then (server, some no_name)
      else if not exported && not use_name
      then (server, some not_exported)
      else elim methods [
        | [] ↦ (server, some no_methods)
        | m ∷ ms ↦
            if is_some (lookup sname server.service_map)
            then (server, some already_defined)
            else (record server { service_map = insert sname (m ∷ ms) server.service_map }, none)
      ]

  -- `mtype.numCalls++`
  abbrev pub count_call : Bytes → Server M → Server M
  count_call service_method server = record server {
    num_calls =
        insert service_method
          (elim (lookup service_method server.num_calls) [ none ↦ 1 | some n ↦ n + 1 ])
          server.num_calls;
  }

  unfoldable pub find_method : Bytes → Bytes → Bytes → Bytes → Bytes → Server M → Found M
  find_method service method no_service no_method shown server =
      elim (lookup service server.service_map) [
        | none ↦ refused (codes "rpc: can't find service " ++ no_service)
        | some methods ↦ elim (lookup method methods) [
          | none ↦ refused (no_method ++ shown)
          | some m ↦ found m
        ]
      ]

  -- readRequestHeader behind the header.
  unfoldable pub find_remote : Bytes → Server M → Found M
  unfolding find_method
  find_remote name server = elim (split_last name) [
    | none ↦ refused (ill_formed name)
    | some (service, method) ↦
        find_method service method name (codes "rpc3: can't find method ") name server
  ]

  -- RawCall and InternalCall, which want both parts.
  unfoldable pub find_local : Bytes → Bytes → Server M → Found M
  unfolding find_method
  find_local prefix name server =
      let (service, method) = split_service_method name in
      if is_blank service || is_blank method
      then refused (ill_formed name)
      else find_method service method service prefix method server

  abbrev pub outcome_of : Returned M → Called M
  outcome_of panicked = crashed
  outcome_of (returned ret reply errmsg) =
      if is_blank errmsg then replied ret reply else failed errmsg

  unfoldable pub internal_call : Option Context → Bytes → M → Server M → Called M × Server M
  unfolding find_local
  internal_call conn name req server =
      elim (find_local (codes "rpc2: can't find method ") name server) [
        | refused text ↦ (failed text, server)
        | found m ↦ (outcome_of (m.function conn req), count_call name server)
      ]

  -- RawCall. `argument` is what Unmarshal leaves of the bytes, whose error is not looked at;
  -- `encoding` is Marshal, of encoding/json for a call in JSON.
  unfoldable pub raw_call :
      (Bool → MethodType M → Bytes → M)
      → (Bool → M → Option Bytes)
      → Bytes
      → Option Context
      → Bytes
      → Bytes
      → Bool
      → Server M
      → Called Bytes × Server M
  unfolding find_local
  raw_call argument encoding no_encoding conn name buff js server =
      elim (find_local (codes "rpc1: can't find method ") name server) [
        | refused text ↦ (failed text, server)
        | found m ↦
            let called = outcome_of (m.function conn (argument js m buff)) in
            (
              elim called [
                | crashed ↦ crashed
                | failed text ↦ failed text
                | replied ret reply ↦ elim (encoding js reply) [
                  | none ↦ failed no_encoding
                  | some bytes ↦ replied ret bytes
                ]
              ],
              count_call name server,
            )
      ]
