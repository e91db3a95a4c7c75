-- ===== src/Lib.antt =====
-- A model of goms, a Go library for micro services: nodes that call one another over rpc, a watch
-- server that keeps a map of keys and tells its watchers of changes, and the id generator and the
-- timers that the nodes use.
--
-- The parts and how they interact. Base holds what the others share: byte strings, maps as
-- association lists, 64-bit integers, decimal texts and bit fields.
--
-- Util models util/. HashSet is util/hash_set.go with util/hash_set_db.go: the map of keys to
-- fields (`hset_data`, `hincrby_data`, `hget`, `hgetall`, `key_prefix`), and the exported methods
-- (`hset`, `hincrby`, `del`, `load`) that also write to the bolt file. Bolt is the interface of
-- that database, a record of its operations and documented laws; a transaction that fails changes
-- nothing. HashSet/Tests has an instance in memory. The mutex covers the change of the map and not
-- the write that follows: HashSet/Writers has calls of Hset that overlap, as steps. IdGen is
-- util/id_gen.go, with the clock as an input of each call. Rand is RandLessWight of util/rand.go,
-- with the random number as an input, and Rand/Draws the draws below a bound, the ranges and the
-- shuffled arrays, with the steps of the generator as an input. BytesCache is
-- util/bytes_cache/cache.go: the size classes (`get_index`) and the pools by the capacities of
-- their buffers (`get`, `put`). Xlog is util/xlog.go: the levels, the lines (`text_format`,
-- `json_fields`) and the files by days (`write_logs`). Misc has the arrays, the versions, the
-- commands and the bits of util/misc.go, Crypto the AES functions of util/crypto.go over a block
-- mode with its documented laws.
--
-- Watch models watch/. Message is watch/message.go: the line protocol on bytes. Server is
-- watch/server.go: one function per handler (`initialize_process`, `hset_process` and so on) and
-- `process` for the dispatch of runConn. It uses the map of HashSet. A handler returns `none`
-- where the code panics on a message with too few values. strings.TrimSpace is modelled on ASCII.
-- A connection's channel is the list of the messages that were put on it; Server/Invariant takes
-- messages off it as steps of their own. Client is watch/client.go: a request is `send_request`
-- with its command and values, the reading loop `deliver`, which waits at a channel that is full,
-- `deliver_taking` that loop while the announcements are taken as they come, the end of a request
-- `receive_message`, and the loop over the announcements `run_watch`. Where the code reads a nil
-- answer the caller gets `panicked`. Client/Session joins the client to the server's handlers over
-- the protocol.
--
-- Rpc models rpc/. Frame is the framing of rpc/coder.go, Coder the codecs of both ends over it;
-- the two encodings, protobuf and encoding/json, are parameters with the law that decoding inverts
-- encoding. Node is rpc/rpc_node.go: the peers' connections and addresses, and Node/Calls its
-- calls and broadcasts, with the mocks and events in Node/Mocks; to dial is a parameter, a
-- function from addresses to connections. What a call does at a peer is an `Outcome`, which names
-- the client and the method of it that is used. GoClient is rpc/go_client.go: `register`,
-- `send_written`, `input_round` and `terminate` are the parts of send and input that hold the
-- client's lock, and `send` and `input` put them together. Services and GoServer are
-- rpc/go_server.go: Services has the registration, the choice of a method and the calls inside the
-- process, GoServer the requests of a connection (`read_request`, `answer_call`, `serve_codec`).
-- What reflection tells of a method is a record; a method is a function of the context and the
-- message. `serve_codec` lists the answers by their requests, and GoServer/Pool has the calls of
-- the pool, which end in any order, as steps. GoServer/RoundTrip joins client, codecs and server;
-- GoServer/Single has ServeRequest beside ServeCodec. The interface of the two encodings is the
-- record `Codec`. Membership is the start of a node in rpc/rpc_node.go and its following of the
-- registry.
--
-- Timer models util/timer: the three caches of util/timer/cache.go and the start of a timer in
-- util/timer/timer.go. The goroutines take the caches' locks, so each is one step.
--
-- WatchConfig models watch_config/: registration, its removal and the choice of a node, and in
-- Nodes the listings, the configuration, the loads and the gates. A request of the watch client
-- that writes is its effect on the map of HashSet, and what one that reads ends with is an input
-- of `alloc_load`; the JSON texts are parameters.
--
-- Gate models gnet/message.go: `read_message_with_key` and `write_message_with_key` on bytes.
-- Gate/Handshake models gnet/handshake.go: `client_hello` and `client_key` are the two halves of
-- ClientHandshake, `handshake` is the server's side, and Handshake/Session has a message under the
-- key of both. Gate/Connect models gnet/connect.go: the map of the connections (`new_client_conn`,
-- `del_client_conn`, `for_conn`), the loop over the messages of a connection (`serve`, with
-- `handle_message` for one) and `send_message`, which leaves a message to the pool (`write_jobs`,
-- in any order). The gate has SyncCall: a forwarded call ends before the next message is read. The
-- interceptors are functions of the connection and the message; a forwarded message takes the
-- calls of Rpc/Node, and what the other end answers is a parameter. Rpc/Http models rpc/http.go
-- and Gate/Http models gnet/http.go and gnet/fast_http.go: the handlers from the request to the
-- reply.
--
-- Db/Mysql models db/mysql.go: each call by what gorm is asked, and the results that a test gives.
--
-- Bounds and fuel. Numbers are natural numbers; 64-bit wrap-around is written out where the code
-- can meet it (`wrap64` for the counters, `% 2 ^ 64` for the counter of ids, `% 2 ^ 32` for a
-- frame's length). Times of timers are below 2^63, so that sums do not wrap. `read_loop` has fuel
-- for the messages that arrive, `serve_codec` and `input` for the requests and responses, `serve`
-- for the messages of a gate's connection, `new_id` of Gate/Connect for the rounds until a number
-- is free, `left` of GoServer/Pool for the requests that are read, `advance` for the seconds up to
-- now, and `fires` for the runs of a timer; the theorems name how much is enough.
--
-- Not modelled: sockets, goroutine scheduling and the other wrappers of third-party databases,
-- which are I/O; util/sync_map.go, a copy of Go's own; the listener of rpc/go_server.go; the
-- listeners of gnet/; the dates and files of util/misc.go, and its reflection, whose result is an
-- input. A map's range order is the order of its association list, so what is said of the order of
-- peers or of fields holds for the order of one run.
pub mod Base
pub mod Util
pub mod Watch
pub mod Rpc
pub mod Timer
pub mod WatchConfig
pub mod Gate
pub mod Db
