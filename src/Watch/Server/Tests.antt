-- ===== src/Watch/Server/Tests.antt =====
-- Runs of watch/server.go over a database in memory, and the theorems at these runs.
use goms.Base.{
  ℕ, Bytes, codes, bytes_Eq, nat_eq, List, [], ◌∷◌, ◌++◌, Bool, true, false, Option, none, some,
  ◌≡◌, refl, arith, IsDistinct,
}
use goms.Base.Int.{pos}
use goms.Util.HashSet.Tests.{memory_bolt, stored}
use goms.Watch.Message.{WatchMessage}
use goms.Watch.Server.{
  active, uninitialised, WatchServer, new_watch_server, accept, hang_up, ids_of, is_live,
  watch_message, notify, process, initialize_process,
}
use goms.Watch.Server.Notify.{out_of, watches, out_of-notify}
use goms.Watch.Server.Invariant.{IsConsistent, here, next, accepted, served, Reach-IsConsistent}
use goms.Watch.Server.Race.{initialize-revives}

abbrev pub gate : Bytes
gate = codes "gate"

abbrev pub load_field : Bytes
load_field = codes "load"

abbrev request : Bytes → List Bytes → WatchMessage
request cmd values = record { cmd = cmd; seq = pos 7; values = values }

abbrev initialize : WatchMessage
initialize = request (codes "initialize") (gate ∷ [])

-- Connection 2 watches the key, connection 1 does not.
abbrev pub server : WatchServer memory_bolt
server = record {
  clients =
      (1, record { status = uninitialised; watch_keys = []; out = [] })
      ∷ (2, record { status = active; watch_keys = gate ∷ []; out = [] })
      ∷ [];
  key_watchers = (gate, (2, tt) ∷ []) ∷ [];
  set = stored;
}

abbrev accepted_server : WatchServer memory_bolt
accepted_server = accept memory_bolt 1 (new_watch_server memory_bolt stored)

Reach-IsConsistent_example :
    IsConsistent memory_bolt (initialize_process memory_bolt 1 initialize accepted_server)
unfolding accept process goms.Base.bytes_eq
Reach-IsConsistent_example = Reach-IsConsistent memory_bolt stored (ground arith) (
    next (next here (accepted (new_watch_server memory_bolt stored) 1 refl)) (
      served accepted_server (initialize_process memory_bolt 1 initialize accepted_server) 1
        initialize refl refl))

out_of-notify_example :
    out_of 2 (notify memory_bolt gate load_field (codes "9") server).clients
    ≡ watch_message gate load_field (codes "9") ∷ []
unfolding goms.Base.bytes_eq is_live
out_of-notify_example = out_of-notify memory_bolt gate load_field (codes "9") server 2 (refl, tt)

initialize-revives_example :
    (is_live 1 (hang_up memory_bolt 1 server).clients ≡ false)
    × (is_live 1
          (initialize_process memory_bolt 1 initialize (hang_up memory_bolt 1 server)).clients
        ≡ true)
    × (watches 1 (
          ids_of gate
            (initialize_process memory_bolt 1 initialize
              (hang_up memory_bolt 1 server)).key_watchers)
        ≡ true)
unfolding goms.Base.bytes_eq
initialize-revives_example = initialize-revives memory_bolt 1 initialize gate server refl refl
