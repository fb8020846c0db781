-- ===== src/Server/Joining.antt =====
-- A server that joins the chain while requests arrive: the copying of the list by `init_list`, the
-- change of `rl_next_server` at its predecessor by `update`, both of source/chain_server.c, and the
-- requests at the predecessor as client_thread of source/network_server.c serves them. `update` ends
-- after `init_list`, as the server that joins greets its predecessor only behind it.
pub mod Steps
pub mod Orders
pub mod Locks
use list_server.Base.{Bool, Option, none, some, List, [], ◌∷◌, ℤ}
use list_server.Sys.{State}
use list_server.Message.{MessageT}
use list_server.Stub.{Run, RList}
use list_server.Stub.Remote.{Server, direct}
use list_server.Chain.{copy_from}
use list_server.Server.{serve_request}

-- Two neighbours in the chain, and the connection of the first to the second.
pub record Neighbours : Type 0 where
  pub predecessor : Server
  pub newcomer : Server
  pub rl_next_server : Option RList

-- The newcomer is the tail: it has no successor.
abbrev pub at_tail : RList → MessageT → State Server (Option MessageT)
at_tail r msg (s, l) =
    let out = serve_request {W = Unit {0}} (λ _ _ w. (none, w)) none msg l (s, tt) in
    (some out.0.0, (out.1.0, out.0.1))

unfoldable pub arrive : MessageT → Neighbours → Neighbours
arrive msg j =
    let out =
      serve_request at_tail j.rl_next_server msg j.predecessor.1 (j.predecessor.0, j.newcomer) in
    record j { predecessor = (out.1.0, out.0.1); newcomer = out.1.1 }

-- What the newcomer does in `init_list` over its connection `r` to the predecessor.
unfoldable pub copy : (ℤ → State Server Bool) → RList → Neighbours → Neighbours
copy close r j =
    let out = copy_from close direct (some r) j.newcomer.1 (j.newcomer.0, j.predecessor) in
    record j { predecessor = out.1.1; newcomer = (out.1.0, out.0.1) }

-- What the predecessor's child_watcher ends with.
abbrev pub notice : RList → Neighbours → Neighbours
notice r j = record j { rl_next_server = some r }

pub data Event : Type 0 where
  arrives : MessageT → Event
  copies notices : Event

module _ (close : ℤ → State Server Bool) (r : RList) where
  unfoldable pub run : List Event → Neighbours → Neighbours
  run [] j = j
  run (arrives msg ∷ es) j = run es (arrive msg j)
  run (copies ∷ es) j = run es (copy close r j)
  run (notices ∷ es) j = run es (notice r j)
