-- ===== src/Server/Main.antt =====
-- `main` of source/list_server.c, and how source/network_server.c opens and closes the server: the
-- order in which the parts come up and go down. The system calls' results are parameters; what they
-- do outside is a list of effects, the first one first.
pub mod Ending
use list_server.Base.{
  ℕ, ◌-◌, ◌%◌, ◌^◌, ltb, negsuc, Bool, true, false, not, ◌&&◌, Option, none, some, List, [], ◌∷◌,
  ◌++◌, ◌==◌, if◌then◌else◌, CStr, ℤ, pos, minus_one, ltb_ℤ, ◌==ℤ◌,
}
use list_server.Sys.{Sys, State, pure, ◌>>=◌, ◌>>◌}
use list_server.CLib.{atoi, exit_failure}
use list_server.CarList.{ListT}
use list_server.Skel.{list_skel_init, list_skel_destroy}
use list_server.Stub.{Run, crash, ret, local}
use list_server.Wire.{WriteEvent}
use list_server.Server.Clients.{Client, Table, empty_table}
use list_server.Server.Log.{Log}
use list_server.Server.Log.Closing.{create_server_log, close_server_log}

pub data Effect : Type 0 where
  shuts_down joins closes : ℤ → Effect

-- The socket that listens or -1, the table of clients, and the log, whether or not it could be made:
-- `binds` and `listens` are whether those succeed, and a socket that is not used is closed.
unfoldable pub network_server_init :
    CStr
    → ℤ
    → ℤ
    → Bool
    → Bool
    → Bool
    → Bool
    → List WriteEvent
    → ℤ × List Effect × Table × Option Log
network_server_init hostbuf port socket binds listens opens starts es =
    if ltb_ℤ socket (pos 0)
    then (minus_one, [], empty_table, none)
    else if not (binds && listens)
    then (minus_one, closes socket ∷ [], empty_table, none)
    else (socket, [], empty_table, (create_server_log hostbuf port opens starts es).1)

-- The clients in the table are shut down and their threads waited for.
unfoldable pub close_clients : List (Option Client) → List Effect
close_clients [] = []
close_clients (none ∷ rest) = close_clients rest
close_clients (some c ∷ rest) =
    shuts_down (pos c.client_socket) ∷ joins (pos c.tid) ∷ close_clients rest

-- The result, the effects, `listen_fd` and the log. With a socket below 0 the log stays open.
unfoldable pub network_server_close : ℤ → ℤ → Bool → Bool → Table → Log → ℤ × List Effect × ℤ × Log
network_server_close socket listen_fd closed log_closed table log =
    let shut =
      close_clients table.client_list
      ++ (if ltb_ℤ listen_fd (pos 0) then [] else shuts_down listen_fd ∷ []) in
    if ltb_ℤ socket (pos 0) then (minus_one, shut, listen_fd, log) else (
      if closed then pos 0 else minus_one,
      shut ++ closes socket ∷ [],
      if socket ==ℤ listen_fd then minus_one else listen_fd,
      (close_server_log log_closed log).1,
    )

-- `(short)port`
abbrev pub to_short : ℤ → ℤ
to_short (pos n) = let m = n % 2 ^ 16 in if ltb m (2 ^ 15) then pos m else negsuc (2 ^ 16 - 1 - m)
to_short (negsuc n) =
    let m = n % 2 ^ 16 in if ltb m (2 ^ 15) then negsuc m else pos (2 ^ 16 - 1 - m)

-- The parts that `main` calls, over the outside world `W`: network_server_init, zoo_init_server,
-- network_main_loop, zoo_clean_server, network_server_close.
pub record Parts (W : Type 0) : Type 0 where
  pub open_server : ℤ → State (Sys × W) ℤ
  pub enter_chain : CStr → ℤ → Option ListT → State (Sys × W) (Run ℤ × Option ListT)
  pub serve : ℤ → Option ListT → State (Sys × W) (Option ListT)
  pub leave_chain : State (Sys × W) (Unit {0})
  pub close_server : ℤ → State (Sys × W) (Unit {0})

module _ {W : Type 0} (parts : Parts W) where
  -- The end of a server that has a socket; the list goes before the clients are shut down.
  unfoldable pub take_down : ℤ → Option ListT → State (Sys × W) (Run ℤ)
  take_down sock list = do
    parts.leave_chain
    _ ← local (list_skel_destroy list)
    parts.close_server sock
    pure (ret exit_failure)

  unfoldable pub with_socket : CStr → ℤ → ℤ → Option ListT → State (Sys × W) (Run ℤ)
  with_socket host port sock list = do
    entered ← parts.enter_chain host port list
    elim entered.0 [
      | crash ↦ pure crash
      | ret code ↦
          if ltb_ℤ code (pos 0)
          then take_down sock entered.1
          else do list' ← parts.serve sock entered.1; take_down sock list'
    ]

  -- `argv` with the name of the program.
  unfoldable pub main : List CStr → State (Sys × W) (Run ℤ)
  main (name ∷ host ∷ port_text ∷ more) =
      let port = atoi port_text in
      if not (ltb_ℤ (pos 0) port) then pure (ret exit_failure) else do
        list ← local list_skel_init
        elim list [
          | none ↦ pure (ret exit_failure)
          | some l ↦ do
            sock ← parts.open_server (to_short port)
            if ltb_ℤ sock (pos 0)
                then (do _ ← local (list_skel_destroy (some l)); pure (ret exit_failure))
                else with_socket host port sock (some l)
        ]
  main _ = pure (ret exit_failure)
