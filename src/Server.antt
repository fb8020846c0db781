-- ===== src/Server.antt =====
-- The loop of `client_thread` in source/network_server.c: how a server answers the requests of a
-- connection, and forwards those that change the list to its successor before it applies them.
pub mod Replicas
pub mod Chain
pub mod Stock
pub mod Log
pub mod Clients
pub mod Threads
pub mod Joining
pub mod Main
pub mod Session
pub mod Locking
use list_server.Base.{
  ℕ, ◌≡◌, refl, arith, zero, suc, ltb_ℤ, ◌||◌, Bool, true, false, not, Option, none, some, List, [],
  ◌∷◌, if◌then◌else◌, ◌==◌, ℤ, pos, negsuc, minus_one, ◌==ℤ◌,
}
use list_server.Sys.{Sys, State, pure, ◌>>=◌, ◌>>◌}
use list_server.CarList.{ListT}
use list_server.Message.{MessageT, op_add, op_del, op_order, op_error}
use list_server.Skel.{invoke}
use list_server.Stub.{RList, local, outside}
use list_server.Chain.{zoo_forward_to_successor}

-- The requests that may change a list.
unfoldable pub needs_forward : MessageT → Bool
needs_forward request =
    request.opcode == op_add || request.opcode == op_del || request.opcode == op_order

-- The request after it was served, and the list.
abbrev pub Reply : Type 0
Reply = MessageT × Option ListT

-- `invoke` on the server's list; its return code is not looked at.
unfoldable pub apply_local : MessageT → Option ListT → Sys → Reply × Sys
apply_local request list s =
    let out = invoke (some request) list s in
    ((elim out.0.1 [ none ↦ request | some msg ↦ msg ], out.0.2), out.1)

module _ {W : Type 0} (send : RList → MessageT → State W (Option MessageT)) where
  -- One round of the loop, between `network_receive` and `network_send`.
  unfoldable pub serve_request : Option RList → MessageT → Option ListT → State (Sys × W) Reply
  serve_request next request list =
      if not (needs_forward request) then local (apply_local request list) else do
        fwd_rc ← outside (zoo_forward_to_successor send (some request) next)
        if fwd_rc ==ℤ negsuc 1
            then local (apply_local request list)
            else if not (fwd_rc ==ℤ pos 0)
            then pure (record request { opcode = op_error; result = minus_one }, list)
            else local (apply_local request list)

module _ {W : Type 0} (server_shutdown : W → Bool)
    (receive : Sys × W → Option (Option MessageT × (Sys × W)))
    (log : MessageT → State (Sys × W) (Unit {0}))
    (answer : MessageT → Sys × W → Option (ℤ × (Sys × W)))
    (forward : RList → MessageT → State W (Option MessageT)) where
  -- The loop over the requests of a connection, with the list between them. `receive` is
  -- `network_receive` and `answer` is `network_send`, which give `none` if they do not return; `log`
  -- is `write_in_server_log`. It ends at SIGINT, when no request comes or when its reply cannot be
  -- sent; `none` where a call does not return or the fuel runs out first.
  unfoldable pub client_loop :
      ℕ → Option RList → Option ListT → Sys × W → Option (Option ListT × (Sys × W))
  client_loop zero next list w = none
  client_loop (suc fuel) next list w = elim (server_shutdown w.1) [
    | true ↦ some (list, w)
    | false ↦ elim (receive w) [
      | none ↦ none
      | some (request, w1) ↦ elim request [
        | none ↦ some (list, w1)
        | some msg ↦
            let w2 = (log msg w1).1 in
            let (reply, w3) = serve_request forward next msg list w2 in
            elim (answer reply.0 w3) [
              | none ↦ none
              | some (sent, w4) ↦ elim (ltb_ℤ sent (pos 0)) [
                | true ↦ some (reply.1, w4)
                | false ↦ client_loop fuel next reply.1 w4
              ]
            ]
      ]
    ]
  ]

  -- A round that answers its request and goes on.
  pub client_loop_round :
      (fuel : ℕ) (next : Option RList) (list : Option ListT) (msg : MessageT) (reply : Reply)
      (w w1 w3 w4 : Sys × W)
      → server_shutdown w.1 ≡ false
      → receive w ≡ some (some msg, w1)
      → serve_request forward next msg list (log msg w1).1 ≡ (reply, w3)
      → answer reply.0 w3 ≡ some (pos 0, w4)
      → client_loop (suc fuel) next list w ≡ client_loop fuel next reply.1 w4
  unfolding client_loop
  client_loop_round fuel next list msg reply w w1 w3 w4 on got served sent =
      ground (arith, on, got, served, sent)
