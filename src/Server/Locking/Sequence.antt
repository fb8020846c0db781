-- ===== src/Server/Locking/Sequence.antt =====
-- Requests that the loop of client_thread in source/network_server.c serves one after the other.
use list_server.Base.{
  ◌≡◌, ◌⊎◌, true, false, Option, some, List, [], ◌∷◌, arith, ℤ, pos, negsuc, minus_one, ◌==ℤ◌,
}
use list_server.Sys.{Sys, State}
use list_server.CarList.{ListT}
use list_server.Message.{MessageT, op_error}
use list_server.Stub.{RList}
use list_server.Chain.{zoo_forward_to_successor}
use list_server.Server.{needs_forward, apply_local, serve_request}
use list_server.Server.Locking.{Served}

module _ {W : Type 0} (send : RList → MessageT → State W (Option MessageT)) where
  -- Requests that `serve_request` serves one after the other, the last one first, from the list `l`
  -- to the list and the world of the indices. The allocator, the clock and the successor may be
  -- others for each.
  pub data Serial (l : Option ListT) (w : W) : List Served → Option ListT → W → Type 0 where
    nothing_yet : Serial l w [] l w
    served_next :
        {log : List Served} {k k' : Option ListT} {x x' : W} {msg reply : MessageT}
        (next : Option RList) (s s' : Sys)
        → Serial l w log k x
        → serve_request send next msg k (s, x) ≡ ((reply, k'), (s', x'))
        → Serial l w ((msg, reply) ∷ log) k' x'

  pub serve_write :
      (next : Option RList) (msg : MessageT) (l : Option ListT) (s : Sys) (w x : W) (fwd_rc : ℤ)
      → needs_forward msg ≡ true
      → zoo_forward_to_successor send (some msg) next w ≡ (fwd_rc, x)
      → ((fwd_rc ==ℤ negsuc 1) ≡ true) ⊎ ((fwd_rc ==ℤ pos 0) ≡ true)
      → let out = apply_local msg l s in serve_request send next msg l (s, w) ≡ (out.0, (out.1, x))
  unfolding serve_request
  serve_write next msg l s w x fwd_rc h e c = ground (arith, h, e, c)

  pub serve_refused :
      (next : Option RList) (msg : MessageT) (l : Option ListT) (s : Sys) (w x : W) (fwd_rc : ℤ)
      → needs_forward msg ≡ true
      → zoo_forward_to_successor send (some msg) next w ≡ (fwd_rc, x)
      → (fwd_rc ==ℤ negsuc 1) ≡ false
      → (fwd_rc ==ℤ pos 0) ≡ false
      → serve_request send next msg l (s, w)
        ≡ ((record msg { opcode = op_error; result = minus_one }, l), (s, x))
  unfolding serve_request
  serve_refused next msg l s w x fwd_rc h e c d = ground (arith, h, e, c, d)

  -- Without the last one.
  pub before :
      {l : Option ListT} {w : W} {log : List Served} {k : Option ListT} {x : W} (one : Served)
      → Serial l w (one ∷ log) k x
      → (k' : Option ListT) × (x' : W) × Serial l w log k' x'
  before one (served_next next s s' r run) = (_, _, r)
