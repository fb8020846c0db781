-- ===== src/Server/Chain.antt =====
-- The chain of servers: a write enters at the head, and each server forwards it to the next by
-- `zoo_forward_to_successor` before it applies it, as `client_thread` of source/network_server.c
-- does. The replicas stay equal.
pub mod Broken
pub mod Reads
pub mod Stocked
use list_server.Base.{
  suc, ◌≡◌, refl, ap, inl, inr, Option, none, some, List, [], ◌∷◌, arith, length, minus_one, All,
  first, Option-cases, true, false, ℤ,
}
use list_server.Sys.{Sys, State}
use list_server.Car.{DataT}
use list_server.Car.Laws.{IsValid-cases}
use list_server.CarList.{ListT}
use list_server.CarList.Edit.{same_model}
use list_server.Message.{MessageT, op_error}
use list_server.Spec.{Request, Answer, Serves}
use list_server.Stub.{RList, add_request, del_request}
use list_server.Stub.Requests.{request, IsAsked, reply_to}
use list_server.Stub.Remote.{Server}
use list_server.Chain.{zoo_forward_to_successor}
use list_server.Server.{needs_forward, apply_local, serve_request}
use list_server.Server.Replicas.{IsWrite, Holds, apply_write}

abbrev pub linked : RList → List Server → Option RList
linked r [] = none
linked r (v ∷ rest) = some r

-- The servers from the one that gets the request to the tail: its reply, and the servers after it.
-- Each server's successor serves the message that the server forwards. Every link delivers; it is
-- `r` for each server.
unfoldable pub chain_serve : RList → MessageT → List Server → Option MessageT × List Server
chain_serve r msg [] = (none, [])
chain_serve r msg ((s, l) ∷ rest) =
    let out = serve_request (λ _ m _. chain_serve r m rest) (linked r rest) msg l (s, rest) in
    (some out.0.0, (out.1.0, out.0.1) ∷ out.1.1)

pub write_needs_forward : (q : Request) → IsWrite q → needs_forward (request q) ≡ true
unfolding needs_forward add_request del_request
write_needs_forward (Request.add c) w = refl
write_needs_forward (Request.del m) w = refl
write_needs_forward (Request.get m) w = absurd w
write_needs_forward (Request.in_year m) w = absurd w
write_needs_forward Request.in_order w = absurd w
write_needs_forward Request.count w = absurd w
write_needs_forward Request.names w = absurd w

module _ {W : Type 0} (send : RList → MessageT → State W (Option MessageT)) where
  -- The tail applies a write at once.
  pub serve_tail :
      (msg : MessageT) (l : Option ListT) (s : Sys) (w : W)
      → needs_forward msg ≡ true
      → let r = apply_local msg l s in serve_request send none msg l (s, w) ≡ (r.0, (r.1, w))
  unfolding serve_request zoo_forward_to_successor
  serve_tail msg l s w h = ground (arith, h)

  -- A server that gets a reply from its successor applies the write, whatever the reply says.
  pub serve_forwarded :
      (r : RList) (msg resp : MessageT) (l : Option ListT) (s : Sys) (w w' : W)
      → needs_forward msg ≡ true
      → send r msg w ≡ (some resp, w')
      → let out = apply_local msg l s in
        serve_request send (some r) msg l (s, w) ≡ (out.0, (out.1, w'))
  unfolding serve_request zoo_forward_to_successor
  serve_forwarded r msg resp l s w w' h e = ground (arith, h, e)

  -- A server whose successor does not reply to a write answers OP_ERROR with -1, and its list and
  -- its memory are as they were.
  pub serve_unforwarded :
      (r : RList) (msg : MessageT) (l : Option ListT) (s : Sys) (w w' : W)
      → needs_forward msg ≡ true
      → send r msg w ≡ (none, w')
      → serve_request send (some r) msg l (s, w)
        ≡ ((record msg { opcode = op_error; result = minus_one }, l), (s, w'))
  unfolding serve_request zoo_forward_to_successor
  serve_unforwarded r msg l s w w' h e = ground (arith, h, e)

  -- A request that is no write is answered from the server's own list; the successor hears nothing.
  pub serve_read :
      (next : Option RList) (msg : MessageT) (l : Option ListT) (s : Sys) (w : W)
      → needs_forward msg ≡ false
      → let out = apply_local msg l s in serve_request send next msg l (s, w) ≡ (out.0, (out.1, w))
  unfolding serve_request
  serve_read next msg l s w h = ground (arith, h)

pub chain_serve_answered :
    (r : RList) (v : Server) (rest : List Server) (year : ℤ) (cs ds : List DataT) (q : Request)
    (a : Answer)
    → All (Holds year cs) (v ∷ rest)
    → IsWrite q
    → IsAsked q
    → Serves year cs q a ds
    → let out = chain_serve r (request q) (v ∷ rest) in
      (out.0 ≡ some (reply_to (request q) a))
      × All (Holds year ds) out.1
      × (length out.1 ≡ length (v ∷ rest))
unfolding chain_serve
chain_serve_answered r v [] year cs ds q a (h, _) w asked sv =
    let (e, held) = apply_write v year cs ds q a h w asked sv in
    let run =
      serve_tail {W = List Server} (λ _ m _. chain_serve r m []) (request q) v.1 v.0 []
        (write_needs_forward q w) in
    rw run (ap some e, (held, tt), refl)
chain_serve_answered r v (x ∷ rest) year cs ds q a (h, hs) w asked sv =
    let (e, held) = apply_write v year cs ds q a h w asked sv in
    let (reply, all, n) = chain_serve_answered r x rest year cs ds q a hs w asked sv in
    let behind = chain_serve r (request q) (x ∷ rest) in
    let run =
      serve_forwarded (λ _ m _. chain_serve r m (x ∷ rest)) r (request q) (reply_to (request q) a)
        v.1 v.0 (x ∷ rest) behind.1 (write_needs_forward q w)
        (ap (λ (m : Option MessageT). (m, behind.1)) reply) in
    rw run (ap some e, (held, all), ap suc n)

-- Every write has its answer.
pub answered :
    (year : ℤ) (cs : List DataT) (q : Request)
    → IsWrite q
    → (a : Answer) × (ds : List DataT) × Serves year cs q a ds
answered year cs (Request.add c) w = elim (IsValid-cases year c) [
  | inl v ↦ (_, _, Serves.add_valid c v)
  | inr bad ↦ (_, _, Serves.add_invalid c bad)
]
answered year cs (Request.del m) w = elim (Option-cases (first (same_model m) cs)) [
  | inl e ↦ (_, _, Serves.del_none m e)
  | inr (c, e) ↦ (_, _, Serves.del_first m c e)
]
answered year cs (Request.get m) w = absurd w
answered year cs (Request.in_year m) w = absurd w
answered year cs Request.in_order w = absurd w
answered year cs Request.count w = absurd w
answered year cs Request.names w = absurd w

-- A chain of one server or more that all hold the cars `cs` answers a write, an OP_ADD or OP_DEL of
-- the stub, as the specification says, and afterwards all hold the cars that the specification
-- says: the replicas stay equal. No allocation fails, the servers' clocks show the same year, every
-- link delivers, and the enums of a car to add fit 32 bits.
pub chain_serve-Serves :
    (r : RList) (v : Server) (rest : List Server) (year : ℤ) (cs : List DataT) (q : Request)
    → All (Holds year cs) (v ∷ rest)
    → IsWrite q
    → IsAsked q
    → (a : Answer) × (ds : List DataT) × Serves year cs q a ds
      × (let out = chain_serve r (request q) (v ∷ rest) in
          (out.0 ≡ some (reply_to (request q) a))
          × All (Holds year ds) out.1
          × (length out.1 ≡ length (v ∷ rest)))
chain_serve-Serves r v rest year cs q h w asked =
    let (a, ds, sv) = answered year cs q w in
    (a, ds, sv, chain_serve_answered r v rest year cs ds q a h w asked sv)
