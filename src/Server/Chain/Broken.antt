-- ===== src/Server/Chain/Broken.antt =====
-- A chain of servers with a link that does not deliver, over client_thread of
-- source/network_server.c and zoo_forward_to_successor of source/chain_server.c.
use list_server.Base.{
  ◌≡◌, refl, ap, ◌∙◌, Bool, true, false, Option, none, some, List, [], ◌∷◌, ◌++◌, All, ℤ, minus_one,
  length, ◌++◌, suc,
}
use list_server.Car.{DataT}
use list_server.Message.{MessageT, op_error}
use list_server.Spec.{Request, Answer, Serves}
use list_server.Stub.{RList}
use list_server.Stub.Requests.{request, IsAsked, reply_to}
use list_server.Stub.Remote.{Server}
use list_server.Server.{serve_request}
use list_server.Server.Replicas.{IsWrite, Holds, apply_write}
use list_server.Server.Chain.{linked, write_needs_forward, serve_forwarded, serve_unforwarded}

-- The servers after a link, when it delivers a request to them and when not: then they hear nothing,
-- and there is no reply.
unfoldable pub deliver :
    Bool → Option MessageT × List Server → List Server → Option MessageT × List Server
deliver true behind servers = behind
deliver false behind servers = (none, servers)

abbrev pub servers : List (Server × Bool) → List Server
servers [] = []
servers ((v, delivers) ∷ rest) = v ∷ servers rest

-- A server with the servers behind it, what they do with the request when they get it, and whether
-- they do.
unfoldable pub hop :
    RList
    → MessageT
    → Server × Bool
    → List Server
    → (MessageT → Option MessageT × List Server)
    → Option MessageT × List Server
hop r msg ((s, l), delivers) rest after =
    let out =
      serve_request (λ _ m _. deliver delivers (after m) rest) (linked r rest) msg l (s, rest) in
    (some out.0.0, (out.1.0, out.0.1) ∷ out.1.1)

-- As `chain_serve`, of servers each with whether its link to the next one delivers.
unfoldable pub chain_over : RList → MessageT → List (Server × Bool) → Option MessageT × List Server
chain_over r msg [] = (none, [])
chain_over r msg (v ∷ rest) = hop r msg v (servers rest) λ m. chain_over r m rest

-- Servers whose links deliver.
abbrev pub up : List Server → List (Server × Bool)
up [] = []
up (v ∷ vs) = (v, true) ∷ up vs

-- The server before a link that does not deliver refuses a write, and nothing behind it changes.
hop_cut :
    (r : RList) (v b : Server) (back : List Server)
    (after : MessageT → Option MessageT × List Server) (q : Request)
    → IsWrite q
    → hop r (request q) (v, false) (b ∷ back) after
      ≡ (some (record (request q) { opcode = op_error; result = minus_one }), v ∷ b ∷ back)
unfolding hop deliver
hop_cut r v b back after q w =
    rw
      (serve_unforwarded {W = List Server} (λ _ _ _. (none, b ∷ back)) r (request q) v.1 v.0
        (b ∷ back) (b ∷ back) (write_needs_forward q w) refl)
      refl

-- A server whose successor gave some reply, whatever it says, applies a write.
hop_applied :
    (r : RList) (v : Server) (rest : List Server) (after : MessageT → Option MessageT × List Server)
    (year : ℤ) (cs ds : List DataT) (q : Request) (a : Answer) (resp : MessageT)
    → linked r rest ≡ some r
    → Holds year cs v
    → IsWrite q
    → IsAsked q
    → Serves year cs q a ds
    → (after (request q)).0 ≡ some resp
    → let out = hop r (request q) (v, true) rest after in
      (out.0 ≡ some (reply_to (request q) a))
      × (v' : Server) × Holds year ds v'
      × (out.1 ≡ v' ∷ (after (request q)).1)
unfolding hop deliver
hop_applied r v rest after year cs ds q a resp next h w asked sv reply =
    let (e, held) = apply_write v year cs ds q a h w asked sv in
    let run =
      serve_forwarded (λ _ m _. after m) r (request q) resp v.1 v.0 rest (after (request q)).1
        (write_needs_forward q w)
        (ap (λ (m : Option MessageT). (m, (after (request q)).1)) reply) in
    rw next (rw run (ap some e, _, held, refl))

-- In a chain of servers that all hold the cars `cs`, up to one whose link to the next does not
-- deliver, a write is refused there and unseen behind; but every server before that one takes the
-- refusal of its successor for success and applies the write. The client gets the answer of the
-- specification, and the cars are `ds` on one part of the chain and as they were on the other. One
-- server at least is before that link, and one at least is behind it, in whatever state. No
-- allocation fails, the clocks show the same year, and the enums of a car to add fit 32 bits.
pub link_down_lem :
    (r : RList) (x : Server) (front : List Server) (v : Server) (b : Server × Bool)
    (back : List (Server × Bool)) (year : ℤ) (cs ds : List DataT) (q : Request) (a : Answer)
    → All (Holds year cs) (x ∷ front)
    → IsWrite q
    → IsAsked q
    → Serves year cs q a ds
    → let out = chain_over r (request q) (up (x ∷ front) ++ (v, false) ∷ b ∷ back) in
      (out.0 ≡ some (reply_to (request q) a))
      × (applied : List Server) × (out.1 ≡ applied ++ v ∷ servers (b ∷ back))
      × All (Holds year ds) applied
      × (length applied ≡ length (x ∷ front))
unfolding chain_over
link_down_lem r x [] v b back year cs ds q a (h, hs) w asked sv =
    let cut = hop_cut r v b.0 (servers back) (λ m. chain_over r m (b ∷ back)) q w in
    let (said, x', held, e) =
      hop_applied r x (v ∷ servers (b ∷ back))
        (λ m. hop r m (v, false) (servers (b ∷ back)) λ k. chain_over r k (b ∷ back)) year cs ds q a
        _ refl h w asked sv (ap (λ z. z.0) cut) in
    (said, x' ∷ [], e ∙ ap (λ z. x' ∷ z.1) cut, (held, tt), refl)
link_down_lem r x (y ∷ front) v b back year cs ds q a (h, hs) w asked sv =
    let (reply, applied, left, all, n) =
      link_down_lem r y front v b back year cs ds q a hs w asked sv in
    let (said, x', held, e) =
      hop_applied r x (servers (up (y ∷ front) ++ (v, false) ∷ b ∷ back))
        (λ m. chain_over r m (up (y ∷ front) ++ (v, false) ∷ b ∷ back)) year cs ds q a _ refl h w
        asked sv reply in
    (said, x' ∷ applied, e ∙ ap (λ z. x' ∷ z) left, (held, all), ap suc n)
