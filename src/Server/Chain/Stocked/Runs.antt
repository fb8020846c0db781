-- ===== src/Server/Chain/Stocked/Runs.antt =====
-- Any sequence of requests to the servers of a chain, each served by the loop of `client_thread` in
-- source/network_server.c: clients write at the head, and what is not forwarded goes to any server,
-- as the clients' reads go to the tail and the copying of the list to the predecessor.
use list_server.Base.{
  arith, ℕ, ◌<◌, ◌≡◌, inl, inr, refl, ap₂, subst, sym, Option, some, List, [], ◌∷◌, length, All, ℤ,
}
use list_server.Message.{MessageT}
use list_server.Spec.{Request, Answer}
use list_server.Stub.{RList}
use list_server.Stub.Requests.{request, IsAsked, reply_to}
use list_server.Stub.Remote.{Server}
use list_server.Server.Replicas.{IsWrite}
use list_server.Server.Chain.Reads.{IsWrite-cases}
use list_server.Server.Stock.{Stock}
use list_server.Server.Stock.Offers.{Settled, Offers}
use list_server.Server.Chain.Stocked.{Stocked, serve_at, Follows, write-Stocked, read-Stocked}

-- A request and the place of the server that it reaches, the head's being 0.
pub record Event : Type 0 where
  pub place : ℕ
  pub asks : Request

-- A request that one of `k` servers can get: a write at the head, any other anywhere.
abbrev pub Placed : ℕ → Event → Type 0
Placed k e = (e.place < k) × (IsWrite e.asks → e.place ≡ 0) × IsAsked e.asks

-- One event after the other: the replies, and the servers afterwards.
unfoldable pub serve_all : RList → List Event → List Server → List (Option MessageT) × List Server
serve_all r [] vs = ([], vs)
serve_all r (e ∷ es) vs =
    let out = serve_at r e.place (request e.asks) vs in
    let rest = serve_all r es out.1 in (out.0 ∷ rest.0, rest.1)

-- The events as the service over a stock answers them.
pub data Run (year : ℤ) : Stock → List Event → List Answer → Stock → Type 0 where
  ended : {x : Stock} → Run year x [] [] x
  then :
      {x y z : Stock} {e : Event} {a : Answer} {es : List Event} {as' : List Answer}
      → Offers year x e.asks a y
      → Run year y es as' z
      → Run year x (e ∷ es) (a ∷ as') z

abbrev pub replies : List Event → List Answer → List (Option MessageT)
replies (e ∷ es) (a ∷ as') = some (reply_to (request e.asks) a) ∷ replies es as'
replies _ _ = []

-- Whenever a model is deleted, its cars are of one year.
abbrev pub AllSettled : ℤ → Stock → List Event → Type 0
AllSettled year x [] = Unit
AllSettled year x (e ∷ es) =
    Settled x e.asks × ((a : Answer) (y : Stock) → Offers year x e.asks a y → AllSettled year y es)

at_head :
    (r : RList) (vs : List Server) (year : ℤ) (x : Stock) (q : Request)
    → 0 < length vs
    → All (Stocked year x) vs
    → IsWrite q
    → IsAsked q
    → Settled x q
    → Follows year x q (serve_at r 0 (request q) vs) (length vs)
unfolding serve_at
at_head r [] year x q lt h w asked t = absurd (omega arith)
at_head r (v ∷ rest) year x q lt h w asked t = write-Stocked r v rest year x q h w asked t

event-Stocked :
    (r : RList) (e : Event) (vs : List Server) (year : ℤ) (x : Stock)
    → Placed (length vs) e
    → All (Stocked year x) vs
    → Settled x e.asks
    → Follows year x e.asks (serve_at r e.place (request e.asks) vs) (length vs)
event-Stocked r e vs year x (lt, head, asked) h t = elim (IsWrite-cases e.asks) [
  | inl w ↦
      let there = head w in
      let lt' = subst (λ n. n < length vs) there lt in
      subst (λ n. Follows year x e.asks (serve_at r n (request e.asks) vs) (length vs)) (sym there)
        (at_head r vs year x e.asks lt' h w asked t)
  | inr w ↦ read-Stocked r e.place vs year x e.asks lt h w asked t
]

-- Any sequence of requests of the stub, the writes at the head of a chain and the others at any
-- server of it, leaves all servers with the same cars of each year in the same order, though their
-- lists may differ, and each request is answered as the service over a stock offers: the cars of a
-- year, the cars in order and their number are the same from every server. Before, all servers have
-- the cars of one stock, no allocation fails, the clocks show the same year, the enums of a car to
-- add and a brand to get fit, a year that is asked for is not -1, and a model is deleted only when
-- all its cars are of one year.
pub serve_all-Run :
    (r : RList) (es : List Event) (vs : List Server) (year : ℤ) (x : Stock)
    → All (Stocked year x) vs
    → All (Placed (length vs)) es
    → AllSettled year x es
    → (as' : List Answer) × (y : Stock) × Run year x es as' y
      × ((serve_all r es vs).0 ≡ replies es as')
      × All (Stocked year y) (serve_all r es vs).1
unfolding serve_all
serve_all-Run r [] vs year x h p t = ([], x, Run.ended, refl, h)
serve_all-Run r (e ∷ es) vs year x h (p, ps) (t, ts) =
    let (a, y, o, reply, held, n) = event-Stocked r e vs year x p h t in
    let ps' = subst (λ k. All (Placed k) es) (sym n) ps in
    let (as', z, run, rest, last) = serve_all-Run r es _ year y held ps' (ts a y o) in
    (a ∷ as', z, Run.then o run, ap₂ (λ m ms. m ∷ ms) reply rest, last)
