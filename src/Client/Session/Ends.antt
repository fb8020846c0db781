-- ===== src/Client/Session/Ends.antt =====
-- The connections of a client of source/list_client.c: to a server that is alone, to the head of a
-- chain for what it writes, and to its tail for what it reads.
use list_server.Base.{
  ◌==ℤ◌, ==ℤ_iff, ◌∙◌, refl, false, if◌then◌else◌, ◌≡◌, ap, ◌<◌, none, arith, Option, some, List,
  [], ◌∷◌, All, ℤ, length,
}
use list_server.Sys.{State}
use list_server.Car.{DataT}
use list_server.Message.{MessageT}
use list_server.Spec.{Request, Answer, Serves}
use list_server.Stub.{RList}
use list_server.Stub.Requests.{request, IsAsked, reply_to}
use list_server.Stub.Remote.{Server}
use list_server.Server.{apply_local}
use list_server.Server.Replicas.{IsWrite, Holds}
use list_server.Server.Replicas.Reads.{apply_asked}
use list_server.Server.Chain.{chain_serve, answered, chain_serve_answered}
use list_server.Server.Chain.Reads.{answered_here}
use list_server.Server.Session.{serve_alone}
use list_server.Client.Session.Link.{Link}
use list_server.Client.Session.Makes.{at_end}

-- A chain of one server or more.
abbrev pub AllHold : ℤ → List DataT → List Server → Type 0
AllHold year cs chain = (0 < length chain) × All (Holds year cs) chain

-- The last server of a chain, which the others do not hear of.
unfoldable pub to_tail : RList → MessageT → State (List Server) (Option MessageT)
to_tail r msg [] = (none, [])
to_tail r msg (v ∷ []) = chain_serve r msg (v ∷ [])
to_tail r msg (v ∷ b ∷ rest) = let out = to_tail r msg (b ∷ rest) in (out.0, v ∷ out.1)

-- What a client's connections reach in a chain: the head by the descriptor `head`, the tail by the
-- descriptor `tail`, and nobody by another. The links of the chain are `link`.
unfoldable pub to_ends :
    (link : RList) (head tail : ℤ) → RList → MessageT → State (List Server) (Option MessageT)
to_ends link head tail r msg chain =
    if r.sockfd ==ℤ head
    then chain_serve link msg chain
    else if r.sockfd ==ℤ tail
    then to_tail r msg chain
    else (none, chain)

abbrev pub TailHolds : ℤ → List DataT → List Server → Type 0
TailHolds year cs [] = ⊥
TailHolds year cs (v ∷ []) = Holds year cs v
TailHolds year cs (v ∷ b ∷ rest) = TailHolds year cs (b ∷ rest)

pub AllHold-TailHolds :
    (year : ℤ) (cs : List DataT) (chain : List Server)
    → AllHold year cs chain
    → TailHolds year cs chain
AllHold-TailHolds year cs [] (n, h) = absurd (omega arith)
AllHold-TailHolds year cs (v ∷ []) (n, h) = h.0
AllHold-TailHolds year cs (v ∷ b ∷ rest) (n, h) =
    AllHold-TailHolds year cs (b ∷ rest) (omega arith, h.1)

pub tail_answered :
    (year : ℤ) (cs : List DataT) (chain : List Server) (q : Request)
    → TailHolds year cs chain
    → IsAsked q
    → (a : Answer) × (ds : List DataT) × Serves year cs q a ds
tail_answered year cs [] q here asked = absurd here
tail_answered year cs (v ∷ []) q here asked = answered_here v year cs q here asked
tail_answered year cs (v ∷ b ∷ rest) q here asked = tail_answered year cs (b ∷ rest) q here asked

-- What a server, and what a link to it, make of a request.
abbrev Served : ℤ → List DataT → Request → Answer → (RList → Option MessageT × List Server) → Type 0
Served year ds q a run =
    (x : List Server) × ((r : RList) → run r ≡ (some (reply_to (request q) a), x))
    × TailHolds year ds x
    × (0 < length x)

TailHolds-cons :
    (year : ℤ) (cs : List DataT) (v : Server) (x : List Server)
    → 0 < length x
    → TailHolds year cs x
    → TailHolds year cs (v ∷ x)
TailHolds-cons year cs v [] n h = absurd (omega arith)
TailHolds-cons year cs v (b ∷ rest) n h = h

tail_served :
    (year : ℤ) (cs ds : List DataT) (chain : List Server) (q : Request) (a : Answer)
    → TailHolds year cs chain
    → IsAsked q
    → Serves year cs q a ds
    → Served year ds q a (λ r. to_tail r (request q) chain)
unfolding to_tail chain_serve
tail_served year cs ds [] q a here asked sv = absurd here
tail_served year cs ds (v ∷ []) q a here asked sv =
    let (said, held) = apply_asked v year cs ds q a here asked sv in
    let out = apply_local (request q) v.1 v.0 in
    (
      (out.1, out.0.1) ∷ [],
      λ r.
          rw (serve_alone {W = List Server} (λ _ m _. chain_serve r m []) (request q) v.1 v.0 [])
            (ap (λ (m : MessageT). (some m, (out.1, out.0.1) ∷ [])) said),
      held,
      omega arith,
    )
tail_served year cs ds (v ∷ b ∷ rest) q a here asked sv =
    let (x, said, held, n) = tail_served year cs ds (b ∷ rest) q a here asked sv in
    (
      v ∷ x,
      λ r. ap (λ (out : Option MessageT × List Server). (out.0, v ∷ out.1)) (said r),
      TailHolds-cons year ds v x n held,
      omega (arith, n),
    )

module _ (link rlh rlt : RList) (year : ℤ) (apart : (rlt.sockfd ==ℤ rlh.sockfd) ≡ false) where
  -- The chain as the client with these two connections reaches it.
  abbrev pub reached : RList → MessageT → State (List Server) (Option MessageT)
  reached = to_ends link rlh.sockfd rlt.sockfd

  write_reaches :
      (q : Request) (chain : List Server)
      → IsWrite q
      → reached (at_end rlh rlt q) (request q) chain ≡ chain_serve link (request q) chain
  unfolding to_ends
  write_reaches (Request.add c) chain w = rw ((==ℤ_iff rlh.sockfd rlh.sockfd).1 refl) refl
  write_reaches (Request.del m) chain w = rw ((==ℤ_iff rlh.sockfd rlh.sockfd).1 refl) refl
  write_reaches (Request.get marca) chain w = absurd w
  write_reaches (Request.in_year ano) chain w = absurd w
  write_reaches Request.in_order chain w = absurd w
  write_reaches Request.count chain w = absurd w
  write_reaches Request.names chain w = absurd w

  tail_reached :
      (msg : MessageT) (chain : List Server) → reached rlt msg chain ≡ to_tail rlt msg chain
  unfolding to_ends
  tail_reached msg chain = rw apart (rw ((==ℤ_iff rlt.sockfd rlt.sockfd).1 refl) refl)

  read_reaches :
      (q : Request) (chain : List Server)
      → ¬ IsWrite q
      → reached (at_end rlh rlt q) (request q) chain ≡ to_tail rlt (request q) chain
  read_reaches (Request.add c) chain w = absurd (w tt)
  read_reaches (Request.del m) chain w = absurd (w tt)
  read_reaches (Request.get marca) chain w = tail_reached _ chain
  read_reaches (Request.in_year ano) chain w = tail_reached _ chain
  read_reaches Request.in_order chain w = tail_reached _ chain
  read_reaches Request.count chain w = tail_reached _ chain
  read_reaches Request.names chain w = tail_reached _ chain

  pub head_served :
      (cs ds : List DataT) (chain : List Server) (q : Request) (a : Answer)
      → AllHold year cs chain
      → IsWrite q × IsAsked q
      → Serves year cs q a ds
      → (x : List Server) × (reached (at_end rlh rlt q) (request q) chain
          ≡ (some (reply_to (request q) a), x))
        × AllHold year ds x
  head_served cs ds [] q a (n, here) asked sv = absurd (omega arith)
  head_served cs ds (v ∷ rest) q a (n, here) (w, asked) sv =
      let (reply, held, l) = chain_serve_answered link v rest year cs ds q a here w asked sv in
      let x = (chain_serve link (request q) (v ∷ rest)).1 in
      (
        x,
        write_reaches q (v ∷ rest) w ∙ ap (λ (z : Option MessageT). (z, x)) reply,
        (omega (arith, l), held),
      )

  -- Where writes go.
  abbrev pub head_of_chain : Link (List Server) rlh rlt
  head_of_chain = record {
    send = reached;
    year = year;
    holds = AllHold year;
    asks = λ q. IsWrite q × IsAsked q;
    answered = λ cs w q here asked. answered year cs q asked.0;
    served = head_served;
  }

  pub tail_served_whole :
      (cs ds : List DataT) (chain : List Server) (q : Request) (a : Answer)
      → TailHolds year cs chain
      → ¬ IsWrite q × IsAsked q
      → Serves year cs q a ds
      → (x : List Server) × (reached (at_end rlh rlt q) (request q) chain
          ≡ (some (reply_to (request q) a), x))
        × TailHolds year ds x
  tail_served_whole cs ds chain q a here (w, asked) sv =
      let (x, said, held, n) = tail_served year cs ds chain q a here asked sv in
      (x, read_reaches q chain w ∙ said rlt, held)

  -- Where reads go.
  abbrev pub tail_of_chain : Link (List Server) rlh rlt
  tail_of_chain = record {
    send = reached;
    year = year;
    holds = TailHolds year;
    asks = λ q. ¬ IsWrite q × IsAsked q;
    answered = λ cs w q here asked. tail_answered year cs w q here asked.1;
    served = tail_served_whole;
  }
