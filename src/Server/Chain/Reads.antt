-- ===== src/Server/Chain/Reads.antt =====
-- Requests to a chain of servers that client_thread of source/network_server.c does not forward, and
-- what a later one that it does forward finds.
use list_server.Base.{
  ◌⊎◌, inl, inr, ◌≡◌, ◌∙◌, refl, ap, subst, first, drop_first, CStr, false, Option, some, List, [],
  ◌∷◌, All, ℤ,
}
use list_server.Car.{DataT}
use list_server.CarList.Edit.{same_model}
use list_server.CarList.Sorted.{stable_sort}
use list_server.Message.{MessageT}
use list_server.Spec.{Request, Answer, Serves}
use list_server.Stub.{RList, get_request, year_request, size_request, models_request}
use list_server.Stub.Requests.{request, IsAsked, reply_to, dispatch-Refines}
use list_server.Stub.Remote.{Server}
use list_server.Server.{needs_forward, apply_local}
use list_server.Server.Replicas.{IsWrite, Holds, apply_write}
use list_server.Server.Replicas.Reads.{apply_asked}
use list_server.Server.Chain.{
  linked, chain_serve, serve_tail, serve_read, serve_forwarded, write_needs_forward,
  chain_serve_answered,
}

-- A request that leaves the order of the cars: any but the one for the cars in order.
abbrev pub KeepsOrder : Request → Type 0
KeepsOrder Request.in_order = ⊥
KeepsOrder _ = Unit

-- A read that leaves the order leaves the cars.
pub Serves-keeps :
    {year : ℤ} {cs ds : List DataT} {q : Request} {a : Answer}
    → ¬ IsWrite q
    → KeepsOrder q
    → Serves year cs q a ds
    → ds ≡ cs
Serves-keeps w o (Serves.add_valid c v) = absurd (w tt)
Serves-keeps w o (Serves.add_invalid c bad) = absurd (w tt)
Serves-keeps w o (Serves.del_first m c e) = absurd (w tt)
Serves-keeps w o (Serves.del_none m e) = absurd (w tt)
Serves-keeps w o (Serves.get_first marca c e) = refl
Serves-keeps w o (Serves.get_none marca e) = refl
Serves-keeps w o (Serves.of_year ano e) = refl
Serves-keeps w o Serves.sorted = absurd o
Serves-keeps w o Serves.size = refl
Serves-keeps w o Serves.models = refl

pub IsWrite-cases : (q : Request) → IsWrite q ⊎ ¬ IsWrite q
IsWrite-cases (Request.add c) = inl tt
IsWrite-cases (Request.del m) = inl tt
IsWrite-cases (Request.get m) = inr λ w. w
IsWrite-cases (Request.in_year m) = inr λ w. w
IsWrite-cases Request.in_order = inr λ w. w
IsWrite-cases Request.count = inr λ w. w
IsWrite-cases Request.names = inr λ w. w

pub read_needs_none : (q : Request) → ¬ IsWrite q → needs_forward (request q) ≡ false
unfolding needs_forward get_request year_request size_request models_request
read_needs_none (Request.add c) r = absurd (r tt)
read_needs_none (Request.del m) r = absurd (r tt)
read_needs_none (Request.get marca) r = refl
read_needs_none (Request.in_year ano) r = refl
read_needs_none Request.in_order r = refl
read_needs_none Request.count r = refl
read_needs_none Request.names r = refl

-- A request of the stub on one server has its answer.
pub answered_here :
    (v : Server) (year : ℤ) (cs : List DataT) (q : Request)
    → Holds year cs v
    → IsAsked q
    → (a : Answer) × (ds : List DataT) × Serves year cs q a ds
answered_here (s, l) year cs q (e, ok, y) asked =
    let (a, ds, sv, _) = dispatch-Refines s cs ok q asked in
    (a, ds, subst (λ z. Serves z cs q a ds) y sv)

-- One that is no write, on the first server of a chain.
pub read_step :
    (r : RList) (v : Server) (rest : List Server) (q : Request)
    → ¬ IsWrite q
    → let out = apply_local (request q) v.1 v.0 in
      chain_serve r (request q) (v ∷ rest) ≡ (some out.0.0, (out.1, out.0.1) ∷ rest)
unfolding chain_serve
read_step r v rest q w =
    rw
      (serve_read (λ _ m _. chain_serve r m rest) (linked r rest) (request q) v.1 v.0 rest
        (read_needs_none q w))
      refl

-- A write on the first server of a chain whose successor replies.
pub write_step :
    (r : RList) (v b : Server) (rest : List Server) (q : Request) (resp : MessageT)
    → IsWrite q
    → (chain_serve r (request q) (b ∷ rest)).0 ≡ some resp
    → let out = apply_local (request q) v.1 v.0 in
      chain_serve r (request q) (v ∷ b ∷ rest)
      ≡ (some out.0.0, (out.1, out.0.1) ∷ (chain_serve r (request q) (b ∷ rest)).1)
unfolding chain_serve
write_step r v b rest q resp w reply =
    let behind = chain_serve r (request q) (b ∷ rest) in
    rw
      (serve_forwarded (λ _ m _. chain_serve r m (b ∷ rest)) r (request q) resp v.1 v.0 (b ∷ rest)
        behind.1 (write_needs_forward q w) (ap (λ (x : Option MessageT). (x, behind.1)) reply))
      refl

-- A write on the only server of a chain.
pub only_step :
    (r : RList) (v : Server) (q : Request)
    → IsWrite q
    → let out = apply_local (request q) v.1 v.0 in
      chain_serve r (request q) (v ∷ []) ≡ (some out.0.0, (out.1, out.0.1) ∷ [])
unfolding chain_serve
only_step r v q w =
    rw
      (serve_tail {W = List Server} (λ _ m _. chain_serve r m []) (request q) v.1 v.0 []
        (write_needs_forward q w))
      refl

-- A request of the stub that is no write gets the answer of the specification from the first server
-- of a chain alone, by its own cars, and the servers behind it do not hear of it. The first server's
-- allocator gives, before and after, a brand to get fits 31 bits and a year that is asked for is not -1.
pub chain_serve_read :
    (r : RList) (v : Server) (rest : List Server) (year : ℤ) (cs : List DataT) (q : Request)
    → Holds year cs v
    → ¬ IsWrite q
    → IsAsked q
    → (a : Answer) × (ds : List DataT) × (v' : Server) × Serves year cs q a ds
      × (chain_serve r (request q) (v ∷ rest) ≡ (some (reply_to (request q) a), v' ∷ rest))
      × Holds year ds v'
chain_serve_read r v rest year cs q h w asked =
    let (a, ds, sv) = answered_here v year cs q h asked in
    let (e, held) = apply_asked v year cs ds q a h asked sv in
    let out = apply_local (request q) v.1 v.0 in
    let left = (out.1, out.0.1) ∷ rest in
    (a, ds, _, sv, read_step r v rest q w ∙ ap (λ (m : MessageT). (some m, left)) e, held)

-- The replicas of a chain part after a request for the cars in order, OP_GETLISTBYTEAR with -1, which
-- sorts the list of the first server only: an OP_DEL that follows removes from it the first car `d` of
-- the model in the order of the years, and from the others the first one `c` in the order of
-- insertion. All servers hold the cars `cs` before, no allocation fails and the clocks show the
-- same year.
pub parted_lem :
    (r : RList) (v b : Server) (rest : List Server) (year : ℤ) (cs : List DataT) (m : CStr)
    (c d : DataT)
    → All (Holds year cs) (v ∷ b ∷ rest)
    → first (same_model m) cs ≡ some c
    → first (same_model m) (stable_sort cs) ≡ some d
    → (v' : Server) × (others : List Server) × ((chain_serve r
          (request (Request.del m))
          (chain_serve r (request Request.in_order) (v ∷ b ∷ rest)).1).1
        ≡ v' ∷ others)
      × Holds year (drop_first (same_model m) (stable_sort cs)) v'
      × All (Holds year (drop_first (same_model m) cs)) others
parted_lem r v b rest year cs m c d (h, hs) e f =
    let out = apply_local (request Request.in_order) v.1 v.0 in
    let q = Request.del m in
    let (reply, all, _) =
      chain_serve_answered r b rest year cs _ q _ hs tt tt (Serves.del_first m c e) in
    let (_, held) =
      apply_write (out.1, out.0.1) year (stable_sort cs) _ q _
        (apply_asked v year cs _ Request.in_order _ h tt Serves.sorted).1 tt tt
        (Serves.del_first m d f) in
    (
      _,
      _,
      rw (read_step r v (b ∷ rest) Request.in_order (λ x. x))
          (ap (λ x. x.1) (write_step r (out.1, out.0.1) b rest q _ tt reply)),
      held,
      all,
    )
