-- ===== src/Server/Chain/Stocked.antt =====
-- The servers of a chain when clients write at its head and requests that are not forwarded reach
-- any server of it, as the loop of `client_thread` in source/network_server.c serves them: what they
-- agree on when their lists have parted.
pub mod Runs
use list_server.Base.{
  ℕ, zero, suc, ◌<◌, ◌≡◌, refl, sym, ap, ap₂, ◌∙◌, subst, Option, none, some, List, [], ◌∷◌, arith,
  length, All, ℤ,
}
use list_server.Car.{DataT}
use list_server.Message.{MessageT}
use list_server.Spec.{Request, Answer, Serves}
use list_server.Stub.{RList}
use list_server.Stub.Requests.{request, IsAsked, reply_to}
use list_server.Stub.Remote.{Server}
use list_server.Server.{apply_local}
use list_server.Server.Replicas.{IsWrite, Holds, apply_write}
use list_server.Server.Replicas.Reads.{apply_asked}
use list_server.Server.Stock.{Stock, of_cars}
use list_server.Server.Stock.Offers.{Settled, Offers, Serves-Offers, Offers-one, reads_leave}
use list_server.Server.Chain.{chain_serve, serve_tail, chain_serve_answered, write_needs_forward}
use list_server.Server.Chain.Reads.{answered_here, only_step, read_step, write_step}

-- A server whose cars are those of the stock.
abbrev pub Stocked : ℤ → Stock → Server → Type 0
Stocked year x v = (cs : List DataT) × Holds year cs v × (of_cars cs ≡ x)

-- A request that reaches the server at the place `n` of the chain.
unfoldable pub serve_at : RList → ℕ → MessageT → List Server → Option MessageT × List Server
serve_at r zero msg vs = chain_serve r msg vs
serve_at r (suc n) msg [] = (none, [])
serve_at r (suc n) msg (v ∷ vs) = let out = serve_at r n msg vs in (out.0, v ∷ out.1)

-- One server's step.
here-Stocked :
    (v : Server) (year : ℤ) (x : Stock) (q : Request)
    → Stocked year x v
    → IsAsked q
    → Settled x q
    → let out = apply_local (request q) v.1 v.0 in
      (a : Answer) × (y : Stock) × Offers year x q a y
      × (out.0.0 ≡ reply_to (request q) a)
      × Stocked year y (out.1, out.0.1)
here-Stocked v year x q (cs, h, e) asked t =
    let (a, ds, sv) = answered_here v year cs q h asked in
    let (reply, held) = apply_asked v year cs ds q a h asked sv in
    let t' = subst (λ z. Settled z q) (sym e) t in
    let o = subst (λ z. Offers year z q a (of_cars ds)) e (Serves-Offers sv t') in
    (a, of_cars ds, o, reply, (ds, held, refl))

-- The answer `a`, and `n` servers of the stock `y`.
abbrev Leaves : ℤ → Stock → Request → Answer → ℕ → Option MessageT × List Server → Type 0
Leaves year y q a n out =
    (out.0 ≡ some (reply_to (request q) a)) × All (Stocked year y) out.1 × (length out.1 ≡ n)

-- What a chain of the stock `x` does with a request: it is offered, and every server follows.
abbrev pub Follows : ℤ → Stock → Request → Option MessageT × List Server → ℕ → Type 0
Follows year x q out n =
    (a : Answer) × (y : Stock) × Offers year x q a y
    × (out.0 ≡ some (reply_to (request q) a))
    × All (Stocked year y) out.1
    × (length out.1 ≡ n)

write-Stocked :
    (r : RList) (v : Server) (rest : List Server) (year : ℤ) (x : Stock) (q : Request)
    → All (Stocked year x) (v ∷ rest)
    → IsWrite q
    → IsAsked q
    → Settled x q
    → Follows year x q (chain_serve r (request q) (v ∷ rest)) (length (v ∷ rest))
write-Stocked r v [] year x q (h, _) w asked t =
    let (a, y, o, reply, held) = here-Stocked v year x q h asked t in
    let run = only_step r v q w in
    let run' = subst (Leaves year y q a _) (sym run) (ap some reply, (held, tt), refl) in
    (a, y, o, run'.0, run'.1, run'.2)
write-Stocked r v (b ∷ rest) year x q (h, hs) w asked t =
    let (a, y, o, reply, held) = here-Stocked v year x q h asked t in
    let (_, z, p, behind, all, n) = write-Stocked r b rest year x q hs w asked t in
    let run = write_step r v b rest q _ w behind in
    let same = sym (Offers-one o p) in
    let all' =
      subst (λ y. All (Stocked year y) (chain_serve r (request q) (b ∷ rest)).1) same all in
    let run' = subst (Leaves year y q a _) (sym run) (ap some reply, (held, all'), ap suc n) in
    (a, y, o, run'.0, run'.1, run'.2)

read-Stocked :
    (r : RList) (n : ℕ) (vs : List Server) (year : ℤ) (x : Stock) (q : Request)
    → n < length vs
    → All (Stocked year x) vs
    → ¬ IsWrite q
    → IsAsked q
    → Settled x q
    → Follows year x q (serve_at r n (request q) vs) (length vs)
unfolding serve_at
read-Stocked r n [] year x q lt h w asked t = absurd (omega arith)
read-Stocked r zero (v ∷ rest) year x q lt (h, hs) w asked t =
    let (a, y, o, reply, held) = here-Stocked v year x q h asked t in
    let hs' = subst (λ z. All (Stocked year z) rest) (reads_leave o w) hs in
    let run =
      subst (Leaves year y q a _) (sym (read_step r v rest q w))
        (ap some reply, (held, hs'), refl) in
    (a, y, o, run.0, run.1, run.2)
read-Stocked r (suc n) (v ∷ rest) year x q lt (h, hs) w asked t =
    let (a, y, o, reply, all, len) = read-Stocked r n rest year x q (omega arith) hs w asked t in
    (a, y, o, reply, (subst (λ z. Stocked year z v) (reads_leave o w) h, all), ap suc len)
