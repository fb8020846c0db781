-- ===== src/Server/Locking/Chained.antt =====
-- What the threads of client_thread in source/network_server.c keep true at the head of a chain: who
-- holds which cars at each stage of a write, while the chain is undisturbed.
use list_server.Base.{
  inl, inr, false, ◌≡◌, ◌<◌, refl, ap, ◌∙◌, true, some, Option, List, [], ◌∷◌, arith, ℤ, pos,
  length, All, subst, sym,
}
use list_server.Sys.{Sys, NeverFails}
use list_server.Car.{DataT, ano_atual}
use list_server.CarList.{ListT}
use list_server.CarList.Edit.{list_of}
use list_server.Message.{MessageT}
use list_server.Spec.{Request, Answer, Serves}
use list_server.Stub.{RList}
use list_server.Stub.Requests.{request, IsAsked, reply_to}
use list_server.Stub.Remote.{Server}
use list_server.Chain.{zoo_forward_to_successor}
use list_server.Server.{needs_forward, apply_local}
use list_server.Server.Replicas.{IsWrite, Holds, apply_write}
use list_server.Server.Chain.{chain_serve, chain_serve_answered, answered, write_needs_forward}
use list_server.Server.Chain.Reads.{
  KeepsOrder, Serves-keeps, IsWrite-cases, read_needs_none, answered_here,
}
use list_server.Server.Replicas.Reads.{apply_asked}
use list_server.Server.Locking.{
  Stage, receiving, asking, holding, forwarding, forwarded, replied, sending, Served, Shared, Turn,
  lock, allocate, relink, Reach, start, later,
}
use list_server.Server.Locking.Exclusion.{is_inside, Kept, Guarded}

-- Requests and their replies, the last one first, as the specification answers them one after the
-- other on the cars `cs`; the index is the cars afterwards.
pub data Written (year : ℤ) (cs : List DataT) : List Served → List DataT → Type 0 where
  nothing_yet : Written year cs [] cs
  written_next :
      {log : List Served} {ds es : List DataT} (q : Request) (a : Answer)
      → Written year cs log ds
      → Serves year ds q a es
      → Written year cs ((request q, reply_to (request q) a) ∷ log) es

pub before :
    {year : ℤ} {cs : List DataT} {log : List Served} {es : List DataT} (one : Served)
    → Written year cs (one ∷ log) es
    → (ds : List DataT) × Written year cs log ds
before one (written_next q a rest sv) = (_, rest)

-- A request of the stub that is no request for the cars in order.
abbrev pub AsksOrderly : MessageT → Type 0
AsksOrderly msg = (q : Request) × (request q ≡ msg) × KeepsOrder q × IsAsked q

-- A write of the stub.
abbrev pub AsksWrite : MessageT → Type 0
AsksWrite msg = (q : Request) × (request q ≡ msg) × IsWrite q × IsAsked q

pub writes_forwarded : {msg : MessageT} → AsksOrderly msg → needs_forward msg ≡ true → AsksWrite msg
writes_forwarded (q, m, o, asked) e = elim (IsWrite-cases q) [
  | inl w ↦ (q, m, w, asked)
  | inr w ↦ let b = ap needs_forward m ∙ e in let c = read_needs_none q w in absurd (cc)
]

reads_kept :
    (q : Request) {msg : MessageT} → request q ≡ msg → needs_forward msg ≡ false → ¬ IsWrite q
reads_kept q m e w = let b = ap needs_forward m ∙ e in let c = write_needs_forward q w in cc

module _ (r : RList) (year : ℤ) where
  -- All servers behind the head, one or more, hold the cars.
  abbrev pub Behind : List DataT → List Server → Type 0
  Behind cs w = (0 < length w) × All (Holds year cs) w

  abbrev pub IsCalm : Sys → Type 0
  IsCalm s = NeverFails s × (ano_atual s ≡ year)

  -- A step of an undisturbed chain: the requests that get the lock leave the order, the allocator goes on
  -- giving in the same year, and the successor stays.
  abbrev pub Quiet : {t u : Shared (List Server)} → Turn chain_serve t u → Type 0
  Quiet (lock i {msg} e e') = AsksOrderly msg
  Quiet (allocate s) = IsCalm s
  Quiet (relink next e) = next ≡ some r
  Quiet _ = Unit

  -- A run of such steps.
  abbrev pub QuietRun :
      {l : Option ListT} {w : List Server} {t : Shared (List Server)}
      → Reach chain_serve l w t
      → Type 0
  QuietRun (start s next) = IsCalm s × (next ≡ some r)
  QuietRun (later run step) = QuietRun run × Quiet step

  -- The replies of the chain behind the head are taken for success.
  forwarded_well :
      (msg resp : MessageT) (w x : List Server)
      → chain_serve r msg w ≡ (some resp, x)
      → zoo_forward_to_successor chain_serve (some msg) (some r) w ≡ (pos 0, x)
  unfolding zoo_forward_to_successor
  forwarded_well msg resp w x e = ground (arith, e)

  pub chain_serve_next :
      (cs ds : List DataT) (w : List Server) (q : Request) (a : Answer)
      → Behind cs w
      → IsWrite q
      → IsAsked q
      → Serves year cs q a ds
      → (x : List Server) × (chain_serve r (request q) w ≡ (some (reply_to (request q) a), x))
        × Behind ds x
  chain_serve_next cs ds [] q a (n, h) w asked sv = absurd (omega arith)
  chain_serve_next cs ds (v ∷ rest) q a (n, h) w asked sv =
      let (reply, held, l) = chain_serve_answered r v rest year cs ds q a h w asked sv in
      let x = (chain_serve r (request q) (v ∷ rest)).1 in
      (x, ap (λ (m : Option MessageT). (m, x)) reply, (omega (arith, l), held))

  module _ (cs : List DataT) where
    abbrev pub Calm : Kept (List Server) → Type 0
    Calm k = IsCalm k.sys × (k.rl_next_server ≡ some r)

    -- The head and the servers behind it hold what the requests left.
    abbrev pub Equal : Kept (List Server) → List Served → Type 0
    Equal k log =
        (ds : List DataT) × (k.list ≡ some (list_of ds))
        × Behind ds k.world
        × Written year cs log ds

    -- The servers behind the head are one write ahead.
    abbrev pub Ahead : Kept (List Server) → MessageT → ℤ → Type 0
    Ahead k msg fwd_rc =
        (q : Request) × (a : Answer) × (ds : List DataT) × (es : List DataT) × (request q ≡ msg)
        × IsWrite q
        × IsAsked q
        × Serves year ds q a es
        × (k.list ≡ some (list_of ds))
        × Behind es k.world
        × Written year cs k.served ds
        × (fwd_rc ≡ pos 0)

    abbrev pub AtStage : Kept (List Server) → Stage → Type 0
    AtStage k (holding msg) = AsksOrderly msg × Equal k k.served
    AtStage k (forwarding msg) = AsksWrite msg × Equal k k.served
    AtStage k (forwarded msg fwd_rc) = Ahead k msg fwd_rc
    AtStage k (replied msg reply) = Equal k ((msg, reply) ∷ k.served)
    AtStage k _ = ⊥

    pub AtStage-inside :
        (k : Kept (List Server)) (p : Stage) → Calm k × AtStage k p → is_inside p ≡ true
    AtStage-inside k receiving h = absurd h.1
    AtStage-inside k (asking _) h = absurd h.1
    AtStage-inside k (holding _) h = refl
    AtStage-inside k (forwarding _) h = refl
    AtStage-inside k (forwarded _ _) h = refl
    AtStage-inside k (replied _ _) h = refl
    AtStage-inside k (sending _) h = absurd h.1

    abbrev pub chained : Guarded (List Server)
    chained = record {
      at_rest = λ k. Calm k × Equal k k.served;
      pending = λ k p. Calm k × AtStage k p;
      is_in = AtStage-inside;
    }

    -- Nothing there is about the allocator and the successor.
    pub retouch :
        (k : Kept (List Server)) (s : Sys) (next : Option RList) (p : Stage)
        → AtStage k p
        → AtStage (record k { sys = s; rl_next_server = next }) p
    retouch k s next (holding _) h = h
    retouch k s next (forwarding _) h = h
    retouch k s next (forwarded _ _) h = h
    retouch k s next (replied _ _) h = h
    retouch k s next receiving h = absurd h
    retouch k s next (asking _) h = absurd h
    retouch k s next (sending _) h = absurd h

    pub forward_step :
        (k : Kept (List Server)) (msg : MessageT)
        → k.rl_next_server ≡ some r
        → AsksWrite msg
        → Equal k k.served
        → let out = zoo_forward_to_successor chain_serve (some msg) k.rl_next_server k.world in
          Ahead (record k { world = out.1 }) msg out.0
    forward_step k msg linked_up (q, m, w, asked) (ds, l, behind, log) =
        let (a, es, sv) = answered year ds q w in
        let (x, e, there) = chain_serve_next ds es k.world q a behind w asked sv in
        let e' : chain_serve r msg k.world ≡ (some (reply_to (request q) a), x) =
          subst (λ z. chain_serve r z k.world ≡ (some (reply_to (request q) a), x)) m e in
        let sent =
          ap (λ next. zoo_forward_to_successor chain_serve (some msg) next k.world) linked_up
          ∙ forwarded_well msg _ k.world x e' in
        (
          q,
          a,
          ds,
          es,
          m,
          w,
          asked,
          sv,
          l,
          subst (Behind es) (sym (ap (λ (o : ℤ × List Server). o.1) sent)) there,
          log,
          ap (λ (o : ℤ × List Server). o.0) sent,
        )

    pub write_step :
        (k : Kept (List Server)) (msg : MessageT) (fwd_rc : ℤ)
        → IsCalm k.sys
        → Ahead k msg fwd_rc
        → let out = apply_local msg k.list k.sys in
          let k' : Kept (List Server) = record k { list = out.0.1; sys = out.1 } in
          IsCalm out.1 × Equal k' ((msg, out.0.0) ∷ k.served)
    write_step k msg fwd_rc (up, clock) (q, a, ds, es, m, w, asked, sv, l, behind, log, _) =
        let (said, (held, up', clock')) =
          apply_write (k.sys, k.list) year ds es q a (l, up, clock) w asked sv in
        subst
          (λ z.
            let out = apply_local z k.list k.sys in
            IsCalm out.1
            × Equal (record k { list = out.0.1; sys = out.1 }) ((z, out.0.0) ∷ k.served))
          m
          (
            (up', clock'),
            (
              es,
              held,
              behind,
              subst (λ z. Written year cs ((request q, z) ∷ k.served) es) (sym said)
                  (written_next q a log sv),
            ),
          )

    pub read_applied :
        (k : Kept (List Server)) (msg : MessageT)
        → IsCalm k.sys
        → needs_forward msg ≡ false
        → AsksOrderly msg
        → Equal k k.served
        → let out = apply_local msg k.list k.sys in
          let k' : Kept (List Server) = record k { list = out.0.1; sys = out.1 } in
          IsCalm out.1 × Equal k' ((msg, out.0.0) ∷ k.served)
    read_applied k msg (up, clock) b (q, m, o, asked) (ds, l, behind, log) =
        let (a, es, sv) = answered_here (k.sys, k.list) year ds q (l, up, clock) asked in
        let same = Serves-keeps (reads_kept q m b) o sv in
        let (said, (held, up', clock')) =
          apply_asked (k.sys, k.list) year ds es q a (l, up, clock) asked sv in
        subst
          (λ z.
            let out = apply_local z k.list k.sys in
            IsCalm out.1
            × Equal (record k { list = out.0.1; sys = out.1 }) ((z, out.0.0) ∷ k.served))
          m
          (
            (up', clock'),
            (
              es,
              held,
              subst (λ z. Behind z k.world) (sym same) behind,
              subst (λ z. Written year cs ((request q, z) ∷ k.served) es) (sym said)
                  (written_next q a log sv),
            ),
          )
