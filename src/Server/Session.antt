-- ===== src/Server/Session.antt =====
-- A connection to a server without successor, over its socket: the loop of client_thread with
-- `network_receive` and `network_send`, all of source/network_server.c, and `invoke` of
-- source/list_skel.c between them.
pub mod Calls
use list_server.Base.{
  ℕ, ◌+◌, ◌≡◌, ◌∙◌, refl, sym, ap, subst, false, Option, none, some, List, [], ◌∷◌, ◌++◌, map,
  arith, suc, length, All, ℤ,
}
use mathlib.Core.List.{append-nil, append_assoc}
use list_server.Sys.{Sys, State, NeverFails, Steady}
use list_server.Car.{DataT, ano_atual}
use list_server.Car.Laws.{ano_atual_eq}
use list_server.CarList.{ListT}
use list_server.CarList.Edit.{list_of}
use list_server.Message.{MessageT}
use list_server.Spec.{Request, Answer, Serves}
use list_server.Stub.{RList}
use list_server.Stub.Requests.{request, IsAsked, reply_to}
use list_server.Chain.{zoo_forward_to_successor}
use list_server.Server.{apply_local, serve_request, client_loop, client_loop_round}
use list_server.Server.Replicas.Reads.{apply_asked}
use list_server.Wire.{Sock, WriteEvent, network_send, network_receive}
use list_server.Wire.Reads.{stream}
use list_server.Wire.Writes.{NoFailure}
use list_server.Wire.Frames.{frame, IsSendable, network_send_lem, network_receive_lem}

-- Requests in order with the answers of the specification, each on the cars that the one before left.
pub data Session (year : ℤ) : List DataT → List Request → List Answer → List DataT → Type 0 where
  over : {cs : List DataT} → Session year cs [] [] cs
  next :
      {cs ds es : List DataT} {q : Request} {qs : List Request} {a : Answer} {answers : List Answer}
      → Serves year cs q a ds
      → Session year ds qs answers es
      → Session year cs (q ∷ qs) (a ∷ answers) es

-- Without a successor every request is applied to the server's own list.
pub serve_alone :
    {W : Type 0} (send : RList → MessageT → State W (Option MessageT)) (msg : MessageT)
    (l : Option ListT) (s : Sys) (w : W)
    → let out = apply_local msg l s in serve_request send none msg l (s, w) ≡ (out.0, (out.1, w))
unfolding serve_request zoo_forward_to_successor
serve_alone send msg l s w = ground arith

-- The messages that answer requests.
abbrev pub replies : List Request → List Answer → List MessageT
replies (q ∷ qs) (a ∷ answers) = reply_to (request q) a ∷ replies qs answers
replies _ _ = []

module _ (pack : MessageT → List ℕ) where
  -- The frames of messages, one behind the other.
  abbrev pub frames : List MessageT → List ℕ
  frames [] = []
  frames (m ∷ ms) = frame (pack m) ++ frames ms

  -- All can be sent.
  abbrev pub Fit : List MessageT → Type 0
  Fit ms = All (λ m. IsSendable (pack m)) ms

module _ (pack : MessageT → List ℕ) (unpack : List ℕ → Option MessageT) where
  -- It can be asked, and is packed to between 1 and 65535 bytes that unpack to it.
  abbrev pub Travels : Request → Type 0
  Travels q =
      IsAsked q × IsSendable (pack (request q)) × (unpack (pack (request q)) ≡ some (request q))

  module _ (log : MessageT → State (Sys × Sock) (Unit {0}))
      (forward : RList → MessageT → State Sock (Option MessageT)) where
    -- The loop of a server that nobody stops.
    abbrev pub serve_on : ℕ → Option ListT → Sys × Sock → Option (Option ListT × (Sys × Sock))
    serve_on fuel list w =
        client_loop (λ k. false) (network_receive unpack) log (network_send pack) forward fuel none
          list w

    -- Logging leaves the allocator giving, the year and the connection.
    abbrev pub LogsQuietly : Type 0
    LogsQuietly =
        (m : MessageT) (w : Sys × Sock)
        → NeverFails w.0
        → Steady w.0 (log m w).1.0 × ((log m w).1.1 ≡ w.1)

    -- One request.
    answer_one :
        (year : ℤ) (cs ds : List DataT) (q : Request) (a : Answer) (more : List ℕ) (fuel : ℕ)
        (s : Sys) (k : Sock)
        → LogsQuietly
        → Serves year cs q a ds
        → Travels q
        → IsSendable (pack (reply_to (request q) a))
        → NeverFails s
        → ano_atual s ≡ year
        → NoFailure k.writes
        → stream k.input ≡ frame (pack (request q)) ++ more
        → (t : Sys) × (l : Sock) × (serve_on (suc fuel) (some (list_of cs)) (s, k)
            ≡ serve_on fuel (some (list_of ds)) (t, l))
          × (l.output ≡ k.output ++ frame (pack (reply_to (request q) a)))
          × (stream l.input ≡ more)
          × NeverFails t
          × (ano_atual t ≡ year)
          × NoFailure l.writes
    answer_one year cs ds q a more fuel s k quiet sv (asked, fits, back) fits' ok clock flows
          arrives =
        let (s1, k1, got, i1, o1, _, w1, (ok1, y1)) =
          network_receive_lem unpack (pack (request q)) more s k fits ok arrives in
        let ((ok2, y2), same) = quiet (request q) (s1, k1) ok1 in
        let (s2, k2) = (log (request q) (s1, k1)).1 in
        let clock2 : ano_atual s2 ≡ year = ano_atual_eq s2 s (y2 ∙ y1) ∙ clock in
        let (said, (held, ok3, clock3)) =
          apply_asked (s2, some (list_of cs)) year cs ds q a (refl, ok2, clock2) asked sv in
        let out = apply_local (request q) (some (list_of cs)) s2 in
        let flows2 : NoFailure k2.writes =
          subst (λ (es : List WriteEvent). NoFailure es)
            (sym (ap (λ (j : Sock). j.writes) same ∙ w1)) flows in
        let (s4, k4, sent, o4, i4, _, flows4, (ok4, y4)) =
          network_send_lem pack (reply_to (request q) a) out.1 k2 fits' ok3 flows2 in
        let round =
          client_loop_round (λ k. false) (network_receive unpack) log (network_send pack) forward
            fuel none (some (list_of cs)) (request q) out.0 (s, k) (s1, k1) (out.1, k2) (s4, k4)
            refl (got ∙ ap (λ (m : Option MessageT). some (m, (s1, k1))) back)
            (serve_alone forward (request q) (some (list_of cs)) s2 k2)
            (ap (λ (m : MessageT). network_send pack m (out.1, k2)) said ∙ sent) in
        (
          s4,
          k4,
          round ∙ ap (λ (l : Option ListT). serve_on fuel l (s4, k4)) held,
          o4
              ∙ ap (λ (b : List ℕ). b ++ frame (pack (reply_to (request q) a)))
                  (ap (λ (j : Sock). j.output) same ∙ o1),
          ap stream i4 ∙ ap (λ (j : Sock). stream j.input) same ∙ i1,
          ok4,
          ano_atual_eq s4 out.1 y4 ∙ clock3,
          flows4,
        )

    shift :
        {n m : ℕ} (cs : List DataT) (s : Sys) (k : Sock)
        → n ≡ m
        → serve_on n (some (list_of cs)) (s, k) ≡ serve_on m (some (list_of cs)) (s, k)
    shift cs s k e = ap (λ n. serve_on n (some (list_of cs)) (s, k)) e

    -- A connection to a server without successor: the requests whose frames arrive are answered in
    -- their order, each as the specification says on the cars that the one before left, and the
    -- answers' frames are sent in that order and nothing else. `client_loop` then goes on where they
    -- end, with the cars that the specification says. The requests and their answers are packed to
    -- between 1 and 65535 bytes, and the requests' unpack to them; a brand to get and a car's enums
    -- fit, and a year that is asked for is not -1; no write and no allocation fails, nobody stops
    -- the server, and logging leaves the allocator, the year and the connection alone.
    pub client_loop-Session :
        (year : ℤ) (cs ds : List DataT) (qs : List Request) (answers : List Answer) (rest : List ℕ)
        (fuel : ℕ) (s : Sys) (k : Sock)
        → LogsQuietly
        → Session year cs qs answers ds
        → All Travels qs
        → Fit pack (replies qs answers)
        → NeverFails s
        → ano_atual s ≡ year
        → NoFailure k.writes
        → stream k.input ≡ frames pack (map request qs) ++ rest
        → (t : Sys) × (l : Sock) × (serve_on (length qs + fuel) (some (list_of cs)) (s, k)
            ≡ serve_on fuel (some (list_of ds)) (t, l))
          × (l.output ≡ k.output ++ frames pack (replies qs answers))
          × (stream l.input ≡ rest)
    client_loop-Session year cs _ _ _ rest fuel s k quiet over fit fits ok clock flows arrives =
        (s, k, shift cs s k (omega arith), sym (append-nil k.output), arrives)
    client_loop-Session year cs es _ _ rest fuel s k quiet
          (next {ds = ds} {q = q} {qs = qs} {a = a} {answers = answers} sv later) (fit, all_fit)
          (fits, all) ok clock flows arrives =
        let m = reply_to (request q) a in
        let (t, l, one, o, i, ok', clock', flows') =
          answer_one year cs ds q a (frames pack (map request qs) ++ rest) (length qs + fuel) s k
            quiet sv fit fits ok clock flows
            (arrives
              ∙ append_assoc (frame (pack (request q))) (frames pack (map request qs)) rest) in
        let (t', l', more, o', i') =
          client_loop-Session year ds es qs answers rest fuel t l quiet later all_fit all ok' clock'
            flows' i in
        (
          t',
          l',
          shift cs s k (omega arith) ∙ one ∙ more,
          o'
              ∙ ap (λ (b : List ℕ). b ++ frames pack (replies qs answers)) o
              ∙ append_assoc k.output (frame (pack m)) (frames pack (replies qs answers)),
          i',
        )
