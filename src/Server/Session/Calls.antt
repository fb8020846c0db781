-- ===== src/Server/Session/Calls.antt =====
-- Both ends of a connection of several calls: `network_send_receive` of source/network_client.c, call
-- after call, and the loop of `client_thread` of source/network_server.c behind it.
use list_server.Base.{
  arith, ℕ, ◌+◌, ◌≡◌, ◌∙◌, refl, sym, ap, some, Option, List, [], ◌∷◌, ◌++◌, map, length, All, ℤ,
  pos,
}
use mathlib.Core.List.{append-nil, append_assoc}
use list_server.Sys.{Sys, State, NeverFails}
use list_server.Car.{DataT, ano_atual}
use list_server.CarList.Edit.{list_of}
use list_server.Message.{MessageT}
use list_server.Spec.{Request, Answer}
use list_server.Stub.{RList}
use list_server.Stub.Requests.{request, reply_to}
use list_server.Wire.{Sock, Net, done, ◌>>=◌, network_send_receive}
use list_server.Wire.Reads.{stream}
use list_server.Wire.Writes.{NoFailure}
use list_server.Wire.Frames.{frame}
use list_server.Wire.Exchange.{network_send_receive_lem}
use list_server.Server.Session.{
  Session, over, next, replies, frames, Fit, Travels, serve_on, LogsQuietly, client_loop-Session,
}

module _ (pack : MessageT → List ℕ) (unpack : List ℕ → Option MessageT) where
  -- One call after the other on a connection.
  unfoldable pub calls : RList → List MessageT → Net (List (Option MessageT))
  calls r [] = done []
  calls r (m ∷ ms) = do
    answer ← network_send_receive pack unpack (some r) (some m)
    rest ← calls r ms
    done (answer ∷ rest)

  -- The answers come back as they were packed.
  abbrev pub ComeBack : List MessageT → Type 0
  ComeBack ms = All (λ m. unpack (pack m) ≡ some m) ms

  calls_answered :
      (year : ℤ) (cs ds : List DataT) (qs : List Request) (answers : List Answer) (more : List ℕ)
      (r : RList) (fd : ℕ) (c : Sys) (j : Sock)
      → Session year cs qs answers ds
      → All (Travels pack unpack) qs
      → Fit pack (replies qs answers)
      → ComeBack (replies qs answers)
      → r.sockfd ≡ pos fd
      → NeverFails c
      → NoFailure j.writes
      → stream j.input ≡ frames pack (replies qs answers) ++ more
      → (d : Sys) × (i : Sock) × (calls r (map request qs) (c, j)
          ≡ some (map some (replies qs answers), (d, i)))
        × (i.output ≡ j.output ++ frames pack (map request qs))
        × (stream i.input ≡ more)
  unfolding calls
  calls_answered year cs _ _ _ more r fd c j over fit fits back open_ ok flows arrives =
      (c, j, refl, sym (append-nil j.output), arrives)
  calls_answered year cs es _ _ more r fd c j
        (next {ds = ds} {q = q} {qs = qs} {a = a} {answers = answers} sv later) (fit, all_fit)
        (fits, all) (back, all_back) open_ ok flows arrives =
      let m = reply_to (request q) a in
      let (w, e, o, i, _, ok', flows') =
        network_send_receive_lem pack unpack (request q) m (pack m)
          (frames pack (replies qs answers) ++ more) r fd c j open_ fit.1 fits back ok flows
          (arrives ∙ append_assoc (frame (pack m)) (frames pack (replies qs answers)) more) in
      let (d, k, e', o', i') =
        calls_answered year ds es qs answers more r fd w.0 w.1 later all_fit all all_back open_ ok'
          flows' i in
      (
        d,
        k,
        ground (arith, e, e'),
        o'
            ∙ ap (λ (b : List ℕ). b ++ frames pack (map request qs)) o
            ∙ append_assoc j.output (frame (pack (request q))) (frames pack (map request qs)),
        i',
      )

  module _ (log : MessageT → State (Sys × Sock) (Unit {0}))
      (forward : RList → MessageT → State Sock (Option MessageT)) where
    -- A client and a server without successor at the two ends of a connection: the calls return, in
    -- their order, the answers of the specification, each on the cars that the one before left, and
    -- the server goes on with the cars that the specification says. What each end sends is what the
    -- other reads: the stream of the server begins with the frames that the client's calls turn out
    -- to send, the client's with those that the server turns out to send. Requests and answers are
    -- packed to between 1 and 65535 bytes that unpack to them; a brand to get and a car's enums fit,
    -- and a year that is asked for is not -1; the client is connected, no write and no allocation
    -- fails, nobody stops the server, and logging leaves its allocator, its year and the connection
    -- alone.
    pub calls-Session :
        (year : ℤ) (cs ds : List DataT) (qs : List Request) (answers : List Answer)
        (rest more : List ℕ) (fuel : ℕ) (r : RList) (fd : ℕ) (c s : Sys) (j k : Sock)
        → LogsQuietly pack unpack log forward
        → Session year cs qs answers ds
        → All (Travels pack unpack) qs
        → Fit pack (replies qs answers)
        → ComeBack (replies qs answers)
        → r.sockfd ≡ pos fd
        → NeverFails c
        → NeverFails s
        → ano_atual s ≡ year
        → NoFailure j.writes
        → NoFailure k.writes
        → stream k.input ≡ frames pack (map request qs) ++ rest
        → stream j.input ≡ frames pack (replies qs answers) ++ more
        → (d t : Sys) × (i l : Sock) × (calls r (map request qs) (c, j)
            ≡ some (map some (replies qs answers), (d, i)))
          × (serve_on pack unpack log forward (length qs + fuel) (some (list_of cs)) (s, k)
              ≡ serve_on pack unpack log forward fuel (some (list_of ds)) (t, l))
          × (i.output ≡ j.output ++ frames pack (map request qs))
          × (l.output ≡ k.output ++ frames pack (replies qs answers))
          × (stream i.input ≡ more)
          × (stream l.input ≡ rest)
    calls-Session year cs ds qs answers rest more fuel r fd c s j k quiet session fit fits back
          open_ up ok clock flows flows' there here =
        let (t, l, run, o, i) =
          client_loop-Session pack unpack log forward year cs ds qs answers rest fuel s k quiet
            session fit fits ok clock flows' there in
        let (d, n, said, o', i') =
          calls_answered year cs ds qs answers more r fd c j session fit fits back open_ up flows
            here in
        (d, t, n, l, said, run, o', o, i', i)
