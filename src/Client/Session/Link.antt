-- ===== src/Client/Session/Link.antt =====
-- What a client of source/client_stub.c may rely on behind a connection, as an interface: the
-- requests that can be made there are answered as the specification says.
use list_server.Base.{◌≡◌, sym, subst, Option, some, List, ℤ, ℕ, CStr, All}
use list_server.Sys.{Sys, State, NeverFails}
use list_server.Car.{DataT, ano_atual}
use list_server.Car.Laws.{IsValid}
use list_server.Message.{MessageT}
use list_server.Spec.{Request, Answer, Serves}
use list_server.Stub.{RList, ret}
use list_server.Client.{Command}
use list_server.Client.Session.{run_command}
use list_server.Client.Session.Makes.{Makes, at_end, told}
use list_server.Client.Session.Told.{run_command-Tells}
use list_server.Stub.Requests.{request, reply_to}

-- `send` is `network_send_receive`; `holds cs w` says that the cars `cs` are what the world `w` behind
-- the connections hold, in the year `year` of its clocks; `asks` are the requests that keep it so.
pub record Link (W : Type 0) (rlh rlt : RList) : Type 1 where
  pub send : RList → MessageT → State W (Option MessageT)
  pub year : ℤ
  pub holds : List DataT → W → Type 0
  pub asks : Request → Type 0
  pub answered :
      (cs : List DataT) (w : W) (q : Request)
      → holds cs w
      → asks q
      → (a : Answer) × (ds : List DataT) × Serves year cs q a ds
  pub served :
      (cs ds : List DataT) (w : W) (q : Request) (a : Answer)
      → holds cs w
      → asks q
      → Serves year cs q a ds
      → (x : W) × (send (at_end rlh rlt q) (request q) w ≡ (some (reply_to (request q) a), x))
        × holds ds x

-- A client whose connections lead to where its requests are served: a command that makes the
-- request `q` prints what the specification answers to it, and leaves there the cars that the
-- specification says. The client's allocations succeed and the cars there are valid in its year.
pub run_command-Link :
    {W : Type 0} (strtof : CStr → ℕ) (rh rt : RList) (link : Link W rh rt) (s : Sys) (w : W)
    (cs : List DataT) (command : Command) (q : Request)
    → Makes strtof (ano_atual s) command q
    → link.asks q
    → NeverFails s
    → link.holds cs w
    → All (IsValid (ano_atual s)) cs
    → let out = run_command strtof link.send (some rh) (some rt) command (s, w) in
      (a : Answer) × (ds : List DataT) × Serves link.year cs q a ds
      × (out.0 ≡ ret (told command a))
      × link.holds ds out.1.1
run_command-Link strtof rh rt link s w cs command q makes asked up here v =
    let (a, ds, sv) = link.answered cs w q here asked in
    let (x, e, there) = link.served cs ds w q a here asked sv in
    let (said, left) = run_command-Tells strtof link.send rh rt s w x up command q a makes sv v e in
    (a, ds, sv, said, subst (link.holds ds) (sym left) there)
