-- ===== src/Client/Session/Reading.antt =====
-- Clients of source/list_client.c at both ends of a chain: what one writes, another reads.
use list_server.Base.{◌==ℤ◌, false, ◌≡◌, sym, subst, ℕ, some, List, All, CStr, ℤ}
use list_server.Sys.{Sys, NeverFails}
use list_server.Car.{DataT, ano_atual}
use list_server.Car.Laws.{IsValid}
use list_server.Spec.{Request, Answer, Serves}
use list_server.Stub.{RList, ret}
use list_server.Stub.Requests.{IsAsked}
use list_server.Stub.Remote.{Server}
use list_server.Server.Replicas.{IsWrite}
use list_server.Client.{Command}
use list_server.Client.Session.{run_command}
use list_server.Client.Session.Makes.{Makes, told}
use list_server.Client.Session.Link.{run_command-Link}
use list_server.Client.Session.Ends.{AllHold, TailHolds, to_ends, head_of_chain, tail_of_chain}

module _ (strtof : CStr → ℕ) (link rh rt : RList) (apart : (rt.sockfd ==ℤ rh.sockfd) ≡ false)
    (s : Sys) (year : ℤ) (cs : List DataT) (command : Command) (q : Request)
    (makes : Makes strtof (ano_atual s) command q) (up : NeverFails s) (clock : ano_atual s ≡ year)
    (valid : All (IsValid year) cs) where
  here-IsValid : All (IsValid (ano_atual s)) cs
  here-IsValid = subst (λ (y : ℤ). All (IsValid y) cs) (sym clock) valid

  -- A command that reads, whatever the servers hold that are not the tail.
  pub run_command-tail :
      (chain : List Server)
      → ¬ IsWrite q
      → IsAsked q
      → TailHolds year cs chain
      → let out =
          run_command strtof
            (to_ends link rh.sockfd rt.sockfd)
            (some rh)
            (some rt)
            command
            (s, chain) in
        (a : Answer) × (ds : List DataT) × Serves year cs q a ds
        × (out.0 ≡ ret (told command a))
        × TailHolds year ds out.1.1
  run_command-tail chain w asked here =
      run_command-Link strtof rh rt (tail_of_chain link rh rt year apart) s chain cs command q makes
        (w, asked) up here here-IsValid

  -- A command that writes, at a client of a chain of servers that all hold the cars `cs`.
  pub run_command-head :
      (chain : List Server)
      → IsWrite q
      → IsAsked q
      → AllHold year cs chain
      → let out =
          run_command strtof
            (to_ends link rh.sockfd rt.sockfd)
            (some rh)
            (some rt)
            command
            (s, chain) in
        (a : Answer) × (ds : List DataT) × Serves year cs q a ds
        × (out.0 ≡ ret (told command a))
        × AllHold year ds out.1.1
  run_command-head chain w asked here =
      run_command-Link strtof rh rt (head_of_chain link rh rt year apart) s chain cs command q makes
        (w, asked) up here here-IsValid
