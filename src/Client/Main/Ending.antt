-- ===== src/Client/Main/Ending.antt =====
-- When the loop of source/list_client.c ends.
use list_server.Base.{
  ℕ, zero, suc, ◌≤◌, ◌≡◌, refl, inl, inr, Bool, true, false, Option, none, some, List, [], ◌∷◌,
  arith, CStr, ℤ, pos, ltb_ℤ, Bool-cases,
}
use list_server.Sys.{Sys, State}
use list_server.Message.{MessageT}
use list_server.Stub.{ret, RList}
use list_server.Chain.Start.{ZooKeeper}
use list_server.ChainClient.{Remote}
use list_server.ChainClient.Start.{zoo_init_client, Connected, zoo_init_client-Connected}
use list_server.Client.{parse_line}
use list_server.Client.Session.{Said}
use list_server.Client.Main.{Input, is_quit, main_loop, nobody, client_main}

-- SIGINT, or a line that is "quit".
abbrev pub is_last : Input → Bool
is_last i = elim i.g_client_shutdown [
  | true ↦ true
  | false ↦ elim i.line [ none ↦ false | some text ↦ is_quit (parse_line text) ]
]

module _ {W : Type 0} (strtof : CStr → ℕ) (send : RList → MessageT → State W (Option MessageT))
    (input : ℕ → Input) (ends : ℕ → Remote) where
  -- At the end of its input the program does not end: once `fgets` gives NULL and goes on to, as it
  -- does at the end of the input, with no SIGINT, the loop asks it again for ever, on any fuel.
  pub main_loop_hangs :
      (i : ℕ)
      → ((j : ℕ) → i ≤ j → ((input j).line ≡ none) × ((input j).g_client_shutdown ≡ false))
      → (fuel : ℕ) (w : Sys × W) → main_loop strtof send input ends fuel i w ≡ none
  unfolding main_loop
  main_loop_hangs i eof zero w = refl
  main_loop_hangs i eof (suc fuel) w =
      let (nothing, up) = eof i (omega arith) in
      let rest = main_loop_hangs (suc i) (λ j h. eof j (omega arith)) fuel w in
      ground (arith, nothing, up, rest)

module _ {W : Type 0} (strtof : CStr → ℕ) (send : RList → MessageT → State W (Option MessageT))
    (zk : ZooKeeper W) (connect : RList → State W (Option RList)) (close : ℤ → State W Bool)
    (is_busy : State W Bool) (input : ℕ → Input) (ends : Remote → ℕ → Remote)
    (final : Remote → Remote) where
  -- The program returns 0 only when it had one argument and, by it, a session with ZooKeeper, found
  -- or made /chain, and was connected to both ends of the chain: to the address that ZooKeeper gave
  -- for the head among the children that it listed, and to the one for the tail.
  pub client_main-Connected :
      (sigaction : Bool) (args : List CStr) (fuel : ℕ) (w w' : Sys × W) (said : List Said)
      → client_main strtof send zk connect close is_busy input ends final sigaction args fuel w
        ≡ some (ret (pos 0, said), w')
      → (hp : CStr) × (args ≡ hp ∷ [])
        × Connected zk connect close is_busy
            (some hp)
            w
            (zoo_init_client zk connect close is_busy (some hp) nobody w)
  unfolding client_main
  client_main-Connected sigaction [] fuel w w' said h = absurd (ground (arith, h))
  client_main-Connected sigaction (a ∷ b ∷ args) fuel w w' said h = absurd (ground (arith, h))
  client_main-Connected false (hp ∷ []) fuel w w' said h = absurd (ground (arith, h))
  client_main-Connected true (hp ∷ []) fuel w w' said h =
      let start = zoo_init_client zk connect close is_busy (some hp) nobody w in
      elim (Bool-cases (ltb_ℤ start.0.0 (pos 0))) [
        | inl failed ↦ absurd (ground (arith, failed, h))
        | inr good ↦ (hp, refl, zoo_init_client-Connected zk connect close is_busy (some hp) w good)
      ]
