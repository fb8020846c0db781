-- ===== src/Client/Main.antt =====
-- `main` of source/list_client.c: the loop over the lines of input, and what stands before and behind
-- it. Between two lines the watcher of source/chain_client.c may have changed the connections.
pub mod Ending
use list_server.Base.{
  ℕ, zero, suc, Bool, true, false, Option, none, some, List, [], ◌∷◌, if◌then◌else◌, CStr, ℤ, pos,
  minus_one, ltb_ℤ, ◌==◌, not,
}
use list_server.CLib.{exit_failure}
use list_server.Sys.{Sys, State, pure, ◌>>=◌, ◌>>◌}
use list_server.Message.{MessageT}
use list_server.Stub.{Run, crash, ret, RList, outside}
use list_server.Chain.Start.{ZooKeeper}
use list_server.Chain.{disconnect_last}
use list_server.ChainClient.{Remote}
use list_server.ChainClient.Start.{Follower, zoo_init_client, zoo_clean_client}
use list_server.Client.{Command, quit, parse_line}
use list_server.Client.Session.{Said, run_command}

-- A call of `fgets`: the buffer, `none` for NULL, and `g_client_shutdown` behind it.
pub record Input : Type 0 where
  pub line : Option CStr
  pub g_client_shutdown : Bool

abbrev pub is_quit : Command → Bool
is_quit Command.quit = true
is_quit _ = false

-- How a session ends: what was said, and the state.
abbrev pub Session : Type 0 → Type 0
Session W = Option (Run (List Said) × (Sys × W))

abbrev pub and_before : {W : Type 0} → Said → Session W → Session W
and_before x none = none
and_before x (some (crash, w)) = some (crash, w)
and_before x (some (ret said, w)) = some (ret (x ∷ said), w)

module _ {W : Type 0} (strtof : CStr → ℕ) (send : RList → MessageT → State W (Option MessageT))
    (input : ℕ → Input) (ends : ℕ → Remote) where
  -- The loop from the `i`-th call of `fgets` on, with the connections that it then has; `none` where
  -- the fuel runs out.
  unfoldable pub main_loop : ℕ → ℕ → Sys × W → Session W
  main_loop zero i w = none
  main_loop (suc fuel) i w = elim (input i).g_client_shutdown [
    | true ↦ some (ret [], w)
    | false ↦ elim (input i).line [
      | none ↦ main_loop fuel (suc i) w
      | some text ↦ elim (is_quit (parse_line text)) [
        | true ↦ some (ret [], w)
        | false ↦
            let (out, w') = run_command strtof send (ends i).0 (ends i).1 (parse_line text) w in
            elim out [
              | crash ↦ some (crash, w')
              | ret said ↦ and_before said (main_loop fuel (suc i) w')
            ]
      ]
    ]
  ]

-- Before `zoo_init_client` there is neither a handle nor a connection.
abbrev pub nobody : Follower
nobody = record { zh = false; ends = (none, none) }

-- What `main` returns, and what was said.
abbrev pub Ended : Type 0 → Type 0
Ended W = Option (Run (ℤ × List Said) × (Sys × W))

module _ {W : Type 0} (strtof : CStr → ℕ) (send : RList → MessageT → State W (Option MessageT))
    (zk : ZooKeeper W) (connect : RList → State W (Option RList)) (close : ℤ → State W Bool)
    (is_busy : State W Bool) (input : ℕ → Input) (ends : Remote → ℕ → Remote)
    (final : Remote → Remote) where
  -- Behind the loop: both connections are closed, then the handle.
  unfoldable pub close_ends :
      Follower → Run (List Said) × (Sys × W) → Run (ℤ × List Said) × (Sys × W)
  close_ends f (crash, w) = (crash, w)
  close_ends f (ret said, w) =
      let last = final f.ends in
      let (_, w1) = disconnect_last zk.zoo_get connect close last.0 w in
      let (_, w2) = disconnect_last zk.zoo_get connect close last.1 w1 in
      let (_, w3) = zoo_clean_client zk connect close is_busy f w2 in (ret (pos 0, said), w3)

  -- From the arguments behind the program's name on; `ends` and `final` are what the watcher makes of
  -- the connections until each line and until the end, `sigaction` whether it succeeds.
  unfoldable pub client_main : Bool → List CStr → ℕ → Sys × W → Ended W
  client_main sigaction (hp ∷ []) fuel w = elim sigaction [
    | false ↦ some (ret (minus_one, []), w)
    | true ↦
        let ((code, f), w1) = zoo_init_client zk connect close is_busy (some hp) nobody w in
        elim (ltb_ℤ code (pos 0)) [
          | true ↦
              let (_, w2) = zoo_clean_client zk connect close is_busy f w1 in
              some (ret (exit_failure, []), w2)
          | false ↦ elim (main_loop strtof send input (ends f.ends) fuel 0 w1) [
            | none ↦ none
            | some out ↦ some (close_ends f out)
          ]
        ]
  ]
  client_main sigaction args fuel w = some (ret (minus_one, []), w)
