-- ===== src/Server/Main/Ending.antt =====
-- How `main` of source/list_server.c ends, and whom network_server_close reaches.
use list_server.Base.{
  ◌+◌, ◌≡◌, refl, ◌⊎◌, inl, inr, Option, none, some, List, [], ◌∷◌, arith, CStr, ℤ, pos, ltb_ℤ,
  length, Bool-cases, Option-cases,
}
use list_server.Sys.{Sys}
use list_server.CLib.{atoi, exit_failure}
use list_server.CarList.{ListT}
use list_server.Skel.{list_skel_init}
use list_server.Stub.{Run, crash, ret}
use list_server.Server.Clients.{Client}
use list_server.Server.Clients.Count.{taken_slots}
use list_server.Server.Main.{close_clients, Parts, take_down, to_short, with_socket, main}

-- A crash in the chain's code, or EXIT_FAILURE.
abbrev Fails : Run ℤ → Type 0
Fails out = (out ≡ crash) ⊎ (out ≡ ret exit_failure)

module _ {W : Type 0} (parts : Parts W) where
  with_socket-Fails :
      (host : CStr) (port sock : ℤ) (list : Option ListT) (x : Sys × W)
      → Fails (with_socket parts host port sock list x).0
  unfolding with_socket take_down
  with_socket-Fails host port sock list x = go (parts.enter_chain host port list x).0.0 refl
    where
      go :
          (o : Run ℤ)
          → (parts.enter_chain host port list x).0.0 ≡ o
          → Fails (with_socket parts host port sock list x).0
      go crash e = inl (ground (arith, e))
      go (ret code) e = inr (ground (arith, e))

  -- Whatever its arguments are and its parts do, the server's exit status is EXIT_FAILURE, also where
  -- it started, served its clients and was stopped as it should be; unless it crashes as it joins.
  main-Fails : (argv : List CStr) (x : Sys × W) → Fails (main parts argv x).0
  unfolding main
  main-Fails [] x = inr refl
  main-Fails (a ∷ []) x = inr refl
  main-Fails (a ∷ b ∷ []) x = inr refl
  main-Fails (name ∷ host ∷ port_text ∷ more) x =
      let port = atoi port_text in
      let made = list_skel_init x.0 in
      let opened = parts.open_server (to_short port) (made.1, x.1) in
      elim (Bool-cases (ltb_ℤ (pos 0) port)) [
        | inr bad ↦ inr (ground (arith, bad))
        | inl good ↦ elim (Option-cases made.0) [
          | inl nothing ↦ inr (ground (arith, good, nothing))
          | inr (l, got) ↦ elim (Bool-cases (ltb_ℤ opened.0 (pos 0))) [
            | inl shut ↦ inr (ground (arith, good, got, shut))
            | inr up ↦
                let rest = with_socket-Fails host port opened.0 (some l) opened.1 in
                ground (arith, good, got, up, rest)
          ]
        ]
      ]

-- As many threads are waited for as clients have slots.
joins_count :
    (list : List (Option Client))
    → length (close_clients list) ≡ taken_slots list + taken_slots list
unfolding close_clients taken_slots
joins_count [] = refl
joins_count (none ∷ rest) = joins_count rest
joins_count (some c ∷ rest) = omega (arith, joins_count rest)
