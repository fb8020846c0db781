-- ===== src/Server/Joining/Orders.antt =====
-- Which orders of copying, noticing and writing leave a server that joins the chain of
-- source/chain_server.c with the same cars as its predecessor.
use list_server.Base.{
  ◌≡◌, refl, sym, subst, Bool, true, none, some, List, [], ◌∷◌, ◌++◌, map, ℤ, All,
}
use mathlib.Core.List.{append-nil, append_assoc}
use list_server.Sys.{State}
use list_server.Car.{DataT}
use list_server.Car.Laws.{IsValid}
use list_server.CarList.Sorted.{stable_sort}
use list_server.Spec.{Request, Answer, Serves}
use list_server.Stub.{RList}
use list_server.Stub.Requests.{request, IsAsked}
use list_server.Stub.Remote.{Server}
use list_server.Server.Replicas.{IsWrite}
use list_server.Server.Chain.{answered}
use list_server.Server.Joining.{
  Neighbours, arrive, copy, notice, Event, arrives, copies, notices, run,
}
use list_server.Server.Joining.Steps.{Hold, arrive_alone, arrive_linked, copy-Hold}

abbrev pub IsSent : Request → Type 0
IsSent q = IsWrite q × IsAsked q

abbrev pub writes : List Request → List Event
writes = map λ q. arrives (request q)

abbrev pub adds : List DataT → List Request
adds = map λ c. Request.add c

abbrev pub IsAdded : DataT → Type 0
IsAdded c = IsAsked (Request.add c)

module _ (close : ℤ → State Server Bool) (r : RList) where
  run-append :
      (es fs : List Event) (j : Neighbours)
      → run close r (es ++ fs) j ≡ run close r fs (run close r es j)
  unfolding run
  run-append [] fs j = refl
  run-append (arrives msg ∷ es) fs j = run-append es fs (arrive msg j)
  run-append (copies ∷ es) fs j = run-append es fs (copy close r j)
  run-append (notices ∷ es) fs j = run-append es fs (notice r j)

  run_alone :
      (year : ℤ) (cs : List DataT) (qs : List Request) (j : Neighbours)
      → Hold year cs [] j
      → j.rl_next_server ≡ none
      → All IsSent qs
      → (cs' : List DataT) × Hold year cs' [] (run close r (writes qs) j)
        × ((run close r (writes qs) j).rl_next_server ≡ none)
  unfolding run arrive
  run_alone year cs [] j h alone sent = (cs, h, alone)
  run_alone year cs (q ∷ qs) j h alone ((w, asked), rest) =
      let (a, cs', sv) = answered year cs q w in
      run_alone year cs' qs (arrive (request q) j)
        (arrive_alone year cs cs' [] q a j h alone w asked sv) alone rest

  run_linked :
      (year : ℤ) (cs : List DataT) (qs : List Request) (j : Neighbours)
      → Hold year cs cs j
      → j.rl_next_server ≡ some r
      → All IsSent qs
      → (ds : List DataT) × Hold year ds ds (run close r (writes qs) j)
  unfolding run arrive
  run_linked year cs [] j h next sent = (cs, h)
  run_linked year cs (q ∷ qs) j h next ((w, asked), rest) =
      let (a, cs', sv) = answered year cs q w in
      run_linked year cs' qs (arrive (request q) j)
        (arrive_linked year cs cs' cs cs' q a a r j h next w asked sv sv) next rest

  -- Cars that are added go to the end of both lists.
  run-adds :
      (year : ℤ) (cs ds more : List DataT) (j : Neighbours)
      → Hold year cs ds j
      → j.rl_next_server ≡ some r
      → All IsAdded more
      → All (IsValid year) more
      → Hold year (cs ++ more) (ds ++ more) (run close r (writes (adds more)) j)
  unfolding run arrive
  run-adds year cs ds [] j h next asked v = rw (append-nil cs, append-nil ds) h
  run-adds year cs ds (c ∷ more) j h next asked v =
      let q = Request.add c in
      let step =
        arrive_linked year cs (cs ++ c ∷ []) ds (ds ++ c ∷ []) q Answer.done Answer.done r j h next
          tt asked.0 (Serves.add_valid c v.0) (Serves.add_valid c v.0) in
      let rest =
        run-adds year (cs ++ c ∷ []) (ds ++ c ∷ []) more (arrive (request q) j) step next asked.1
          v.1 in
      rw (← append_assoc cs (c ∷ []) more, ← append_assoc ds (c ∷ []) more) rest

module _ (close : ℤ → State Server Bool) (r : RList)
    (shut : (w : Server) → close r.sockfd w ≡ (true, w)) where
  -- A server that joins with an empty list ends with the same cars as its predecessor, whatever
  -- writes came before and come after, if none comes between the copying and the moment the
  -- predecessor notices it. Before it the predecessor is the tail and holds valid cars; no allocation
  -- fails, the clocks show the same year, the connection is closed without an error, and the enums
  -- of a car to add fit 32 bits.
  pub joins_equal :
      (year : ℤ) (cs : List DataT) (before after : List Request) (j : Neighbours)
      → Hold year cs [] j
      → j.rl_next_server ≡ none
      → All IsSent before
      → All IsSent after
      → (ds : List DataT) × Hold year ds ds
          (run close r (writes before ++ copies ∷ notices ∷ writes after) j)
  unfolding run copy
  joins_equal year cs before after j h alone sent sent' =
      let (cs', held, still) = run_alone close r year cs before j h alone sent in
      let k = run close r (writes before) j in
      let both = copy-Hold close r shut year cs' [] k held in
      subst (λ (k' : Neighbours). (ds : List DataT) × Hold year ds ds k')
        (sym (run-append close r (writes before) (copies ∷ notices ∷ writes after) j))
        (run_linked close r year (stable_sort cs') after (notice r (copy close r k))
          (record { old = both.old; new = both.new; old_valid = both.old_valid }) refl sent')

  -- One added car in between is lost: it reaches the predecessor only, and the two hold different
  -- cars from then on, whatever is added to both. Before it the predecessor is the tail and holds
  -- valid cars, as the newcomer holds none; no allocation fails, the clocks show the same year, the
  -- connection is closed without an error, and the cars that are added are valid and their enums fit
  -- 32 bits.
  pub misses_add :
      (year : ℤ) (cs : List DataT) (c : DataT) (more : List DataT) (j : Neighbours)
      → Hold year cs [] j
      → j.rl_next_server ≡ none
      → All IsAdded (c ∷ more)
      → All (IsValid year) (c ∷ more)
      → Hold year (stable_sort cs ++ c ∷ more) (stable_sort cs ++ more) (
          run close r (copies ∷ arrives (request (Request.add c)) ∷ notices ∷ writes (adds more)) j)
  unfolding run copy arrive
  misses_add year cs c more j h alone asked v =
      let q = Request.add c in
      let copied = copy-Hold close r shut year cs [] j h in
      let missed =
        arrive_alone year (stable_sort cs) (stable_sort cs ++ c ∷ []) (stable_sort cs) q Answer.done
          (copy close r j) copied alone tt asked.0 (Serves.add_valid c v.0) in
      let noticed = notice r (arrive (request q) (copy close r j)) in
      let held : Hold year (stable_sort cs ++ c ∷ []) (stable_sort cs) noticed = record {
        old = missed.old;
        new = missed.new;
        old_valid = missed.old_valid;
      } in
      subst
        (λ (l : List DataT).
          Hold year l (stable_sort cs ++ more) (run close r (writes (adds more)) noticed))
        (append_assoc (stable_sort cs) (c ∷ []) more)
        (run-adds close r year (stable_sort cs ++ c ∷ []) (stable_sort cs) more noticed held refl
          asked.1 v.1)
