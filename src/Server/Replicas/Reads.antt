-- ===== src/Server/Replicas/Reads.antt =====
-- A request of the stub on one server, as `invoke` of source/list_skel.c answers it behind
-- `client_thread` of source/network_server.c: also one that only reads leaves the server ready for
-- the next.
use list_server.Base.{
  ◌<◌, ◌^◌, ◌≡◌, ◌≢◌, ◌∙◌, refl, sym, subst, none, some, List, arith, ℤ, pos, minus_one, first,
  keep, ℕ, length, length-map, enum_of_int, enum_of_int-pos,
}
use list_server.Sys.{Sys, NeverFails}
use list_server.Car.{DataT, ano_atual}
use list_server.Car.Laws.{ano_atual_eq}
use list_server.CarList.Edit.{list_of}
use list_server.CarList.Query.{same_marca, same_ano, models_of}
use list_server.CarList.Sorted.{stable_sort, length-stable_sort}
use list_server.Skel.{dispatch, invoke}
use list_server.Skel.Replies.{
  invoke_get_found, invoke_get_nothing, invoke_year_one, invoke_year_all, invoke_year_all_state,
  invoke_models_valid, invoke_size_lem,
}
use list_server.Skel.Steady.{invoke_get_found-Steady, invoke_year_one-Steady, invoke_models-Steady}
use list_server.Spec.{Request, Answer, Serves}
use list_server.Stub.{get_request, year_request, size_request, models_request}
use list_server.Stub.Requests.{request, IsAsked}
use list_server.Stub.Remote.{Server}
use list_server.Server.{apply_local}
use list_server.Server.Replicas.{Applied, Holds, apply_write}

-- What a request does on a server that holds `cs`, in the year of its clock.
abbrev Does : Sys → List DataT → Request → Answer → List DataT → Type 0
Does s cs q a ds = Applied (ano_atual s) q a ds (apply_local (request q) (some (list_of cs)) s)

module _ (s : Sys) (cs : List DataT) (ok : NeverFails s) where
  found_held :
      (marca : ℕ) (c : DataT)
      → marca < 2 ^ 31
      → first (same_marca marca) cs ≡ some c
      → Does s cs (Request.get marca) (Answer.found c) cs
  unfolding apply_local invoke dispatch get_request
  found_held marca c small h =
      let msg = get_request (pos marca) in
      let m : enum_of_int (pos marca) ≡ marca = enum_of_int-pos marca (omega arith) in
      let run = invoke_get_found s msg (list_of cs) c ok refl (rw m h) in
      let after = invoke_get_found-Steady s msg (list_of cs) c ok refl (rw m h) in
      (
        ground (arith, run),
        (ground (arith, run), ground (arith, after), ano_atual_eq _ s (ground (arith, after))),
      )

  nothing_held :
      (marca : ℕ)
      → marca < 2 ^ 31
      → first (same_marca marca) cs ≡ none
      → Does s cs (Request.get marca) Answer.nothing cs
  unfolding apply_local invoke dispatch get_request
  nothing_held marca small h =
      let msg = get_request (pos marca) in
      let m : enum_of_int (pos marca) ≡ marca = enum_of_int-pos marca (omega arith) in
      let run = invoke_get_nothing s msg (list_of cs) refl (rw m h) in
      (
        ground (arith, run),
        (ground (arith, run), ground (arith, run), ano_atual_eq _ s (ground (arith, run))),
      )

  sorted_held : Does s cs Request.in_order (Answer.listed (stable_sort cs)) (stable_sort cs)
  unfolding apply_local invoke dispatch year_request
  sorted_held =
      let msg = year_request minus_one in
      let run = invoke_year_all s msg (list_of cs) ok refl in
      let after = invoke_year_all_state s msg (list_of cs) ok refl in
      (
        ground (arith, run),
        (
          ground (arith, run, length-stable_sort cs),
          ground (arith, after),
          ano_atual_eq _ s (ground (arith, after)),
        ),
      )

  models_held : Does s cs Request.names (Answer.named (models_of cs)) cs
  unfolding apply_local invoke dispatch models_request
  models_held =
      let run = invoke_models_valid s models_request cs ok in
      let after = invoke_models-Steady s models_request cs ok in
      (
        ground (arith, run, length-map cs (λ (c : DataT). c.modelo)),
        (ground (arith, run), ground (arith, after), ano_atual_eq _ s (ground (arith, after))),
      )

  size_held : Does s cs Request.count (Answer.counted (length cs)) cs
  unfolding apply_local invoke dispatch size_request
  size_held =
      let run = invoke_size_lem s size_request cs in
      (
        ground (arith, run),
        (ground (arith, run), ground (arith, run), ano_atual_eq _ s (ground (arith, run))),
      )

  year_held :
      (ano : ℤ)
      → ano ≢ minus_one
      → Does s cs (Request.in_year ano) (Answer.listed (keep (same_ano ano) cs)) cs
  unfolding apply_local invoke dispatch year_request
  year_held ano h =
      let msg = year_request ano in
      let run = invoke_year_one s msg (list_of cs) ok h in
      let after = invoke_year_one-Steady s msg (list_of cs) ok h in
      (
        ground (arith, run),
        (ground (arith, run), ground (arith, after), ano_atual_eq _ s (ground (arith, after))),
      )

  asked_held :
      (q : Request) (a : Answer) (ds : List DataT)
      → IsAsked q
      → Serves (ano_atual s) cs q a ds
      → Does s cs q a ds
  asked_held _ _ _ h (Serves.add_valid c v) =
      apply_write (s, some (list_of cs)) (ano_atual s) cs _ (Request.add c) _ (refl, ok, refl) tt h
        (Serves.add_valid c v)
  asked_held _ _ _ h (Serves.add_invalid c bad) =
      apply_write (s, some (list_of cs)) (ano_atual s) cs _ (Request.add c) _ (refl, ok, refl) tt h
        (Serves.add_invalid c bad)
  asked_held _ _ _ h (Serves.del_first m c e) =
      apply_write (s, some (list_of cs)) (ano_atual s) cs _ (Request.del m) _ (refl, ok, refl) tt h
        (Serves.del_first m c e)
  asked_held _ _ _ h (Serves.del_none m e) =
      apply_write (s, some (list_of cs)) (ano_atual s) cs _ (Request.del m) _ (refl, ok, refl) tt h
        (Serves.del_none m e)
  asked_held _ _ _ h (Serves.get_first marca c e) = found_held marca c h e
  asked_held _ _ _ h (Serves.get_none marca e) = nothing_held marca h e
  asked_held _ _ _ h (Serves.of_year ano e) = year_held ano e
  asked_held _ _ _ h Serves.sorted = sorted_held
  asked_held _ _ _ h Serves.size = size_held
  asked_held _ _ _ h Serves.models = models_held

-- A request that the specification answers so is answered so by every server that holds the cars.
pub apply_asked :
    (v : Server) (year : ℤ) (cs ds : List DataT) (q : Request) (a : Answer)
    → Holds year cs v
    → IsAsked q
    → Serves year cs q a ds
    → Applied year q a ds (apply_local (request q) v.1 v.0)
apply_asked (s, l) year cs ds q a (e, ok, y) h sv =
    let sv' = subst (λ z. Serves z cs q a ds) (sym y) sv in
    let (r, (k, n, z)) = asked_held s cs ok q a ds h sv' in rw e (r, (k, n, z ∙ y))
