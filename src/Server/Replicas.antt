-- ===== src/Server/Replicas.antt =====
-- A chain of servers, each of which serves its requests as `client_thread` of
-- source/network_server.c does: the replicas stay equal.
pub mod Reads
use list_server.Base.{
  ◌≡◌, refl, sym, ap, ◌∙◌, subst, inl, inr, none, some, List, [], ◌∷◌, ◌++◌, arith, CStr, ℤ, first,
  drop_first, enum_of_int-pos,
}
use list_server.Sys.{Sys, NeverFails}
use list_server.Car.{DataT, ano_atual}
use list_server.Car.Laws.{IsValid, ano_atual_eq}
use list_server.CarList.Edit.{
  list_of, list_remove_by_model_lem, list_remove_by_model_quiet, same_model, list_of-append,
  list_of-drop_first,
}
use list_server.Skel.{dispatch, invoke}
use list_server.Skel.Replies.{invoke_add_valid, invoke_add_invalid, invoke_del_lem}
use list_server.Spec.{Request, Answer, Serves}
use list_server.Stub.{add_request, del_request}
use list_server.Stub.Requests.{request, IsAsked, reply_to}
use list_server.Stub.Remote.{Server}
use list_server.Server.{Reply, apply_local}

-- The requests that add or delete a car.
abbrev pub IsWrite : Request → Type 0
IsWrite (Request.add c) = Unit
IsWrite (Request.del m) = Unit
IsWrite _ = ⊥

-- The server holds the cars `cs`, in the year `year`, and its allocator gives.
abbrev pub Holds : ℤ → List DataT → Server → Type 0
Holds year cs (s, l) = (l ≡ some (list_of cs)) × NeverFails s × (ano_atual s ≡ year)

-- A write on one server, answered as the specification says.
abbrev pub Applied : ℤ → Request → Answer → List DataT → Reply × Sys → Type 0
Applied year q a ds r = (r.0.0 ≡ reply_to (request q) a) × Holds year ds (r.1, r.0.1)

apply_add :
    (s : Sys) (cs : List DataT) (c : DataT)
    → NeverFails s
    → IsAsked (Request.add c)
    → IsValid (ano_atual s) c
    → Applied
        (ano_atual s)
        (Request.add c)
        Answer.done
        (cs ++ c ∷ [])
        (apply_local (request (Request.add c)) (some (list_of cs)) s)
unfolding apply_local invoke dispatch add_request
apply_add s cs c ok (small, tiny) v =
    let msg = request (Request.add c) in
    let m = enum_of_int-pos c.marca small in
    let f = enum_of_int-pos c.combustivel tiny in
    let run = invoke_add_valid s msg c (list_of cs) v ok in
    (
      ground (arith, m, f, run),
      (
        ground (arith, m, f, run, list_of-append cs c),
        ground (arith, m, f, run),
        ano_atual_eq _ s (ground (arith, m, f, run)),
      ),
    )

reject_add :
    (s : Sys) (cs : List DataT) (c : DataT)
    → NeverFails s
    → IsAsked (Request.add c)
    → ¬ IsValid (ano_atual s) c
    → Applied
        (ano_atual s)
        (Request.add c)
        Answer.rejected
        cs
        (apply_local (request (Request.add c)) (some (list_of cs)) s)
unfolding apply_local invoke dispatch add_request
reject_add s cs c ok (small, tiny) bad =
    let msg = request (Request.add c) in
    let m = enum_of_int-pos c.marca small in
    let f = enum_of_int-pos c.combustivel tiny in
    let run = invoke_add_invalid s msg c (list_of cs) bad in
    (
      ground (arith, m, f, run),
      (
        ground (arith, m, f, run),
        ground (arith, m, f, run),
        ano_atual_eq _ s (ground (arith, m, f, run)),
      ),
    )

-- The state that `list_remove_by_model` leaves behind `invoke`: nothing of it but freed blocks.
apply_del_state :
    (s : Sys) (cs : List DataT) (m : CStr)
    → NeverFails s
    → let r = apply_local (request (Request.del m)) (some (list_of cs)) s in
      NeverFails r.1 × (ano_atual r.1 ≡ ano_atual s)
unfolding apply_local invoke dispatch del_request
apply_del_state s cs m ok =
    let run = invoke_del_lem s (del_request m) (list_of cs) m refl refl in
    let quiet = list_remove_by_model_quiet s (list_of cs) m in
    (ground (arith, run, quiet), ano_atual_eq _ s (ground (arith, run, quiet)))

apply_del :
    (s : Sys) (cs : List DataT) (m : CStr) (c : DataT)
    → first (same_model m) cs ≡ some c
    → let r = apply_local (request (Request.del m)) (some (list_of cs)) s in
      r.0 ≡ (
        reply_to (request (Request.del m)) Answer.removed,
        some (list_of (drop_first (same_model m) cs)),
      )
unfolding apply_local invoke dispatch del_request
apply_del s cs m c h =
    let run = invoke_del_lem s (del_request m) (list_of cs) m refl refl in
    elim (list_remove_by_model_lem s (list_of cs) m) [
      | inl (_, _, e, _) ↦ ground (arith, run, e, list_of-drop_first (same_model m) cs c h)
      | inr (bad, _) ↦ cc
    ]

miss_del :
    (s : Sys) (cs : List DataT) (m : CStr)
    → first (same_model m) cs ≡ none
    → let r = apply_local (request (Request.del m)) (some (list_of cs)) s in
      r.0 ≡ (reply_to (request (Request.del m)) Answer.missing, some (list_of cs))
unfolding apply_local invoke dispatch del_request
miss_del s cs m h =
    let run = invoke_del_lem s (del_request m) (list_of cs) m refl refl in
    elim (list_remove_by_model_lem s (list_of cs) m) [
      | inl (c, bad, _, _) ↦ cc
      | inr (_, e) ↦ ground (arith, run, e)
    ]

apply_write_held :
    (s : Sys) (cs ds : List DataT) (q : Request) (a : Answer)
    → NeverFails s
    → IsWrite q
    → IsAsked q
    → Serves (ano_atual s) cs q a ds
    → Applied (ano_atual s) q a ds (apply_local (request q) (some (list_of cs)) s)
apply_write_held s cs _ _ _ ok w h (Serves.add_valid c v) = apply_add s cs c ok h v
apply_write_held s cs _ _ _ ok w h (Serves.add_invalid c bad) = reject_add s cs c ok h bad
apply_write_held s cs _ _ _ ok w h (Serves.del_first m c e) =
    let r = apply_del s cs m c e in
    let (n, y) = apply_del_state s cs m ok in
    (ap (λ (x : Reply). x.0) r, (ap (λ (x : Reply). x.1) r, n, y))
apply_write_held s cs _ _ _ ok w h (Serves.del_none m e) =
    let r = miss_del s cs m e in
    let (n, y) = apply_del_state s cs m ok in
    (ap (λ (x : Reply). x.0) r, (ap (λ (x : Reply). x.1) r, n, y))
apply_write_held s cs _ _ _ ok w h (Serves.get_first marca c e) = absurd w
apply_write_held s cs _ _ _ ok w h (Serves.get_none marca e) = absurd w
apply_write_held s cs _ _ _ ok w h (Serves.of_year ano e) = absurd w
apply_write_held s cs _ _ _ ok w h Serves.sorted = absurd w
apply_write_held s cs _ _ _ ok w h Serves.size = absurd w
apply_write_held s cs _ _ _ ok w h Serves.models = absurd w

-- A write that the specification answers so is answered so by every server that holds the cars.
pub apply_write :
    (v : Server) (year : ℤ) (cs ds : List DataT) (q : Request) (a : Answer)
    → Holds year cs v
    → IsWrite q
    → IsAsked q
    → Serves year cs q a ds
    → Applied year q a ds (apply_local (request q) v.1 v.0)
apply_write (s, l) year cs ds q a (e, ok, y) w h sv =
    let sv' = subst (λ z. Serves z cs q a ds) (sym y) sv in
    let (r, (k, n, z)) = apply_write_held s cs ds q a ok w h sv' in rw e (r, (k, n, z ∙ y))
