-- ===== src/Stub/Replied.antt =====
-- The calls of source/client_stub.c whose request has a reply, over any connection: what they send,
-- and that they come to what their `read_` function makes of the reply.
use list_server.Base.{
  ℕ, ◌≡◌, ◌≤◌, Option, some, none, List, arith, CStr, ℤ, pos, minus_one, map, length, if◌then◌else◌,
  ◌==◌, [], All, refl,
}
use list_server.Sys.{Sys, State, NeverFails, malloc, malloc-NeverFails}
use list_server.Car.{DataT, ano_atual, marca_mercedes}
use list_server.Car.Laws.{IsValid}
use list_server.Message.{MessageT}
use list_server.Skel.{error_reply}
use list_server.Skel.Replies.{list_reply}
use list_server.Spec.{Request, Answer}
use list_server.Stub.{
  ret, RList, get_request, year_request, size_request, models_request, del_request, op_success,
  read_add, read_del, read_get, read_year, read_order, read_size, read_models,
}
use list_server.Stub.Calls.{
  rlist_add, rlist_remove_by_model, rlist_get_by_marca, rlist_get_by_year, rlist_order_by_year,
  rlist_size, rlist_get_model_list,
}
use list_server.Stub.Requests.{request, reply_to}
use list_server.Stub.Received.{
  marca_round_trip, combustivel_round_trip, read_year_listed, copy_loop_lem,
}

-- The reply that the link gives to the request, and what is behind the link afterwards.
module _ {W : Type 0} (send : RList → MessageT → State W (Option MessageT)) (r : RList) (s : Sys)
    (w x : W) (resp : MessageT) where
  abbrev pub Replies : MessageT → Type 0
  Replies msg = send r msg w ≡ (some resp, x)

  pub rlist_size_replied :
      Replies size_request → rlist_size send (some r) (s, w) ≡ (read_size (some resp), (s, x))
  unfolding rlist_size
  rlist_size_replied e = ground (arith, e)

  pub rlist_remove_by_model_replied :
      (m : CStr)
      → NeverFails s
      → Replies (del_request m)
      → let out = rlist_remove_by_model send (some r) (some m) (s, w) in
        (out.0 ≡ read_del (some resp)) × (out.1.1 ≡ x)
  unfolding rlist_remove_by_model
  rlist_remove_by_model_replied m up e = ground (arith, malloc-NeverFails s up, e)

  pub rlist_add_replied :
      (c : DataT) {year : ℤ}
      → NeverFails s
      → IsValid year c
      → Replies (request (Request.add c))
      → let out = rlist_add send (some r) (some c) (s, w) in
        (out.0 ≡ read_add (some resp)) × (out.1.1 ≡ x)
  unfolding rlist_add read_add
  rlist_add_replied c up v e =
      rw (marca_round_trip c.marca v.brand, combustivel_round_trip c.combustivel v.fuel, rlist_add)
        (ground (arith, malloc-NeverFails s up, e))

  pub rlist_get_by_marca_replied :
      (marca : ℕ)
      → marca ≤ marca_mercedes
      → Replies (get_request (pos marca))
      → let got = read_get (some resp) s in
        rlist_get_by_marca send (some r) marca (s, w) ≡ (got.0, (got.1, x))
  unfolding rlist_get_by_marca
  rlist_get_by_marca_replied marca small e =
      rw (marca_round_trip marca small, rlist_get_by_marca) (ground (arith, e))

  pub rlist_get_by_year_replied :
      (ano : ℤ)
      → Replies (year_request ano)
      → let got = read_year (some resp) s in
        rlist_get_by_year send (some r) ano (s, w) ≡ (got.0, (got.1, x))
  unfolding rlist_get_by_year
  rlist_get_by_year_replied ano e = ground (arith, e)

  pub rlist_order_by_year_replied :
      Replies (year_request minus_one)
      → let got = read_order (some resp) s in
        rlist_order_by_year send (some r) (s, w) ≡ (got.0, (got.1, x))
  unfolding rlist_order_by_year
  rlist_order_by_year_replied e = ground (arith, e)

  pub rlist_get_model_list_replied :
      Replies models_request
      → let got = read_models (some resp) s in
        rlist_get_model_list send (some r) (s, w) ≡ (got.0, (got.1, x))
  unfolding rlist_get_model_list
  rlist_get_model_list_replied e = ground (arith, e)

-- What the answers are read as.
pub read_size_counted :
    (n : ℕ) → read_size (some (reply_to size_request (Answer.counted n))) ≡ pos n
unfolding read_size op_success size_request
read_size_counted n = refl

pub read_get_nothing :
    (marca : ℤ) (s : Sys) → read_get (some (error_reply (get_request marca))) s ≡ (ret none, s)
unfolding read_get op_success
read_get_nothing marca s = refl

pub read_order_listed :
    (s : Sys) (cs : List DataT)
    → NeverFails s
    → All (IsValid (ano_atual s)) cs
    → (read_order (some (list_reply (year_request minus_one) cs)) s).0
      ≡ ret (if length cs == 0 then (minus_one, []) else (pos 0, cs))
unfolding read_order year_request
read_order_listed s cs up v =
    ground (arith, read_year_listed s (year_request minus_one) cs up v refl)

pub read_models_named :
    (s : Sys) (ms : List CStr)
    → NeverFails s
    → (read_models (some (reply_to models_request (Answer.named ms))) s).0
      ≡ ret (some (map some ms))
unfolding read_models op_success models_request
read_models_named s ms up =
    let given = malloc-NeverFails s up in
    ground (arith, given, copy_loop_lem (malloc s).1 ms given.1)
