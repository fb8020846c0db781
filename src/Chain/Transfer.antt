-- ===== src/Chain/Transfer.antt =====
-- How a server of source/chain_server.c gets the list of its predecessor when it joins.
use list_server.Base.{
  suc, ◌+◌, ◌*◌, ◌≡◌, refl, sym, ap, ◌∙◌, subst, Bool, true, Option, some, List, [], ◌∷◌, ◌++◌,
  arith, CStr, ℤ, pos, minus_one, length, All,
}
use mathlib.Core.List.{append-nil, append_assoc}
use list_server.Sys.{Sys, State, NeverFails}
use list_server.Car.{DataT, ano_atual, data_create}
use list_server.Car.Laws.{IsValid, data_create_valid, ano_atual_eq}
use list_server.CarList.{list_add}
use list_server.CarList.Edit.{list_of, list_add_valid, list_of-append}
use list_server.CarList.Sorted.{stable_sort, length-stable_sort, All-stable_sort}
use list_server.Message.{MessageT}
use list_server.Skel.{dispatch, invoke}
use list_server.Skel.Replies.{list_reply, invoke_year_all}
use list_server.Skel.Conversion.{to_pbs}
use list_server.Stub.{ret, RList, year_request, create_received, op_success}
use list_server.Stub.Calls.{rlist_disconnect}
use list_server.Stub.Remote.{Server, direct}
use list_server.Chain.{
  own_number, predecessor, connect_to, add_loop, read_list, rlist_get_list_add, copy_from,
  init_list,
}

-- Each car is made and copied into the list: five blocks, of which the list holds three.
add_loop_step :
    (s : Sys) (c : DataT) (cs ds : List DataT)
    → NeverFails s
    → IsValid (ano_atual s) c
    → (t : Sys) × (add_loop (suc (length cs)) (to_pbs (c ∷ cs)) (some (list_of ds)) s
        ≡ add_loop (length cs) (to_pbs cs) (some (list_of (ds ++ c ∷ []))) t)
      × NeverFails t
      × (t.live ≡ s.live + 5)
      × (t.tm_year ≡ s.tm_year)
unfolding add_loop create_received
add_loop_step s c cs ds ok v =
    let one = data_create_valid s c v ok in
    let m = (data_create c.ano c.preco c.marca (some c.modelo) c.combustivel s).1 in
    let v' : IsValid (ano_atual m) c = subst (λ y. IsValid y c) (sym (ano_atual_eq m s one.3)) v in
    let two = list_add_valid m (list_of ds) c v' one.1 in
    let t = (list_add (some (list_of ds)) (some c) m).1 in
    (
      t,
      ground (arith, one, two, list_of-append ds c),
      two.1,
      omega (arith, one, two),
      two.3 ∙ one.3,
    )

add_loop_lem :
    (s : Sys) (cs ds : List DataT)
    → NeverFails s
    → All (IsValid (ano_atual s)) cs
    → let r = add_loop (length cs) (to_pbs cs) (some (list_of ds)) s in
      (r.0 ≡ (ret (pos 0), some (list_of (ds ++ cs))))
      × NeverFails r.1
      × (r.1.live ≡ s.live + 5 * length cs)
      × (r.1.tm_year ≡ s.tm_year)
add_loop_lem s [] ds ok v =
    unfold add_loop in
    (
      ap (λ (t : List DataT). (ret (pos 0), some (list_of t))) (sym (append-nil ds)),
      ok,
      omega arith,
      refl,
    )
add_loop_lem s (c ∷ cs) ds ok v =
    let (t, e, up, n, y) = add_loop_step s c cs ds ok v.0 in
    let v' = subst (λ z. All (IsValid z) cs) (sym (ano_atual_eq t s y)) v.1 in
    let rest = add_loop_lem t cs (ds ++ c ∷ []) up v' in
    rw (e, ← append_assoc ds (c ∷ []) cs) (rest.0, rest.1, omega (arith, rest, n), rest.3 ∙ y)

-- The reply that lists valid cars: all are appended.
pub read_list_listed :
    (s : Sys) (msg : MessageT) (cs ds : List DataT)
    → NeverFails s
    → All (IsValid (ano_atual s)) cs
    → msg ≡ year_request minus_one
    → let r = read_list (some (list_reply msg cs)) (some (list_of ds)) s in
      (r.0 ≡ (ret (pos 0), some (list_of (ds ++ cs))))
      × NeverFails r.1
      × (r.1.live ≡ s.live + 5 * length cs)
      × (r.1.tm_year ≡ s.tm_year)
unfolding read_list op_success year_request
read_list_listed s msg [] ds ok v h = ground (arith, append-nil ds)
read_list_listed s msg (c ∷ cs) ds ok v h = ground (arith, add_loop_lem s (c ∷ cs) ds ok v)

module _ (r : RList) (s t : Sys) (cs ds : List DataT) (up : NeverFails s) (ok : NeverFails t)
    (v : All (IsValid (ano_atual s)) cs) where
  -- `rlist_get_list_add` appends the stable sort of the predecessor's cars to the list and returns
  -- 0. The predecessor's own list is sorted by it. Each car costs five blocks, though the list
  -- holds only three for it: two are lost. No allocation fails and the cars are valid here.
  pub rlist_get_list_add_remote :
      let out =
        rlist_get_list_add direct (some r) (some (list_of ds)) (s, (t, some (list_of cs))) in
      (out.0 ≡ (ret (pos 0), some (list_of (ds ++ stable_sort cs))))
      × (out.1.1.1 ≡ some (list_of (stable_sort cs)))
      × (out.1.0.live ≡ s.live + 5 * length cs)
  unfolding rlist_get_list_add invoke dispatch year_request
  rlist_get_list_add_remote =
      let msg = year_request minus_one in
      let n = length-stable_sort cs in
      let run = invoke_year_all t msg (list_of cs) ok refl in
      let got = read_list_listed s msg (stable_sort cs) ds up (All-stable_sort _ cs v) refl in
      (ground (arith, run, got), ground (arith, run), ground (arith, run, got, n))

module _ (r : RList) (s t : Sys) (cs : List DataT) (up : NeverFails s) (ok : NeverFails t)
    (v : All (IsValid (ano_atual s)) cs) (close : ℤ → State Server Bool)
    (shut : (w : Server) → close r.sockfd w ≡ (true, w)) where
  disconnect_lem :
      (x : Sys × Server)
      → let out = rlist_disconnect close (some r) x in (out.0 ≡ pos 0) × (out.1.1 ≡ x.1)
  unfolding rlist_disconnect
  disconnect_lem (x, w) =
      let e = ap (λ (q : Bool × Server). q.0) (shut w) in
      let f = ap (λ (q : Bool × Server). q.1) (shut w) in ground (arith, e, f)

  copy_from_lem :
      let out = copy_from close direct (some r) (some (list_of [])) (s, (t, some (list_of cs))) in
      (out.0 ≡ (ret (pos 1), some (list_of (stable_sort cs))))
      × (out.1.1.1 ≡ some (list_of (stable_sort cs)))
  unfolding copy_from
  copy_from_lem =
      let out =
        rlist_get_list_add direct (some r) (some (list_of [])) (s, (t, some (list_of cs))) in
      let got = rlist_get_list_add_remote r s t cs [] up ok v in
      ground (arith, got, disconnect_lem out.1)

  -- A server with an empty list that joins the chain behind another ends, by `init_list`, with the
  -- same list as its predecessor: the stable sort of the predecessor's cars, which is then the
  -- predecessor's list too. The predecessor is found among two names or more, the connection to it
  -- is made and closed, no allocation fails behind it and the cars are valid here.
  pub init_list_copies :
      (get : CStr → State Server (Option CStr)) (connect : RList → State Server (Option RList))
      (junk : ℤ) (node_path c d name : CStr) (names : List CStr) (w : Sys × Server)
      → predecessor (own_number junk node_path) (c ∷ d ∷ names) ≡ some name
      → connect_to get connect close name w ≡ (some r, (s, (t, some (list_of cs))))
      → let out =
          init_list get connect close direct junk node_path (c ∷ d ∷ names) (some (list_of [])) w in
        (out.0 ≡ (ret (pos 1), some (list_of (stable_sort cs))))
        × (out.1.1.1 ≡ some (list_of (stable_sort cs)))
  unfolding init_list
  init_list_copies get connect junk node_path c d name names w p e =
      ground (arith, p, e, copy_from_lem)
