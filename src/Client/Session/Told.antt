-- ===== src/Client/Session/Told.antt =====
-- What source/list_client.c prints for a command whose request has a reply.
use list_server.Base.{
  ℕ, ◌≡◌, ◌≤◌, refl, Bool, inl, inr, Bool-cases, first, keep, subst, Option, some, List, [], ◌∷◌,
  arith, CStr, ℤ, pos, minus_one, All, enum_of_int, enum_of_int-pos,
}
use list_server.Sys.{Sys, State, NeverFails}
use list_server.Car.{DataT, ano_atual, marca_mercedes}
use list_server.Car.Laws.{IsValid}
use list_server.CarList.Sorted.{All-stable_sort}
use list_server.Message.{MessageT}
use list_server.Skel.Replies.{list_reply}
use list_server.Spec.{Request, Answer, Serves}
use list_server.Stub.{ret, RList, get_request, year_request}
use list_server.Stub.Requests.{request, reply_to}
use list_server.Stub.Received.{read_get_found, read_year_listed}
use list_server.Stub.Replied.{
  rlist_size_replied, rlist_get_by_marca_replied, rlist_get_by_year_replied,
  rlist_order_by_year_replied, rlist_get_model_list_replied, read_size_counted, read_get_nothing,
  read_order_listed, read_models_named,
}
use list_server.Client.{Command}
use list_server.Client.Session.{say_car, say_cars, say_ordered, say_models, run_command}
use list_server.Client.Session.Makes.{
  Makes, at_end, makes_size, makes_models, makes_ordered, makes_all, makes_year, makes_get,
  makes_del, makes_add, told,
}
use list_server.Client.Session.Written.{del-Writes, add-Writes, small}

All-first :
    (P : DataT → Type 0) (p : DataT → Bool) (cs : List DataT) (c : DataT)
    → All P cs
    → first p cs ≡ some c
    → P c
unfolding first
All-first P p [] c h e = absurd (cc)
All-first P p (x ∷ xs) c (h, hs) e = elim (Bool-cases (p x)) [
  | inl yes_it ↦ subst P (ground (arith, e, yes_it)) h
  | inr other ↦ All-first P p xs c hs (ground (arith, e, other))
]

All-keep : (P : DataT → Type 0) (p : DataT → Bool) (cs : List DataT) → All P cs → All P (keep p cs)
unfolding keep
All-keep P p [] h = tt
All-keep P p (x ∷ xs) (h, hs) = elim (Bool-cases (p x)) [
  | inl yes_it ↦ rw yes_it (h, All-keep P p xs hs)
  | inr other ↦ rw other (All-keep P p xs hs)
]

module _ {W : Type 0} (strtof : CStr → ℕ) (send : RList → MessageT → State W (Option MessageT))
    (rlh : Option RList) (rt : RList) (s : Sys) (w x : W) (up : NeverFails s) where
  -- A command prints this and leaves the world `x`.
  abbrev Tells : Command → Answer → Type 0
  Tells command a =
      let out = run_command strtof send rlh (some rt) command (s, w) in
      (out.0 ≡ ret (told command a)) × (out.1.1 ≡ x)

  abbrev Got : Request → Answer → Type 0
  Got q a = send rt (request q) w ≡ (some (reply_to (request q) a), x)

  listed-Tells :
      (ano : ℤ) (found : List DataT)
      → send rt (year_request ano) w ≡ (some (list_reply (year_request ano) found), x)
      → All (IsValid (ano_atual s)) found
      → Tells (Command.by_year ano) (Answer.listed found)
  unfolding run_command say_cars year_request
  listed-Tells ano [] e v =
      let run = rlist_get_by_year_replied send rt s w x _ ano e in
      let got = read_year_listed s (year_request ano) [] up v refl in ground (arith, run, got)
  listed-Tells ano (c ∷ found) e v =
      let run = rlist_get_by_year_replied send rt s w x _ ano e in
      let got = read_year_listed s (year_request ano) (c ∷ found) up v refl in
      ground (arith, run, got)

  ordered-Tells :
      (found : List DataT)
      → send rt (year_request minus_one) w ≡ (some (list_reply (year_request minus_one) found), x)
      → All (IsValid (ano_atual s)) found
      → Tells Command.ordered (Answer.listed found)
  unfolding run_command say_ordered
  ordered-Tells [] e v =
      let run = rlist_order_by_year_replied send rt s w x _ e in
      ground (arith, run, read_order_listed s [] up v)
  ordered-Tells (c ∷ found) e v =
      let run = rlist_order_by_year_replied send rt s w x _ e in
      ground (arith, run, read_order_listed s (c ∷ found) up v)

  found-Tells :
      (marca : ℕ) (c : DataT)
      → marca ≤ marca_mercedes
      → Got (Request.get marca) (Answer.found c)
      → IsValid (ano_atual s) c
      → Tells (Command.by_marca (pos marca)) (Answer.found c)
  unfolding run_command say_car get_request
  found-Tells marca c small e v =
      let m : enum_of_int (pos marca) ≡ marca = enum_of_int-pos marca (omega arith) in
      let run = rlist_get_by_marca_replied send rt s w x _ marca small e in
      let got =
        read_get_found s (reply_to (request (Request.get marca)) (Answer.found c)) c up v refl refl
          refl in
      rw m (ground (arith, run, got))

  nothing-Tells :
      (marca : ℕ)
      → marca ≤ marca_mercedes
      → Got (Request.get marca) Answer.nothing
      → Tells (Command.by_marca (pos marca)) Answer.nothing
  unfolding run_command say_car
  nothing-Tells marca small e =
      let m : enum_of_int (pos marca) ≡ marca = enum_of_int-pos marca (omega arith) in
      let run = rlist_get_by_marca_replied send rt s w x _ marca small e in
      rw m (ground (arith, run, read_get_nothing (pos marca) s))

  size-Tells :
      (n : ℕ) → Got Request.count (Answer.counted n) → Tells Command.size (Answer.counted n)
  unfolding run_command
  size-Tells n e = ground (arith, rlist_size_replied send rt s w x _ e, read_size_counted n)

  models-Tells :
      (ms : List CStr)
      → Got Request.names (Answer.named ms)
      → Tells Command.model_list (Answer.named ms)
  unfolding run_command say_models
  models-Tells ms e =
      let run = rlist_get_model_list_replied send rt s w x _ e in
      ground (arith, run, read_models_named s ms up)

module _ {W : Type 0} (strtof : CStr → ℕ) (send : RList → MessageT → State W (Option MessageT))
    (rh rt : RList) (s : Sys) (w x : W) (up : NeverFails s) where
  -- What the client prints and leaves for an answer of the specification.
  pub run_command-Tells :
      {year : ℤ} {cs : List DataT} (command : Command) (q : Request) (a : Answer) {ds : List DataT}
      → Makes strtof (ano_atual s) command q
      → Serves year cs q a ds
      → All (IsValid (ano_atual s)) cs
      → send (at_end rh rt q) (request q) w ≡ (some (reply_to (request q) a), x)
      → let out = run_command strtof send (some rh) (some rt) command (s, w) in
        (out.0 ≡ ret (told command a)) × (out.1.1 ≡ x)
  run_command-Tells _ _ _ makes_size Serves.size v e =
      size-Tells strtof send (some rh) rt s w x up _ e
  run_command-Tells _ _ _ makes_models Serves.models v e =
      models-Tells strtof send (some rh) rt s w x up _ e
  run_command-Tells _ _ _ makes_ordered Serves.sorted v e =
      ordered-Tells strtof send (some rh) rt s w x up _ e (All-stable_sort _ _ v)
  run_command-Tells _ _ _ makes_all Serves.sorted v e =
      listed-Tells strtof send (some rh) rt s w x up minus_one _ e (All-stable_sort _ _ v)
  run_command-Tells _ _ _ (makes_year ano _) (Serves.of_year _ _) v e =
      listed-Tells strtof send (some rh) rt s w x up ano _ e (All-keep _ _ _ v)
  run_command-Tells _ _ _ (makes_get marca fits) (Serves.get_first _ c h) v e =
      found-Tells strtof send (some rh) rt s w x up marca c fits e (All-first _ _ _ c v h)
  run_command-Tells _ _ _ (makes_get marca fits) (Serves.get_none _ h) v e =
      nothing-Tells strtof send (some rh) rt s w x up marca fits e
  run_command-Tells _ _ a (makes_del m) sv v e =
      del-Writes strtof send rh (some rt) s w x up m a sv e
  run_command-Tells _ _ a (makes_add c preco_s valid price) sv v e =
      add-Writes strtof send rh (some rt) s w x up c preco_s a valid price sv e
