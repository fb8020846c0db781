-- ===== src/Server/Joining/Steps.antt =====
-- What copying and each write do to two neighbours in the chain of source/chain_server.c.
use list_server.Base.{
  ◌≡◌, refl, sym, ap, ◌∙◌, subst, Bool, true, Option, none, some, List, [], ◌∷◌, ◌++◌, arith, ℤ,
  pos, minus_one, All, All-append,
}
use list_server.Sys.{Sys, State, free, free_lem, NeverFails}
use list_server.Car.{DataT, ano_atual}
use list_server.Car.Laws.{IsValid, ano_atual_eq}
use list_server.CarList.Edit.{list_of, same_model, All-drop_first}
use list_server.CarList.Sorted.{stable_sort, length-stable_sort, All-stable_sort}
use list_server.Skel.{dispatch, invoke}
use list_server.Skel.Replies.{invoke_year_all, invoke_year_all_state}
use list_server.Spec.{Request, Answer, Serves}
use list_server.CarList.{ListT}
use list_server.Stub.{Run, ret, RList, year_request}
use list_server.Stub.Calls.{rlist_disconnect}
use list_server.Stub.Requests.{request, IsAsked}
use list_server.Stub.Remote.{Server, direct}
use list_server.Chain.{copy_from, rlist_get_list_add}
use list_server.Chain.Transfer.{read_list_listed}
use list_server.Server.{apply_local}
use list_server.Server.Replicas.{IsWrite, Holds, apply_write}
use list_server.Server.Chain.{write_needs_forward, serve_tail, serve_forwarded}
use list_server.Server.Joining.{Neighbours, at_tail, arrive, copy}

-- The predecessor holds the cars `cs` and the newcomer the cars `ds`, all valid.
pub record Hold (year : ℤ) (cs ds : List DataT) (j : Neighbours) : Type 0 where
  pub old : Holds year cs j.predecessor
  pub new : Holds year ds j.newcomer
  pub old_valid : All (IsValid year) cs

-- Behind the copying of `cs` both allocators give, both clocks show the year they did, and the
-- predecessor's cars are sorted.
abbrev Kept : Sys → Sys → List DataT → Sys × Server → Type 0
Kept s t cs w =
    (NeverFails w.0 × (w.0.tm_year ≡ s.tm_year))
    × (NeverFails w.1.0 × (w.1.0.tm_year ≡ t.tm_year))
    × (w.1.1 ≡ some (list_of (stable_sort cs)))

got_lem :
    (r : RList) (s t : Sys) (cs ds : List DataT)
    → NeverFails s
    → NeverFails t
    → All (IsValid (ano_atual s)) cs
    → let out =
        rlist_get_list_add direct (some r) (some (list_of ds)) (s, (t, some (list_of cs))) in
      (out.0 ≡ (ret (pos 0), some (list_of (ds ++ stable_sort cs)))) × Kept s t cs out.1
unfolding rlist_get_list_add invoke dispatch year_request
got_lem r s t cs ds up ok v =
    let msg = year_request minus_one in
    let run = invoke_year_all t msg (list_of cs) ok refl in
    let after = invoke_year_all_state t msg (list_of cs) ok refl in
    let got = read_list_listed s msg (stable_sort cs) ds up (All-stable_sort _ cs v) refl in
    (
      ground (arith, run, got),
      (
        (ground (arith, run, got), ground (arith, run, got)),
        (ground (arith, after), ground (arith, after)),
        ground (arith, run, length-stable_sort cs),
      ),
    )

-- A write keeps the cars valid.
Serves-IsValid :
    (year : ℤ) (cs ds : List DataT) (q : Request) (a : Answer)
    → IsWrite q
    → Serves year cs q a ds
    → All (IsValid year) cs
    → All (IsValid year) ds
Serves-IsValid year cs _ _ _ w (Serves.add_valid c v) h =
    All-append (IsValid year) cs (c ∷ []) h (v, tt)
Serves-IsValid year cs _ _ _ w (Serves.add_invalid c bad) h = h
Serves-IsValid year cs _ _ _ w (Serves.del_first m c e) h = All-drop_first year (same_model m) cs h
Serves-IsValid year cs _ _ _ w (Serves.del_none m e) h = h
Serves-IsValid year cs _ _ _ w (Serves.get_first marca c e) h = absurd w
Serves-IsValid year cs _ _ _ w (Serves.get_none marca e) h = absurd w
Serves-IsValid year cs _ _ _ w (Serves.of_year ano e) h = absurd w
Serves-IsValid year cs _ _ _ w Serves.sorted h = absurd w
Serves-IsValid year cs _ _ _ w Serves.size h = absurd w
Serves-IsValid year cs _ _ _ w Serves.models h = absurd w

-- Before the predecessor has a successor a write changes its own list only.
pub arrive_alone :
    (year : ℤ) (cs cs' ds : List DataT) (q : Request) (a : Answer) (j : Neighbours)
    → Hold year cs ds j
    → j.rl_next_server ≡ none
    → IsWrite q
    → IsAsked q
    → Serves year cs q a cs'
    → Hold year cs' ds (arrive (request q) j)
unfolding arrive
arrive_alone year cs cs' ds q a j h alone w asked sv =
    let (_, held) = apply_write j.predecessor year cs cs' q a h.old w asked sv in
    let run =
      serve_tail at_tail (request q) j.predecessor.1 j.predecessor.0 j.newcomer
        (write_needs_forward q w) in
    rw (alone, run)
      (record {
        old = held;
        new = h.new;
        old_valid = Serves-IsValid year cs cs' q a w sv h.old_valid;
      })

-- Afterwards it changes both, each as the specification says for its own cars.
pub arrive_linked :
    (year : ℤ) (cs cs' ds ds' : List DataT) (q : Request) (a b : Answer) (r : RList)
    (j : Neighbours)
    → Hold year cs ds j
    → j.rl_next_server ≡ some r
    → IsWrite q
    → IsAsked q
    → Serves year cs q a cs'
    → Serves year ds q b ds'
    → Hold year cs' ds' (arrive (request q) j)
unfolding arrive
arrive_linked year cs cs' ds ds' q a b r j h next w asked sv sw =
    let (_, held) = apply_write j.predecessor year cs cs' q a h.old w asked sv in
    let (_, held') = apply_write j.newcomer year ds ds' q b h.new w asked sw in
    let out = apply_local (request q) j.newcomer.1 j.newcomer.0 in
    let last =
      serve_tail {W = Unit {0}} (λ _ _ u. (none, u)) (request q) j.newcomer.1 j.newcomer.0 tt
        (write_needs_forward q w) in
    let run =
      serve_forwarded at_tail r (request q) out.0.0 j.predecessor.1 j.predecessor.0 j.newcomer
        (out.1, out.0.1) (write_needs_forward q w) (ground (arith, last)) in
    rw (next, run)
      (record {
        old = held;
        new = held';
        old_valid = Serves-IsValid year cs cs' q a w sv h.old_valid;
      })

module _ (close : ℤ → State Server Bool) (r : RList)
    (shut : (w : Server) → close r.sockfd w ≡ (true, w)) where
  leave_lem :
      (x : Sys × Server)
      → let out = rlist_disconnect close (some r) x in
        (out.0 ≡ pos 0)
        × (out.1.1 ≡ x.1)
        × (out.1.0.outcomes ≡ x.0.outcomes)
        × (out.1.0.tm_year ≡ x.0.tm_year)
  unfolding rlist_disconnect
  leave_lem (x, w) =
      let e = ap (λ (q : Bool × Server). q.0) (shut w) in
      let f = ap (λ (q : Bool × Server). q.1) (shut w) in
      ground (arith, e, f, free_lem x, free_lem (free x).1)

  copy_lem :
      (s t : Sys) (cs ds : List DataT)
      → NeverFails s
      → NeverFails t
      → All (IsValid (ano_atual s)) cs
      → let out = copy_from close direct (some r) (some (list_of ds)) (s, (t, some (list_of cs))) in
        (out.0 ≡ (ret (pos 1), some (list_of (ds ++ stable_sort cs)))) × Kept s t cs out.1
  unfolding copy_from
  copy_lem s t cs ds up ok v =
      let out =
        rlist_get_list_add direct (some r) (some (list_of ds)) (s, (t, some (list_of cs))) in
      ground (arith, got_lem r s t cs ds up ok v, leave_lem out.1)

  copy_held :
      (year : ℤ) (cs ds : List DataT) (s t : Sys) (k l : Option ListT) (n : Option RList)
      → Hold year cs ds (record { predecessor = (t, l); newcomer = (s, k); rl_next_server = n })
      → Hold year
          (stable_sort cs)
          (ds ++ stable_sort cs)
          (copy close r (record { predecessor = (t, l); newcomer = (s, k); rl_next_server = n }))
  unfolding copy
  copy_held year cs ds s t k l n h =
      let v = subst (λ y. All (IsValid y) cs) (sym h.new.2) h.old_valid in
      let (e, ((up, same), (ok, same'), f)) = copy_lem s t cs ds h.new.1 h.old.1 v in
      rw (h.old.0, h.new.0)
        (record {
          old = (f, ok, ano_atual_eq _ t same' ∙ h.old.2);
          new = (ap (λ (q : Run ℤ × Option ListT). q.1) e, up, ano_atual_eq _ s same ∙ h.new.2);
          old_valid = All-stable_sort _ cs h.old_valid;
        })

  pub copy-Hold :
      (year : ℤ) (cs ds : List DataT) (j : Neighbours)
      → Hold year cs ds j
      → Hold year (stable_sort cs) (ds ++ stable_sort cs) (copy close r j)
  copy-Hold year cs ds j h =
      copy_held year cs ds j.newcomer.0 j.predecessor.0 j.newcomer.1 j.predecessor.1
        j.rl_next_server h
