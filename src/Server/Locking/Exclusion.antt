-- ===== src/Server/Locking/Exclusion.antt =====
-- `lock_list` in the loop of client_thread in source/network_server.c keeps the threads apart: what
-- holds of the list while nobody has the lock, and what holds while one thread stands with it at a
-- stage, are the fields `at_rest` and `pending`.
use list_server.Base.{
  ℕ, ◌≡◌, refl, sym, ap, subst, ==_iff, ◌∙◌, inl, inr, true, false, Bool, Option, none, some, List,
  arith, ◌==◌, Bool-cases,
}
use list_server.Sys.{Sys}
use list_server.CarList.{ListT}
use list_server.Message.{MessageT}
use list_server.Stub.{RList}
use list_server.Server.Threads.{put}
use list_server.Server.Locking.{
  Stage, holding, forwarding, forwarded, replied, Served, Shared, to_stage,
}

-- The stages between the two calls on the lock.
abbrev pub is_inside : Stage → Bool
is_inside (holding _) = true
is_inside (forwarding _) = true
is_inside (forwarded _ _) = true
is_inside (replied _ _) = true
is_inside _ = false

-- What the threads share, without the lock and their stages.
pub record Kept (W : Type 0) : Type 0 where
  pub served : List Served
  pub list : Option ListT
  pub sys : Sys
  pub rl_next_server : Option RList
  pub world : W

pub put_self : (f : ℕ → Stage) (i : ℕ) (p : Stage) → put f i p i ≡ p
put_self f i p = ground arith

put_other : (f : ℕ → Stage) (i j : ℕ) (p : Stage) → (j == i) ≡ false → put f i p j ≡ f j
put_other f i j p n = ground arith

module _ {W : Type 0} where
  abbrev pub kept : Shared W → Kept W
  kept t = record {
    served = t.served;
    list = t.list;
    sys = t.sys;
    rl_next_server = t.rl_next_server;
    world = t.world;
  }

  -- No thread stands between the calls on the lock; none but the thread `i`.
  abbrev pub Outside : Shared W → Type 0
  Outside t = (j : ℕ) → is_inside (t.stage j) ≡ false

  abbrev pub OutsideBut : ℕ → Shared W → Type 0
  OutsideBut i t = (j : ℕ) → (j == i) ≡ false → is_inside (t.stage j) ≡ false

-- What holds of the list while nobody has the lock, and while a thread has it at a stage.
pub record Guarded (W : Type 0) : Type 1 where
  pub at_rest : Kept W → Type 0
  pub pending : Kept W → Stage → Type 0
  pub is_in : (k : Kept W) (p : Stage) → pending k p → is_inside p ≡ true

module _ {W : Type 0} (g : Guarded W) where
  -- The lock is free, or one thread has it and nobody else is inside.
  pub data Inv (t : Shared W) : Type 0 where
    free : t.lock_list ≡ none → Outside t → g.at_rest (kept t) → Inv t
    taken : (i : ℕ) → t.lock_list ≡ some i → OutsideBut i t → g.pending (kept t) (t.stage i) → Inv t

  -- The thread that is inside has the lock.
  pub inside_inv :
      (t : Shared W) (i : ℕ) (p : Stage)
      → Inv t
      → t.stage i ≡ p
      → is_inside p ≡ true
      → (t.lock_list ≡ some i) × OutsideBut i t × g.pending (kept t) p
  inside_inv t i p (free o out r) e h = absurd (ground (arith, out i))
  inside_inv t i p (taken a o out r) e h = elim (Bool-cases (i == a)) [
    | inl same ↦
        let q : a ≡ i = sym ((==_iff i a).0 same) in
        (
          o ∙ ap some q,
          subst (λ k. OutsideBut k t) q out,
          subst (g.pending (kept t)) (ap t.stage q ∙ e) r,
        )
    | inr other ↦ absurd (ground (arith, out i other))
  ]

  -- A thread that stays outside keeps it.
  pub Inv-to_stage :
      (t : Shared W) (i : ℕ) (p : Stage)
      → Inv t
      → is_inside (t.stage i) ≡ false
      → is_inside p ≡ false
      → Inv (to_stage t i p)
  Inv-to_stage t i p (free o out r) h k = free o (λ j. ground (arith, out j)) r
  Inv-to_stage t i p (taken a o out r) h k =
      let inside = g.is_in (kept t) (t.stage a) r in
      let same : put t.stage i p a ≡ t.stage a = ground (arith, inside) in
      taken a o (λ j n. ground (arith, out j n)) (subst (g.pending (kept t)) (sym same) r)

  -- The thread that has the lock goes on to another stage inside, with another list or world.
  pub Inv-onward :
      (t u : Shared W) (i : ℕ) (p : Stage)
      → t.lock_list ≡ some i
      → OutsideBut i t
      → u.lock_list ≡ t.lock_list
      → u.stage ≡ put t.stage i p
      → g.pending (kept u) p
      → Inv u
  Inv-onward t u i p o out e f r =
      let self : u.stage i ≡ p = ap (λ (h : ℕ → Stage). h i) f ∙ put_self t.stage i p in
      taken i (e ∙ o)
        (λ j n.
          ap (λ (h : ℕ → Stage). is_inside (h j)) f
          ∙ ap is_inside (put_other t.stage i j p n)
          ∙ out j n)
        (subst (g.pending (kept u)) (sym self) r)

  -- A thread takes the lock.
  pub Inv-lock :
      (t : Shared W) (i : ℕ) (msg : MessageT)
      → Inv t
      → t.lock_list ≡ none
      → (g.at_rest (kept t) → g.pending (kept t) (holding msg))
      → Inv (record (to_stage t i (holding msg)) { lock_list = some i })
  Inv-lock t i msg (free o out r) e f =
      taken i refl (λ j n. ground (arith, out j))
        (subst (g.pending (kept t)) (sym (put_self t.stage i _)) (f r))
  Inv-lock t i msg (taken a o out r) e f = absurd (ground arith)

  -- The thread that has the lock gives it back.
  pub Inv-unlock :
      (t u : Shared W) (i : ℕ) (p : Stage)
      → OutsideBut i t
      → u.lock_list ≡ none
      → u.stage ≡ put t.stage i p
      → is_inside p ≡ false
      → g.at_rest (kept u)
      → Inv u
  Inv-unlock t u i p out e f h r =
      free e (λ j. ap (λ (k : ℕ → Stage). is_inside (k j)) f ∙ ground (arith, h, out j)) r
