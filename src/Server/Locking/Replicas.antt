-- ===== src/Server/Locking/Replicas.antt =====
-- The threads of client_thread in source/network_server.c at the head of a chain: the replicas stay
-- equal however the threads interleave.
use list_server.Base.{ℕ, ◌≡◌, refl, ap, ◌⊎◌, inl, inr, none, some, List, arith, ℤ}
use list_server.Car.{DataT}
use list_server.CarList.Edit.{list_of}
use list_server.Stub.{RList}
use list_server.Stub.Remote.{Server}
use list_server.Server.Chain.{chain_serve}
use list_server.Server.Locking.{
  Stage, receiving, asking, holding, forwarding, forwarded, replied, sending, Shared, Turn, receive,
  lock, forward, invoke_read, invoke_write, give_up, unlock, answer, allocate, watch, relink, hear,
  Reach, start, later,
}
use list_server.Server.Locking.Exclusion.{
  is_inside, Kept, kept, Inv, free, taken, inside_inv, Inv-to_stage, Inv-onward, Inv-lock,
  Inv-unlock,
}
use list_server.Server.Locking.Chained.{
  Written, nothing_yet, before, Behind, Quiet, QuietRun, AtStage, chained, retouch, forward_step,
  write_step, read_applied, writes_forwarded,
}

module _ (r : RList) (year : ℤ) (cs : List DataT) where
  Turn-Inv :
      {t u : Shared (List Server)} (step : Turn chain_serve t u)
      → Quiet r year step
      → Inv (chained r year cs) t
      → Inv (chained r year cs) u
  Turn-Inv {t} (receive i msg e) z v =
      Inv-to_stage (chained r year cs) t i (asking msg) v (ap is_inside e) refl
  Turn-Inv {t} (answer i e) z v =
      Inv-to_stage (chained r year cs) t i receiving v (ap is_inside e) refl
  Turn-Inv (allocate s) z (free o out (c, h)) = free o out ((z, c.1), h)
  Turn-Inv {t} (allocate s) z (taken i o out (c, h)) =
      taken i o out ((z, c.1), retouch r year cs (kept t) s t.rl_next_server (t.stage i) h)
  Turn-Inv (relink next e) z (free o out (c, h)) = free o out ((c.0, z), h)
  Turn-Inv {t} (relink next e) z (taken i o out (c, h)) =
      taken i o out ((c.0, z), retouch r year cs (kept t) t.sys next (t.stage i) h)
  Turn-Inv (watch e) z (free o out h) = free o out h
  Turn-Inv (watch e) z (taken i o out h) = taken i o out h
  Turn-Inv {t} (lock i {msg} e e') z v =
      Inv-lock (chained r year cs) t i msg v e' λ h. (h.0, (z, h.1))
  Turn-Inv {t} (forward i {msg} e b e') z v =
      let (o, out, (c, (asks, h))) = inside_inv (chained r year cs) t i (holding msg) v e refl in
      Inv-onward (chained r year cs) t _ i _ o out refl refl (c, (writes_forwarded asks b, h))
  Turn-Inv {t} (hear i {msg} e) z v =
      let (o, out, (c, (asks, h))) = inside_inv (chained r year cs) t i (forwarding msg) v e refl in
      Inv-onward (chained r year cs) t _ i _ o out refl refl
        (c, forward_step r year cs (kept t) msg c.1 asks h)
  Turn-Inv {t} (invoke_read i {msg} e b) z v =
      let (o, out, (c, (asks, h))) = inside_inv (chained r year cs) t i (holding msg) v e refl in
      let (calm, same) = read_applied r year cs (kept t) msg c.0 b asks h in
      Inv-onward (chained r year cs) t _ i _ o out refl refl ((calm, c.1), same)
  Turn-Inv {t} (invoke_write i {msg} {fwd_rc} e d) z v =
      let (o, out, (c, h)) = inside_inv (chained r year cs) t i (forwarded msg fwd_rc) v e refl in
      let (calm, same) = write_step r year cs (kept t) msg fwd_rc c.0 h in
      Inv-onward (chained r year cs) t _ i _ o out refl refl ((calm, c.1), same)
  Turn-Inv {t} (give_up i {msg} {fwd_rc} e d d') z v =
      let (o, out, (c, (_, _, _, _, _, _, _, _, _, _, _, code))) =
        inside_inv (chained r year cs) t i (forwarded msg fwd_rc) v e refl in
      absurd (ground (arith, code, d'))
  Turn-Inv {t} (unlock i {msg} {reply} e) z v =
      let (o, out, r') = inside_inv (chained r year cs) t i (replied msg reply) v e refl in
      Inv-unlock (chained r year cs) t _ i _ out refl refl refl r'

  Reach-Inv :
      {w : List Server} {t : Shared (List Server)} (run : Reach chain_serve (some (list_of cs)) w t)
      → QuietRun r year run
      → Behind r year cs w
      → Inv (chained r year cs) t
  Reach-Inv (start s next) z h = free refl (λ j. refl) (z, (cs, refl, h, nothing_yet))
  Reach-Inv (later run step) z h = Turn-Inv step z.1 (Reach-Inv run z.0 h)

  -- Nobody has the lock, and all servers hold what the specification leaves of the requests that were
  -- answered, one after the other, and the answers are the specification's; or one thread has it.
  abbrev pub AllEqual : Shared (List Server) → Type 0
  AllEqual t =
      ((t.lock_list ≡ none)
        × (ds : List DataT) × (t.list ≡ some (list_of ds))
        × Behind r year ds t.world
        × Written year cs t.served ds)
      ⊎ ((i : ℕ) × (t.lock_list ≡ some i) × (ds : List DataT) × Written year cs t.served ds)

  written_inside :
      (k : Kept (List Server)) (p : Stage)
      → AtStage r year cs k p
      → (ds : List DataT) × Written year cs k.served ds
  written_inside k (holding _) (_, (ds, _, _, log)) = (ds, log)
  written_inside k (forwarding _) (_, (ds, _, _, log)) = (ds, log)
  written_inside k (forwarded _ _) (_, _, ds, _, _, _, _, _, _, _, log, _) = (ds, log)
  written_inside k (replied msg reply) (es, _, _, log) = before (msg, reply) log
  written_inside k receiving h = absurd h
  written_inside k (asking _) h = absurd h
  written_inside k (sending _) h = absurd h

  -- However the threads of the clients interleave at the head of a chain of two servers or more that
  -- all hold the cars `cs`: whenever no thread has `lock_list`, all servers hold the same cars, and the
  -- requests of the threads that gave it back were answered as the specification answers them one
  -- after the other. The requests that get the lock are the stub's, and none is for the cars in
  -- order; a brand to get and a car's enums fit, and a year that is asked for is not -1; no
  -- allocation fails, the clocks show the same year, every link delivers, and the successor stays.
  pub Reach-AllEqual :
      {w : List Server} {t : Shared (List Server)} (run : Reach chain_serve (some (list_of cs)) w t)
      → QuietRun r year run
      → Behind r year cs w
      → AllEqual t
  Reach-AllEqual {w} {t} run z h = elim (Reach-Inv run z h) [
    | free o out (_, (ds, l, b, log)) ↦ inl (o, ds, l, b, log)
    | taken i o out (_, s) ↦
        let (ds, log) = written_inside (kept t) (t.stage i) s in inr (i, o, ds, log)
  ]
