-- ===== src/Server/Locking/Serial.antt =====
-- The threads of client_thread in source/network_server.c serve their requests as if one after the
-- other.
use list_server.Base.{ℕ, ◌≡◌, refl, ap, ◌⊎◌, inl, inr, true, Option, none, some, ◌∷◌}
use list_server.Sys.{State}
use list_server.CarList.{ListT}
use list_server.Message.{MessageT}
use list_server.Stub.{RList}
use list_server.Chain.{zoo_forward_to_successor}
use list_server.Server.{needs_forward}
use list_server.Server.Locking.Exclusion.{
  is_inside, Kept, kept, Outside, OutsideBut, Guarded, Inv, free, taken, inside_inv, Inv-to_stage,
  Inv-onward, Inv-lock, Inv-unlock,
}
use list_server.Server.Chain.{serve_read}
use list_server.Server.Locking.Sequence.{
  Serial, nothing_yet, served_next, serve_write, serve_refused, before,
}
use list_server.Server.Locking.{
  Stage, receiving, asking, holding, forwarding, forwarded, replied, sending, Shared, Turn, receive,
  lock, forward, invoke_read, invoke_write, give_up, unlock, answer, allocate, watch, relink, hear,
  Reach, start, later,
}

module _ {W : Type 0} (send : RList → MessageT → State W (Option MessageT)) where
  module _ (l : Option ListT) (w : W) where
    -- What is known of the list and the world while a thread stands at a stage with the lock.
    abbrev Pending : Kept W → Stage → Type 0
    Pending t (holding msg) = Serial send l w t.served t.list t.world
    Pending t (forwarding msg) =
        (needs_forward msg ≡ true) × Serial send l w t.served t.list t.world
    Pending t (forwarded msg fwd_rc) =
        (next : Option RList) × (x : W) × (needs_forward msg ≡ true)
        × (zoo_forward_to_successor send (some msg) next x ≡ (fwd_rc, t.world))
        × Serial send l w t.served t.list x
    Pending t (replied msg reply) = Serial send l w ((msg, reply) ∷ t.served) t.list t.world
    Pending t _ = ⊥

    Pending-inside : (t : Kept W) (p : Stage) → Pending t p → is_inside p ≡ true
    Pending-inside t receiving h = absurd h
    Pending-inside t (asking _) h = absurd h
    Pending-inside t (holding _) h = refl
    Pending-inside t (forwarding _) h = refl
    Pending-inside t (forwarded _ _) h = refl
    Pending-inside t (replied _ _) h = refl
    Pending-inside t (sending _) h = absurd h

    abbrev one_by_one : Guarded W
    one_by_one = record {
      at_rest = λ t. Serial send l w t.served t.list t.world;
      pending = Pending;
      is_in = Pending-inside;
    }

    Turn-Inv : {t u : Shared W} → Turn send t u → Inv one_by_one t → Inv one_by_one u
    Turn-Inv {t} (receive i msg e) v =
        Inv-to_stage one_by_one t i (asking msg) v (ap is_inside e) refl
    Turn-Inv {t} (answer i e) v = Inv-to_stage one_by_one t i receiving v (ap is_inside e) refl
    Turn-Inv (allocate s) (free o out r) = free o out r
    Turn-Inv (allocate s) (taken i o out r) = taken i o out r
    Turn-Inv (relink next e) (free o out r) = free o out r
    Turn-Inv (watch e) (free o out r) = free o out r
    Turn-Inv (watch e) (taken i o out r) = taken i o out r
    Turn-Inv (relink next e) (taken i o out r) = taken i o out r
    Turn-Inv {t} (lock i {msg} e e') v = Inv-lock one_by_one t i msg v e' λ r. r
    Turn-Inv {t} (forward i {msg} e b e') v =
        let (o, out, r) = inside_inv one_by_one t i (holding msg) v e refl in
        Inv-onward one_by_one t _ i _ o out refl refl (b, r)
    Turn-Inv {t} (hear i {msg} e) v =
        let (o, out, (b, r)) = inside_inv one_by_one t i (forwarding msg) v e refl in
        Inv-onward one_by_one t _ i _ o out refl refl (t.rl_next_server, t.world, b, refl, r)
    Turn-Inv {t} (invoke_read i {msg} e b) v =
        let (o, out, r) = inside_inv one_by_one t i (holding msg) v e refl in
        let run = serve_read send t.rl_next_server msg t.list t.sys t.world b in
        Inv-onward one_by_one t _ i _ o out refl refl (served_next t.rl_next_server t.sys _ r run)
    Turn-Inv {t} (invoke_write i {msg} {fwd_rc} e c) v =
        let (o, out, (next, x, b, f, r)) =
          inside_inv one_by_one t i (forwarded msg fwd_rc) v e refl in
        let run = serve_write send next msg t.list t.sys x t.world fwd_rc b f c in
        Inv-onward one_by_one t _ i _ o out refl refl (served_next next t.sys _ r run)
    Turn-Inv {t} (give_up i {msg} {fwd_rc} e c d) v =
        let (o, out, (next, x, b, f, r)) =
          inside_inv one_by_one t i (forwarded msg fwd_rc) v e refl in
        let run = serve_refused send next msg t.list t.sys x t.world fwd_rc b f c d in
        Inv-onward one_by_one t _ i _ o out refl refl (served_next next t.sys _ r run)
    Turn-Inv {t} (unlock i {msg} {reply} e) v =
        let (o, out, r) = inside_inv one_by_one t i (replied msg reply) v e refl in
        Inv-unlock one_by_one t _ i _ out refl refl refl r

    Reach-Inv : {t : Shared W} → Reach send l w t → Inv one_by_one t
    Reach-Inv (start s next) = free refl (λ j. refl) nothing_yet
    Reach-Inv (later r step) = Turn-Inv step (Reach-Inv r)

    Pending-served :
        (t : Kept W) (p : Stage)
        → Pending t p
        → (k : Option ListT) × (x : W) × Serial send l w t.served k x
    Pending-served t receiving h = absurd h
    Pending-served t (asking _) h = absurd h
    Pending-served t (holding _) h = (_, _, h)
    Pending-served t (forwarding _) h = (_, _, h.1)
    Pending-served t (forwarded _ _) h = (_, _, h.4)
    Pending-served t (replied msg reply) h = before send (msg, reply) h
    Pending-served t (sending _) h = absurd h

    -- Nobody is inside, and the list and the world are those of the requests that were served; or
    -- one thread is, with the lock, and they are those of the requests before its own.
    abbrev pub OneByOne : Shared W → Type 0
    OneByOne t =
        ((t.lock_list ≡ none) × Outside t × Serial send l w t.served t.list t.world)
        ⊎ ((i : ℕ) × (t.lock_list ≡ some i)
            × (is_inside (t.stage i) ≡ true)
            × OutsideBut i t
            × (k : Option ListT) × (x : W) × Serial send l w t.served k x)

    -- However the threads of the clients interleave, with each other, with allocations elsewhere and
    -- with changes of the successor, what they answered and what they did to the list and behind the
    -- successor is what `serve_request` does to the same requests one after the other, in the order
    -- in which they gave `lock_list` back; and between the two calls on the lock there is one
    -- thread at most, the one that has it. Whenever no thread has it, the list and the successor are
    -- as that sequence leaves them.
    pub Reach-Serial : {t : Shared W} → Reach send l w t → OneByOne t
    Reach-Serial {t} r = elim (Reach-Inv r) [
      | free o out s ↦ inl (o, out, s)
      | taken i o out s ↦
          let (k, x, s') = Pending-served (kept t) (t.stage i) s in
          inr (i, o, Pending-inside (kept t) (t.stage i) s, out, k, x, s')
    ]
