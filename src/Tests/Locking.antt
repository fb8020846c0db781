-- ===== src/Tests/Locking.antt =====
-- The theorem on the lock of the list at two threads.
use list_server.Base.{refl, inl, inr, none, some, Option, List, [], ◌∷◌, pos, arith}
use list_server.Car.{ano_atual}
use list_server.Spec.{Request}
use list_server.Stub.Remote.{Server}
use list_server.Server.Chain.{chain_serve}
use list_server.Server.Locking.Chained.{QuietRun}
use list_server.Server.Locking.Replicas.{AllEqual, Reach-AllEqual}
use list_server.Sys.{State, pure}
use list_server.CarList.Edit.{list_of}
use list_server.Message.{MessageT}
use list_server.Stub.{RList, del_request, size_request}
use list_server.Chain.{zoo_forward_to_successor}
use list_server.Server.{needs_forward, apply_local}
use list_server.Server.Locking.{
  Shared, to_stage, applied, sent_on, asking, holding, receiving, Reach, start, later, receive,
  lock, forward, hear, forwarding, client, invoke_write, unlock, sending,
}
use list_server.Server.Locking.Serial.{OneByOne, Reach-Serial}
use list_server.Tests.{calm, i3, two_cars}

abbrev nobody : RList → MessageT → State (Unit {0}) (Option MessageT)
nobody r m = pure none

abbrev remove_i3 : MessageT
remove_i3 = del_request i3.modelo

abbrev at_first : Shared (Unit {0})
at_first = record {
  lock_list = none;
  rls_lock = none;
  rl_next_server = none;
  list = some (list_of two_cars);
  sys = calm;
  world = tt;
  stage = λ _. receiving;
  served = [];
}

-- Thread 0 asks for the size, thread 1 removes a car and takes the lock first.
abbrev both_ask : Shared (Unit {0})
both_ask = to_stage (to_stage at_first 0 (asking size_request)) 1 (asking remove_i3)

abbrev one_has : Shared (Unit {0})
one_has = record (to_stage both_ask 1 (holding remove_i3)) { lock_list = some 1 }

abbrev one_waits : Shared (Unit {0})
one_waits = record (to_stage one_has 1 (forwarding remove_i3)) { rls_lock = some (client 1) }

abbrev one_forwarded : Shared (Unit {0})
one_forwarded = sent_on nobody one_waits 1 remove_i3

abbrev one_applied : Shared (Unit {0})
one_applied = applied one_forwarded 1 remove_i3

one_applied-Reach : Reach nobody (some (list_of two_cars)) tt one_applied
unfolding needs_forward del_request zoo_forward_to_successor
one_applied-Reach =
    later
      (later
        (later
          (later
            (later (later (start calm none) (receive 0 size_request refl))
              (receive 1 remove_i3 refl))
            (lock 1 refl refl))
          (forward 1 refl refl refl))
        (hear 1 refl))
      (invoke_write 1 refl (inl refl))

Reach-Serial_example : OneByOne nobody (some (list_of two_cars)) tt one_applied
Reach-Serial_example = Reach-Serial nobody (some (list_of two_cars)) tt one_applied-Reach

-- The same at the head of two servers, until thread 1 has its reply and gave the lock back.
abbrev link : RList
link = record { server_address = b'h' ∷ []; server_port = pos 9000; sockfd = pos 4 }

abbrev behind : List Server
behind = (calm, some (list_of two_cars)) ∷ []

abbrev at_head : Shared (List Server)
at_head = record {
  lock_list = none;
  rls_lock = none;
  rl_next_server = some link;
  list = some (list_of two_cars);
  sys = calm;
  world = behind;
  stage = λ _. receiving;
  served = [];
}

abbrev both_write : Shared (List Server)
both_write = to_stage (to_stage at_head 0 (asking size_request)) 1 (asking remove_i3)

abbrev locked : Shared (List Server)
locked = record (to_stage both_write 1 (holding remove_i3)) { lock_list = some 1 }

abbrev waits : Shared (List Server)
waits = record (to_stage locked 1 (forwarding remove_i3)) { rls_lock = some (client 1) }

abbrev sent : Shared (List Server)
sent = sent_on chain_serve waits 1 remove_i3

abbrev removed : Shared (List Server)
removed = applied sent 1 remove_i3

abbrev reply : MessageT
reply = (apply_local remove_i3 sent.list sent.sys).0.0

abbrev unlocked : Shared (List Server)
unlocked = record (to_stage removed 1 (sending reply)) {
  lock_list = none;
  served = (remove_i3, reply) ∷ [];
}

unlocked_run : Reach chain_serve (some (list_of two_cars)) behind unlocked
unfolding needs_forward del_request zoo_forward_to_successor chain_serve
unlocked_run =
    later
      (later
        (later
          (later
            (later
              (later (later (start calm (some link)) (receive 0 size_request refl))
                (receive 1 remove_i3 refl))
              (lock 1 refl refl))
            (forward 1 refl refl refl))
          (hear 1 refl))
        (invoke_write 1 refl (inr refl)))
      (unlock 1 refl)

unlocked_run-QuietRun : QuietRun link (ano_atual calm) unlocked_run
unfolding unlocked_run
unlocked_run-QuietRun = (
  ((((((((refl, refl), refl), tt), tt), (Request.del i3.modelo, refl, tt, tt)), tt), tt), tt),
  tt,
)

Reach-AllEqual_example : AllEqual link (ano_atual calm) two_cars unlocked
Reach-AllEqual_example =
    Reach-AllEqual link (ano_atual calm) two_cars unlocked_run unlocked_run-QuietRun
      (omega arith, ((refl, refl, refl), tt))
