-- ===== src/Tests/Joins.antt =====
-- The theorems on a server that joins while requests arrive, at sample values.
use list_server.Base.{◌≡◌, ◌↔◌, refl, arith, true, some, none, List, [], ◌∷◌, ◌++◌, Bool, ℤ, pos}
use list_server.Sys.{State, pure}
use list_server.Car.{DataT, ano_atual}
use list_server.CarList.Edit.{list_of}
use list_server.CarList.Sorted.{stable_sort}
use list_server.Spec.{Request}
use list_server.Stub.{RList}
use list_server.Stub.Requests.{request}
use list_server.Stub.Remote.{Server}
use list_server.Server.Joining.{Neighbours, arrives, copies, notices, run}
use list_server.Server.Joining.Steps.{Hold}
use list_server.Server.Joining.Orders.{writes, adds, joins_equal, misses_add}
use list_server.Server.Joining.Locks.{Locks, LockStep, Reach, beginning, dead, deadlock_lem}
use list_server.Tests.{calm, i3, clio, two_cars, i3-IsValid, clio-IsValid, two_cars-IsValid}

abbrev hang_up : ℤ → State Server Bool
hang_up fd = pure true

abbrev line : RList
line = record { server_address = b'h' ∷ []; server_port = pos 9000; sockfd = pos 4 }

abbrev apart : Neighbours
apart = record {
  predecessor = (calm, some (list_of two_cars));
  newcomer = (calm, some (list_of []));
  rl_next_server = none;
}

apart-Hold : Hold (ano_atual calm) two_cars [] apart
apart-Hold = record {
  old = (refl, refl, refl);
  new = (refl, refl, refl);
  old_valid = two_cars-IsValid;
}

joins_equal_example :
    (ds : List DataT) × Hold (ano_atual calm) ds ds (
      run hang_up line
        (writes (Request.del clio.modelo ∷ []) ++ copies ∷ notices ∷ writes (Request.add i3 ∷ []))
        apart)
joins_equal_example =
    joins_equal hang_up line (λ w. refl) (ano_atual calm) two_cars (Request.del clio.modelo ∷ [])
      (Request.add i3 ∷ []) apart apart-Hold refl ((tt, tt), tt)
      ((tt, (omega arith, omega arith)), tt)

misses_add_example :
    Hold
      (ano_atual calm)
      (stable_sort two_cars ++ i3 ∷ clio ∷ [])
      (stable_sort two_cars ++ clio ∷ [])
      (run hang_up line
        (copies ∷ arrives (request (Request.add i3)) ∷ notices ∷ writes (adds (clio ∷ [])))
        apart)
misses_add_example =
    misses_add hang_up line (λ w. refl) (ano_atual calm) two_cars i3 (clio ∷ []) apart apart-Hold
      refl ((omega arith, omega arith), ((omega arith, omega arith), tt))
      (i3-IsValid, (clio-IsValid, tt))

deadlock_example : Reach dead × (((t : Locks) → ¬ LockStep beginning t) ↔ (beginning ≡ dead))
deadlock_example = deadlock_lem beginning
