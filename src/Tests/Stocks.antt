-- ===== src/Tests/Stocks.antt =====
-- The theorems on what the servers of a chain agree on, at sample values.
use list_server.Base.{◌≡◌, refl, subst, some, List, [], ◌∷◌, All, arith, pos, first, keep, str_eq}
use list_server.Car.{ano_atual}
use list_server.CarList.Edit.{list_of}
use list_server.Spec.{Request, Answer}
use list_server.Stub.{RList}
use list_server.Stub.Remote.{Server}
use list_server.Server.Stock.{Stock, of_cars, year_of}
use list_server.Server.Stock.Offers.{Settled, reads_leave}
use list_server.Server.Chain.Stocked.{Stocked}
use list_server.Server.Chain.Stocked.Runs.{Event, Run, serve_all, replies, serve_all-Run}
use list_server.Tests.{calm, i3, two_cars}

abbrev link : RList
link = record { server_address = b'h' ∷ []; server_port = pos 9000; sockfd = pos 4 }

abbrev full : Server
full = (calm, some (list_of two_cars))

full-Stocked : Stocked (ano_atual calm) (of_cars two_cars) full
full-Stocked = (two_cars, (refl, refl, refl), refl)

-- The last server sorts its list, a car is deleted at the head, and the second server is asked for
-- the cars of a year.
abbrev events : List Event
events =
    record { place = 2; asks = Request.in_order }
    ∷ record { place = 0; asks = Request.del i3.modelo }
    ∷ record { place = 1; asks = Request.in_year i3.ano }
    ∷ []

i3-Settled : Settled (of_cars two_cars) (Request.del i3.modelo)
unfolding year_of first keep str_eq
i3-Settled = (i3.ano, λ ano d. ground arith)

serve_all-Run_example :
    (as' : List Answer) × (y : Stock) × Run (ano_atual calm) (of_cars two_cars) events as' y
    × ((serve_all link events (full ∷ full ∷ full ∷ [])).0 ≡ replies events as')
    × All (Stocked (ano_atual calm) y) (serve_all link events (full ∷ full ∷ full ∷ [])).1
serve_all-Run_example =
    serve_all-Run link events (full ∷ full ∷ full ∷ []) (ano_atual calm) (of_cars two_cars)
      (full-Stocked, (full-Stocked, (full-Stocked, tt)))
      (
        (omega arith, (λ w. absurd w), tt),
        (
          (omega arith, (λ w. refl), tt),
          ((omega arith, (λ w. absurd w), λ e. ground (arith, e)), tt),
        ),
      )
      (
        tt,
        λ a y o. (
          subst (λ z. Settled z (Request.del i3.modelo)) (reads_leave o λ w. w) i3-Settled,
          λ b z p. (tt, λ c u s. tt),
        ),
      )
