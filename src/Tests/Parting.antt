-- ===== src/Tests/Parting.antt =====
-- The theorems on servers that part, at sample values.
use list_server.Base.{
  ◌≡◌, refl, true, false, some, List, [], ◌∷◌, ◌++◌, length, All, pos, first, drop_first, str_eq,
}
use list_server.Car.{DataT, ano_atual}
use list_server.CarList.Edit.{list_of, same_model}
use list_server.CarList.Sorted.{stable_sort, insert_by_year}
use list_server.Spec.{Request, Answer, Serves}
use list_server.Stub.{RList}
use list_server.Stub.Requests.{request, reply_to}
use list_server.Stub.Remote.{Server}
use list_server.Server.Replicas.{Holds}
use list_server.Server.Chain.{chain_serve}
use list_server.Server.Chain.Broken.{chain_over, up, link_down_lem}
use list_server.Server.Chain.Reads.{parted_lem}
use list_server.Tests.{calm, i3, two_cars}

abbrev link : RList
link = record { server_address = b'h' ∷ []; server_port = pos 9000; sockfd = pos 4 }

abbrev full : Server
full = (calm, some (list_of two_cars))

full-Holds : Holds (ano_atual calm) two_cars full
full-Holds = (refl, refl, refl)

first_found : first (same_model i3.modelo) two_cars ≡ some i3
unfolding first str_eq
first_found = refl

-- Three servers, and the link between the second and the third is down.
link_down_example :
    let q = Request.del i3.modelo in
    let ds = drop_first (same_model i3.modelo) two_cars in
    let out = chain_over link (request q) (up (full ∷ []) ++ (full, false) ∷ (full, true) ∷ []) in
    (out.0 ≡ some (reply_to (request q) Answer.removed))
    × (applied : List Server) × (out.1 ≡ applied ++ full ∷ full ∷ [])
    × All (Holds (ano_atual calm) ds) applied
    × (length applied ≡ 1)
link_down_example =
    link_down_lem link full [] full (full, true) [] (ano_atual calm) two_cars
      (drop_first (same_model i3.modelo) two_cars) (Request.del i3.modelo) Answer.removed
      (full-Holds, tt) tt tt (Serves.del_first i3.modelo i3 first_found)

-- An older car of the same model that was added later.
abbrev old : DataT
old = record i3 { ano = pos 2010 }

abbrev same_models : List DataT
same_models = i3 ∷ old ∷ []

abbrev pair : Server
pair = (calm, some (list_of same_models))

pair-Holds : Holds (ano_atual calm) same_models pair
pair-Holds = (refl, refl, refl)

-- The first server keeps the newer car, the other one the older.
parted_example :
    (v' : Server) × (others : List Server) × ((chain_serve link
        (request (Request.del i3.modelo))
        (chain_serve link (request Request.in_order) (pair ∷ pair ∷ [])).1).1
      ≡ v' ∷ others)
    × Holds (ano_atual calm) (i3 ∷ []) v'
    × All (Holds (ano_atual calm) (old ∷ [])) others
unfolding stable_sort insert_by_year first drop_first str_eq
parted_example =
    parted_lem link pair pair [] (ano_atual calm) same_models i3.modelo i3 old
      (pair-Holds, (pair-Holds, tt)) refl refl
