-- ===== src/Tests/Sessions.antt =====
-- The theorems on a user's writes at sample values.
use list_server.Base.{List, ℕ, some, [], ◌∷◌, CStr, pos}
use list_server.CarList.Edit.{list_of}
use list_server.Client.{Command}
use list_server.Stub.{RList}
use list_server.Stub.Remote.{Server}
use list_server.Tests.{calm, i3, two_cars}

abbrev ten : CStr → ℕ
ten text = 0x41200000

abbrev head : RList
head = record { server_address = b'h' ∷ []; server_port = pos 9000; sockfd = pos 4 }

abbrev stocked : Server
stocked = (calm, some (list_of two_cars))

abbrev tail : RList
tail = record { server_address = b't' ∷ []; server_port = pos 9000; sockfd = pos 5 }

abbrev two_servers : List Server
two_servers = stocked ∷ stocked ∷ []

abbrev typed : Command
typed = Command.add i3.modelo (pos 2020) (b'1' ∷ b'0' ∷ []) (pos 1) (pos 2)
