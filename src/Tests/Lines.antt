-- ===== src/Tests/Lines.antt =====
-- The theorem on the client's lines at a sample line.
use list_server.Base.{str_eq, ◌≡◌, refl, [], ◌∷◌, ◌++◌}
use list_server.Client.{cmd_remove, choose, parse_line}
use list_server.Client.Commands.{join, parse_line-join}
use list_server.Tests.{clio}

parse_line-join_example :
    parse_line (join cmd_remove (clio.modelo ∷ []) ++ 10 ∷ [])
    ≡ choose cmd_remove (clio.modelo ∷ [])
unfolding str_eq
parse_line-join_example =
    parse_line-join cmd_remove (clio.modelo ∷ [])
      (
        (refl, refl),
        ((refl, refl), ((refl, refl), ((refl, refl), ((refl, refl), ((refl, refl), tt))))),
      )
      (((refl, refl), ((refl, refl), ((refl, refl), ((refl, refl), tt)))), tt) refl
