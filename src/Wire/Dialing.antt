-- ===== src/Wire/Dialing.antt =====
-- The socket of `network_connect` in source/network_client.c: `socket`, `inet_pton` and `connect`.
use list_server.Base.{◌≡◌, ◌⊎◌, false, List, [], ◌∷◌, arith, ℤ, pos, ltb_ℤ, pos_part, if◌then◌else◌}
use list_server.Wire.{Dial, refused, connected}

-- The results of the system calls.
pub record Dialing : Type 0 where
  pub socket : ℤ
  pub inet_pton : ℤ
  pub connect : ℤ

-- What comes of them, and the descriptors that are closed.
unfoldable pub dial : Dialing → Dial × List ℤ
dial calls =
    if ltb_ℤ calls.socket (pos 0)
    then (refused, [])
    else if ltb_ℤ calls.inet_pton (pos 1)
    then (refused, calls.socket ∷ [])
    else if ltb_ℤ calls.connect (pos 0)
    then (refused, calls.socket ∷ [])
    else (connected (pos_part calls.socket), [])

-- A socket that was opened is closed again, or both calls went well and it is connected.
dial-cases :
    (calls : Dialing)
    → ltb_ℤ calls.socket (pos 0) ≡ false
    → (dial calls ≡ (refused, calls.socket ∷ []))
      ⊎ ((dial calls ≡ (connected (pos_part calls.socket), []))
          × (ltb_ℤ calls.inet_pton (pos 1) ≡ false)
          × (ltb_ℤ calls.connect (pos 0) ≡ false))
unfolding dial
dial-cases calls h = ground (arith, h)
