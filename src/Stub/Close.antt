-- ===== src/Stub/Close.antt =====
-- network_close of source/network_client.c, and rlist_free_model_list of source/client_stub.c.
use list_server.Base.{
  ◌≡◌, inl, inr, Bool, Option, none, some, arith, if◌then◌else◌, CStr, ℤ, pos, minus_one, ltb_ℤ,
  Bool-cases,
}
use list_server.Sys.{M, State, pure, ◌>>=◌}
use list_server.CarList.{Array, list_free_model_list}
use list_server.Stub.{RList}

-- `close` is the system call. The result, and the structure, whose socket is then -1.
module _ {W : Type 0} (close : ℤ → State W Bool) where
  unfoldable pub network_close : Option RList → State W (ℤ × Option RList)
  network_close none = pure (minus_one, none)
  network_close (some r) = if ltb_ℤ r.sockfd (pos 0) then pure (pos 0, some r) else do
    closed ← close r.sockfd
    pure (if closed then pos 0 else minus_one, some (record r { sockfd = minus_one }))

  -- A socket is closed once: a second call returns 0 and touches nothing.
  network_close_twice :
      (r : RList) (w : W)
      → let out = network_close (some r) w in
        network_close out.0.1 out.1 ≡ ((pos 0, out.0.1), out.1)
  unfolding network_close
  network_close_twice r w = elim (Bool-cases (ltb_ℤ r.sockfd (pos 0))) [
    | inl shut ↦ ground (arith, shut)
    | inr open_ ↦ ground (arith, open_)
  ]

unfoldable pub rlist_free_model_list : Option (Array CStr) → M ℤ
rlist_free_model_list models = list_free_model_list models
