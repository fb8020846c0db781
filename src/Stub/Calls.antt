-- ===== src/Stub/Calls.antt =====
-- The functions of include/client_stub.h, from source/client_stub.c: each sends its request over the
-- connection and reads the reply.
use list_server.Base.{
  ℕ, Bool, not, ◌||◌, Option, none, some, List, [], if◌then◌else◌, CStr, ℤ, pos, minus_one, ◌==ℤ◌,
  int_of_enum, ltb_ℤ,
}
use list_server.CLib.{split_at, atoi}
use list_server.Sys.{Sys, State, pure, ◌>>=◌, ◌>>◌, malloc, free}
use list_server.Car.{DataT}
use list_server.Message.{MessageT}
use list_server.Stub.{
  Run, ret, RList, local, outside, marca_to_proto, combustivel_to_proto, add_request, del_request,
  get_request, year_request, size_request, models_request, read_add, read_del, read_get, read_year,
  read_order, read_size, read_models,
}

-- `connect` is `network_connect`: the structure with its socket, or `none` where it returns -1.
module _ {W : Type 0} (connect : RList → State W (Option RList)) where
  unfoldable pub rlist_connect : Option CStr → State (Sys × W) (Option RList)
  rlist_connect none = pure none
  rlist_connect (some address_port) = do
    copied ← local malloc
    if not copied then pure none else elim (split_at b':' address_port) [
      | none ↦ do local free; pure none
      | some (hostname, port_str) ↦
          let port = atoi port_str in
          if not (ltb_ℤ (pos 0) port) then (do local free; pure none) else do
            given ← local malloc
            if not given then (do local free; pure none) else do
              named ← local malloc
              local free
              if not named then (do local free; pure none) else do
                rlist ← outside (
                    connect
                      (record { server_address = hostname; server_port = port; sockfd = pos 0 }))
                elim rlist [ none ↦ do local free; local free; pure none | some r ↦ pure (some r) ]
    ]

-- `close` is the system call on the socket, which may fail; both blocks are freed all the same.
module _ {W : Type 0} (close : ℤ → State W Bool) where
  unfoldable pub rlist_disconnect : Option RList → State (Sys × W) ℤ
  rlist_disconnect none = pure minus_one
  rlist_disconnect (some r) = do
    closed ← outside (close r.sockfd)
    local free
    local free
    if closed then pure (pos 0) else pure minus_one

-- The calls. `send` is `network_send_receive`, and `none` its NULL.
module _ {W : Type 0} (send : RList → MessageT → State W (Option MessageT)) where
  unfoldable pub rlist_add : Option RList → Option DataT → State (Sys × W) ℤ
  rlist_add none car = pure minus_one
  rlist_add (some r) none = pure minus_one
  rlist_add (some r) (some car) =
      let marca = marca_to_proto (int_of_enum car.marca) in
      let combustivel = combustivel_to_proto (int_of_enum car.combustivel) in
      if marca ==ℤ minus_one || combustivel ==ℤ minus_one then pure minus_one else do
        copied ← local malloc
        if not copied then pure minus_one else do
          res ← outside (send r (add_request car marca combustivel))
          local free
          pure (read_add res)

  unfoldable pub rlist_remove_by_model : Option RList → Option CStr → State (Sys × W) (Run ℤ)
  rlist_remove_by_model none modelo = pure (ret minus_one)
  rlist_remove_by_model (some r) none = pure (ret minus_one)
  rlist_remove_by_model (some r) (some modelo) = do
    copied ← local malloc
    if not copied
        then pure (ret minus_one)
        else do res ← outside (send r (del_request modelo)); local free; pure (read_del res)

  unfoldable pub rlist_get_by_marca : Option RList → ℕ → State (Sys × W) (Run (Option DataT))
  rlist_get_by_marca none marca = pure (ret none)
  rlist_get_by_marca (some r) marca =
      let pb = marca_to_proto (int_of_enum marca) in
      if pb ==ℤ minus_one
      then pure (ret none)
      else do res ← outside (send r (get_request pb)); local (read_get res)

  unfoldable pub rlist_get_by_year : Option RList → ℤ → State (Sys × W) (Run (Option (List DataT)))
  rlist_get_by_year none ano = pure (ret none)
  rlist_get_by_year (some r) ano = do
    res ← outside (send r (year_request ano))
    local (read_year res)

  unfoldable pub rlist_order_by_year : Option RList → State (Sys × W) (Run (ℤ × List DataT))
  rlist_order_by_year none = pure (ret (minus_one, []))
  rlist_order_by_year (some r) = do
    res ← outside (send r (year_request minus_one))
    local (read_order res)

  unfoldable pub rlist_size : Option RList → State (Sys × W) ℤ
  rlist_size none = pure minus_one
  rlist_size (some r) = do res ← outside (send r size_request); pure (read_size res)

  unfoldable pub rlist_get_model_list :
      Option RList → State (Sys × W) (Run (Option (List (Option CStr))))
  rlist_get_model_list none = pure (ret none)
  rlist_get_model_list (some r) = do res ← outside (send r models_request); local (read_models res)
