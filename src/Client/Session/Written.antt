-- ===== src/Client/Session/Written.antt =====
-- What source/list_client.c prints for a command that adds or removes a car, when there is a reply.
use list_server.Base.{
  ℕ, ◌≡◌, Option, some, List, arith, CStr, ℤ, pos, ◌==ℤ◌, if◌then◌else◌, enum_of_int-pos, ◌<◌, ◌^◌,
}
use list_server.Sys.{Sys, State, NeverFails}
use list_server.Car.{DataT, ano_atual, data_create}
use list_server.Car.Laws.{IsValid, data_create_valid}
use list_server.Message.{MessageT}
use list_server.Spec.{Request, Answer, Serves}
use list_server.Stub.{ret, RList, add_request, del_request, read_add, read_del, op_success}
use list_server.Stub.Requests.{request, reply_to}
use list_server.Stub.Replied.{rlist_remove_by_model_replied, rlist_add_replied}
use list_server.Client.{Command}
use list_server.Client.Session.{added, not_added, say_removed, run_add, run_command}
use list_server.Client.Session.Makes.{told}

pub small :
    (c : DataT) → {year : ℤ} → IsValid year c → (c.marca < 2 ^ 32) × (c.combustivel < 2 ^ 32)
small c v = ground (arith, v)

module _ {W : Type 0} (strtof : CStr → ℕ) (send : RList → MessageT → State W (Option MessageT))
    (rh : RList) (rlt : Option RList) (s : Sys) (w x : W) (up : NeverFails s) where
  -- A command that writes prints this and leaves the world `x`.
  abbrev Writes : Command → Answer → Type 0
  Writes command a =
      let out = run_command strtof send (some rh) rlt command (s, w) in
      (out.0 ≡ ret (told command a)) × (out.1.1 ≡ x)

  abbrev Given : Request → Answer → Type 0
  Given q a = send rh (request q) w ≡ (some (reply_to (request q) a), x)

  pub del-Writes :
      (m : CStr) (a : Answer) {year : ℤ} {cs ds : List DataT}
      → Serves year cs (Request.del m) a ds
      → Given (Request.del m) a
      → Writes (Command.remove m) a
  unfolding run_command say_removed read_del del_request
  del-Writes m _ (Serves.del_first _ c h) e =
      ground (arith, rlist_remove_by_model_replied send rh s w x _ m up e)
  del-Writes m _ (Serves.del_none _ h) e =
      ground (arith, rlist_remove_by_model_replied send rh s w x _ m up e)

  code-Writes :
      (c : DataT) (preco_s : CStr) (resp : MessageT)
      → IsValid (ano_atual s) c
      → strtof preco_s ≡ c.preco
      → send rh (request (Request.add c)) w ≡ (some resp, x)
      → let typed = Command.add c.modelo c.ano preco_s (pos c.marca) (pos c.combustivel) in
        let out = run_command strtof send (some rh) rlt typed (s, w) in
        (out.0 ≡ ret (if read_add (some resp) ==ℤ pos 0 then added else not_added)) × (out.1.1 ≡ x)
  unfolding run_command run_add
  code-Writes c preco_s resp valid price e =
      let t = (data_create c.ano c.preco c.marca (some c.modelo) c.combustivel s).1 in
      let made = data_create_valid s c valid up in
      let m = enum_of_int-pos c.marca (small c valid).0 in
      let f = enum_of_int-pos c.combustivel (small c valid).1 in
      let replied = rlist_add_replied send rh t w x resp c made.1 valid e in
      ground (arith, price, m, f, made, replied)

  pub add-Writes :
      (c : DataT) (preco_s : CStr) (a : Answer) {year : ℤ} {cs ds : List DataT}
      → IsValid (ano_atual s) c
      → strtof preco_s ≡ c.preco
      → Serves year cs (Request.add c) a ds
      → Given (Request.add c) a
      → Writes (Command.add c.modelo c.ano preco_s (pos c.marca) (pos c.combustivel)) a
  unfolding read_add add_request op_success
  add-Writes c preco_s _ valid price (Serves.add_valid _ v) e =
      code-Writes c preco_s _ valid price e
  add-Writes c preco_s _ valid price (Serves.add_invalid _ bad) e =
      code-Writes c preco_s _ valid price e
