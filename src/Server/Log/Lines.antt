-- ===== src/Server/Log/Lines.antt =====
-- The lines of `write_in_server_log` in source/network_server.c: when it does not come back.
use list_server.Base.{ℕ, ◌≡◌, ◌↔◌, Option, none, some, List, [], ◌∷◌, arith, CStr}
use list_server.Sys.{Sys}
use list_server.Message.{MessageT, op_del}
use list_server.Skel.{first_model}
use list_server.Stub.{crash}
use list_server.Server.Log.{EventType, Entry, Queue, deleted_line, entry_of, write_in_server_log}

deleted_line_lem :
    (e : EventType) (msg : MessageT) (models : Option (List CStr))
    → (deleted_line e msg models ≡ crash) ↔ (first_model models ≡ none)
unfolding deleted_line first_model
deleted_line_lem e msg none = ground arith
deleted_line_lem e msg (some []) = ground arith
deleted_line_lem e msg (some (m ∷ ms)) = ground arith

entry_of_lem :
    (e : EventType) (msg : MessageT)
    → (entry_of e (some msg) ≡ crash) ↔ ((msg.opcode ≡ op_del) × (first_model msg.models ≡ none))
unfolding entry_of
entry_of_lem e msg = ground (arith, deleted_line_lem e msg msg.models)

module _ (render : ℕ → CStr → Entry → CStr) where
  -- `write_in_server_log` dereferences NULL exactly for an OP_DEL without models, whatever the
  -- allocator does; the time of the day is to be had.
  pub write_in_server_log-crash :
      (ts : ℕ) (addrbuf : CStr) (e : EventType) (msg : MessageT) (queue : Queue) (s : Sys)
      → ((write_in_server_log render (some ts) addrbuf e (some msg) queue s).0 ≡ crash)
        ↔ ((msg.opcode ≡ op_del) × (first_model msg.models ≡ none))
  unfolding write_in_server_log
  write_in_server_log-crash ts addrbuf e msg queue s = ground (arith, entry_of_lem e msg)
