-- ===== src/Lib.antt =====
-- A replicated list of cars: servers that each hold a list and form a chain, and clients that
-- call them over TCP with protobuf messages.
--
-- The parts, from the data outwards, each a file with its laws in the files below it:
--   * Car: source/data.c, include/data.h. A car is the record DataT; `data_create` validates its
--     arguments by `validar_dados`. The price, a float, is its bit pattern.
--   * CarList: source/list.c, include/list.h, include/list-private.h, and `list_get_all` of
--     source/list_skel.c. The nodes are owned by the list alone, so the chain is a list of cars
--     beside the `size` field. CarList/Edit has the changes, CarList/Query the arrays that the
--     list gives out, CarList/Order the bubble sort against the stable sort of CarList/Sorted,
--     CarList/Ending `list_destroy`.
--   * Message: the structs and enums of include/sdmessage.pb-c.h.
--   * Skel: source/list_skel.c. `invoke` is `dispatch` on the opcode, with one definition for
--     each case. Skel/Invariant is about every message and allocator, Skel/Replies about the
--     answers, Skel/Conversion about the cars in them, Skel/Clock and Skel/Steady about the clock
--     and the allocator behind them.
--   * Stub: source/client_stub.c, its functions in Stub/Calls; each `rlist_` call is a request,
--     `send`, and a `read_` of the reply. Stub/Requests compares the requests with Spec,
--     Stub/Remote runs the calls on a server, Stub/Received is what they read in its replies.
--     Stub/Enums, Stub/Close and Stub/Debug have the rest: the conversions of enums, the closing
--     of a socket, the freeing of a model list, and what the debugging functions print.
--   * Wire: source/message-private.c, source/network_client.c, and `network_send` and
--     `network_receive` of source/network_server.c. Wire/Writes, Wire/Reads and Wire/Short have
--     the loops, Wire/Frames the frames, Wire/Exchange both ends of a connection, Wire/Dialing
--     the system calls that open it.
--   * Chain: source/chain_server.c. Chain/Choice is who is next to whom, Chain/Transfer how a
--     server that joins gets its list, Chain/Address the address it registers, and Chain/Start
--     `zoo_init_server`, the watchers and `zoo_clean_server`.
--   * ChainClient: source/chain_client.c; ChainClient/Ends is which servers are head and tail,
--     ChainClient/Start `zoo_init_client`, the watchers and `zoo_clean_client`, ChainClient/Node
--     `get_node_data`.
--   * Client: the lines that source/list_client.c reads as commands; Client/Session is what each
--     command does, Client/Main the loop and `main`. Client/Session/Link is what a client relies
--     on behind a connection, an interface that Client/Session/Ends fills for the head and the
--     tail of a chain; Client/Session/Makes is which request a command makes and what is printed
--     for an answer, Client/Session/Told, Client/Session/Written and Stub/Replied lead from one
--     to the other, and Client/Session/Reading is about clients at both ends.
--   * Server: the loop of `client_thread` in source/network_server.c. Server/Replicas is a write
--     on one server, Server/Chain a write on a chain of them, in which each serves the message
--     that the one before it forwards, Server/Chain/Broken a write where a link is down,
--     Server/Chain/Reads the requests that are not forwarded. Server/Stock is a list up to the
--     order between years, a quotient, Server/Stock/Removal a deletion in it, Server/Stock/Offers
--     the service over it, and Server/Chain/Stocked a chain that gets requests at any of its
--     servers. Server/Session is a connection over its socket, Server/Session/Calls both ends of
--     it, Server/Locking the threads of connections around lock_list and rls_lock as a relation
--     of steps, Server/Locking/Exclusion that the lock keeps them apart, Server/Locking/Serial
--     that they serve one after the other, and Server/Locking/Chained and Server/Locking/Replicas
--     what they keep true at the head of a chain. Server/Log is the server's log in the same
--     source, with the shared queue as a relation of steps, Server/Clients the table of clients,
--     Server/Threads `network_main_loop` and its threads as a relation of steps. Server/Joining
--     is what happens between two servers while one of them joins, with the locks in
--     Server/Joining/Locks. Server/Main is source/list_server.c, with the opening and the closing
--     of the network.
--   * Spec: what the service promises, as a relation between cars, a request, an answer and the
--     cars afterwards. It models no code.
--   * Base, Sys and CLib: shared helpers; the allocator and the clock; C's functions on strings.
--   * Tests: sample values, and the results below at concrete inputs.
--
-- State. Sys holds the outcomes of the coming allocations, the number of live blocks and the year
-- of the clock; functions that allocate are state passing over it (M), functions that also use
-- the network are state passing over a pair of it and of the world outside (State). A pointer
-- that may be NULL is an Option. A NULL dereference is `crash` of Run. Numbers of type int are
-- the exact integers of Base/Int: the model does not wrap the size of a list or a year. The enums
-- are the unsigned ints of 32 bits that they are stored in.
--
-- Parameters. protobuf-c's packing and unpacking, ZooKeeper's client library (the record
-- ZooKeeper of Chain/Start, or `zoo_get` alone), the sockets' system calls (as scripts of events
-- or results), the interfaces and the host's name, and between the components the calls of one by
-- the other: the stub has `network_send_receive` as `send`, the chain has the stub's connection,
-- `main` of the server has its parts as the record Parts.
--
-- Fuel. `order_loop` runs on one round more than there are inversions, which is enough as each
-- round that swaps removes one. `read_loop` runs on one round for each event and two more, which
-- is enough unless the stream ends while errno is EINTR: then no number of rounds is.
-- `client_loop` runs on fuel that stands for the life of the connection: a round answers one
-- request, whatever fuel is left. `main_loop` of the client runs on a round for each call of
-- `fgets`; as many rounds as there are calls up to the last are enough. `digits` runs on one more
-- than the number that is printed.
--
-- Not modelled: the text that is printed for a person; the look-up of a host's name; the paths
-- and node data that overrun the buffers of `update_remote_list`; the handlers of SIGINT beyond
-- the flag that they set; what others do behind a successor while a thread forwards to it, whose reply
-- comes in one step or never; the freeing that protobuf-c does; a request to remove with n_models
-- 1 and models NULL, which unpacking does not give; the generated source/sdmessage.pb-c.c.
pub mod Base
pub mod Sys
pub mod Car
pub mod CarList
pub mod Message
pub mod Skel
pub mod CLib
pub mod Stub
pub mod Spec
pub mod Wire
pub mod Chain
pub mod ChainClient
pub mod Client
pub mod Server
pub mod Tests
