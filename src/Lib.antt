-- ===== src/Lib.antt =====
-- The verification library of Grupo4, two distributed programs in Go and some exercises.
--
-- BancoReplicado is a replicated document store. A node keeps tables in a bbolt file; a table is a
-- RaftTable, which stores plain documents, or a CRDTTable, which stores mergeable documents that the
-- nodes send to each other and merge. ricart_agrawala is a group of processes that enter a critical
-- section one at a time, by Lamport timestamps and replies. problemas holds small
-- servers and clients.
--
--   Prelude                  shared names, lists over native numbers, Go's int and int64 with their
--                            wrap-around (Prelude/Int), Go's maps (Prelude/GoMap), its packages
--                            strings and strconv over bytes (Prelude/Bytes, Prelude/Numerals), and
--                            %d of fmt over texts (Prelude/Text)
--   Crdt/Hlc                 BancoReplicado/crdt/crdt.go: HLC, Increment, Cmp, Merge
--   Crdt/MergeableString     the register: Merge
--   Crdt/MergeableMap        the document: NewMergeableMap, clone, Put, Remove, SetDeleted, Get, Len,
--                            and in MergeableMap/Merge Merge and mergeTombstones. MergeableMap/Cells
--                            is the abstract view: what a replica says of one key, and the join
--   Crdt/Wire                ToPB and FromPB, and the messages of BancoReplicado/pb/rpc.pb.go
--   BancoReplicado/Exec      an error, a panic or a value, over a state
--   BancoReplicado/Store     bbolt and encoding/json as parameters, with the laws that are used;
--                            Store/Memory is an instance, for the runs
--   BancoReplicado/Transaction   what a table's method reads and changes
--   BancoReplicado/CrdtTable     BancoReplicado/crdt_table.go: the methods of CRDTTable
--   BancoReplicado/RaftTable     BancoReplicado/raft_table.go
--   BancoReplicado/Database      BancoReplicado/db_util.go: tables, created, found and deleted
--   BancoReplicado/Replication   BancoReplicado/crdt_table.go and rpc.go: the queues of states for the
--                            other nodes, and the synchronisation with a node
--   BancoReplicado/Rpc       BancoReplicado/rpc.go: MergeCRDTStates
--   BancoReplicado/Instance  BancoReplicado/main.go and crdt_table.go: an instance, its timer
--   BancoReplicado/Http      BancoReplicado/http.go: the handlers for tables, documents, listings and
--                            the synchronisation, and the switches
--   BancoReplicado/Launch    BancoReplicado/main.go: the flags, RunInstance and main
--   BancoReplicado/Listeners     BancoReplicado/http.go: the events for the WebSocket connections
--   RicartAgrawala/Utils, Message, Queue, Counter    ricart_agrawala/utils.go, message.go, queue.go,
--                            counter.go
--   RicartAgrawala/Process   ricart_agrawala/process.go and ricart_agrawala.go
--   RicartAgrawala/Handling  ricart_agrawala/ricart_agrawala.go: handleRequest, taken apart at its
--                            accesses to the process. Handling/Stages puts them together again,
--                            Handling/Races has what two goroutines do to each other
--   RicartAgrawala/System    the group of processes when messages are handled at once:
--                            runRicartAgrawala, enterOnCriticalSection, leaveCriticalSection,
--                            sendPermissionToAllProcesses and handleRequest as steps of n processes,
--                            from the end of startProcess on. System/Tally
--                            and System/Views count what the lists of a process hold,
--                            System/Invariant says what every reached state has, with
--                            System/Phases, System/Quiet, Moving, Awaiting, Asking, Sending and
--                            Answering are the steps of one process, System/Delivering to
--                            System/Handled a delivery, System/Reached the runs, System/StartUp what
--                            startProcess makes of the register server's list, System/Entering and
--                            System/Waiting a process that waits, for replies or for permissions
--   RicartAgrawala/Shared    the group of processes with the goroutines of each, and the runs that a
--                            lock in each process would allow. Shared/Settled, Shared/Replayed and
--                            Shared/Atomic go from these runs to those of System and back,
--                            Shared/Runs has what follows
--   RicartAgrawala/Register  ricart_agrawala/server/main.go: the register of addresses
--   RicartAgrawala/CriticalRegion    ricart_agrawala/server_critical_region/main.go, and the message
--                            that process.go sends to it
--   RicartAgrawala/Main      ricart_agrawala/main.go: three processes, with the register server
--   Exercises/Retirement, Salary, Category, Credit    problemas/ex7, ex1, ex5 and ex8 (main.go): a
--                            server and its client each
--   Exercises/Payroll        problemas/ex6 and ex4 (main.go): a net salary, an ideal weight
--
-- A Go map is an association list, whose order stands for the order of `range`. A call of
-- time.Now() takes the next reading of a stream. A method that panics has an outcome of its own. What a
-- `go` statement starts is a list of calls to come. Waiting for the replies is a step that fails while
-- there is no signal. The loop of replyAllEnqueuedRequests runs on fuel, one more than the length of the
-- queue, which is the number of its tests; the loop of BancoReplicado's main on nodeCount, the number of
-- its rounds.
--
-- The goroutines of a Ricart-Agrawala process share it without a lock around handleRequest. In
-- RicartAgrawala/Shared they interleave at each access. The results on the critical section are about
-- the runs that `Locked` allows: a process takes no step of its own while it is handling a message, and
-- handles one message after the other. The code has no such lock; Handling/Races is about what the
-- goroutines do to each other without it.
--
-- The system of RicartAgrawala/System interleaves the calls of the main loop with the goroutines of a
-- multicast and with messages that arrive in any order, more than TCP's order per connection allows.
-- A message waits in its sender's list under the index of its channel, and goes to the process whose
-- address has that index; the register server lists the addresses in another order for every process.
-- A step needs every clock three below the greatest int, since the clock wraps around there.
--
-- A transaction of bbolt is all or nothing: an error or a panic leaves the store as it was, and a commit
-- does not fail. In http.go, PUT and PATCH of a document send their event before the commit, which makes
-- no difference then. A synchronisation with a node is three transactions: what other goroutines do to
-- the store in between is a parameter. The send of an event is taken at once, but in
-- BancoReplicado/Listeners, which is about the goroutine that takes them.
--
-- proto.Marshal of a state is a parameter, and the answer of a remote call is an argument. A number
-- of a node is written with at most 20 digits, which a uint64 fits.
--
-- Not modelled: sockets, gRPC, the router, the WebSocket's protocol, and the log; the locks of
-- BancoReplicado, whose methods run one at a time, but for the lock of the WebSocket listeners; the
-- generated code; the clients in Python and the exercises in problemas-rpc; the loops that accept
-- connections. A document that a RaftTable is given is not nil. A CRDTTable that Database.ForEach
-- hands to its callback has no Instance, which matters to a write only.
pub mod Prelude
pub mod Crdt
pub mod BancoReplicado
pub mod RicartAgrawala
pub mod Exercises
