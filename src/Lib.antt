-- ===== src/Lib.antt =====
-- Chat-Project: a chat server and client in C. Users register and log in at the server, and create,
-- join and leave groups; each group has a multicast address that its members talk over.
--
-- The parts and the files that model them, with the operations in the order of the code:
--   * GenericDLinkedList/LinkedListGeneric.c, DLinkedList.antt: the doubly linked list, as nodes
--     in a memory (`List_Create` is `create`, `List_PushHead` is `push_head` and so on).
--     DLinkedList/Path has chains of nodes that are linked both ways, DLinkedList/Shape which
--     sequence a list holds, DLinkedList/Sequence the same operations on sequences.
--   * GeneticListIter/LinkedListGenericIter.c, ListItr.antt: iterators on that memory
--     (`ListItr_Begin`, `ListItr_End`, `ListItr_Next` and `ListItr_Prev` are `begin`, `end_of`,
--     `step_next` and `step_prev`); ListItr/Gap has insertion and removal at any place of a list.
--   * ListFunction/ListFunctionGen.c, ListFunctions.antt: searching, counting, visiting, sorting,
--     moving and cutting between two iterators (`ListItr_FindFirst` is `find_first` and so on).
--   * ServerTCP/server_tcp.c, TcpServer.antt: the list of the connected clients, which it walks
--     with the iterators; the expiry of clients (`Check_expiry_of_Clients`) and one exchange with
--     a client (`ActionFuncSndRcv`). TcpServer/Turn has `ReceiveAndSend`, `AddClientToTheList` and
--     a turn of `RunServer`, TcpServer/Startup `CreateServer`, `RunServer` and `DestroyServer`,
--     and TcpServer/Serving which clients a server has.
--   * GenericQueue/GenericQueue.c, Queue.antt: a circular buffer (`QueueCreate` is `create`,
--     `QueueInsert` is `insert`, `QueueRemove` is `remove`, `QueueIsEmpty` is `is_empty`,
--     `QueueDestroy` is `destroy`). Queue/Window has the invariant, Queue/Refine the abstract
--     queue, Queue/Stale what happens at an empty queue and at its end.
--   * PoolAddr/PoolMultyCastAdd.c, IpPool.antt: the pool of addresses, a client of the queue
--     (`CreateIP_Multecaste`, `GetIPAddress`, `ReturnIPAddress`, `DestroyIP_Multycaste`).
--   * GenericHash/GenericHash.c, Primes.antt (`CheckIfPrime`, `FindPrimeLargerThan`) and
--     HashMap.antt (`HashMap_Create`, `HashMap_Insert`, `HashMap_Remove`, `HashMap_Find`,
--     `HashMap_Size`, and `HashMap_Destroy` in HashMap/Destroy). HashMap/View says what a map
--     stands for. HashMap/OnList has finding, inserting and removing over the linked lists in
--     memory (`search` is the loop over a chain, `find_slot`, `insert_slot` and `remove_slot` the
--     three functions at one slot), with the two memories, of nodes and of items, side by side;
--     HashMap/OnList/Slot has the calls at a slot, HashMap/OnList/Whole those of the whole table,
--     HashMap/OnList/Foot the addresses that a slot takes up.
--   * Protocol/Protocol.h and Protocol/Protocol.c, Protocol.antt: messages as bytes, `Pack`,
--     `UnPack`.
--   * ServerTCP/server_tcp.c, `m_buffer_rcv`, and the callbacks of ServerDB/DataBase.c,
--     Buffer.antt: the receive buffer and the strings in it.
--   * ServerDB/DataBase.c, DataBase.antt: the users (DataBase/Users), the groups
--     (DataBase/Groups), making and destroying (DataBase/Lifecycle), and sessions of requests
--     (DataBase/Session). DataBase/Stored says how an insertion leaves the keys, DataBase/Keyed
--     how a request leaves the users. It uses two hash maps, one more for each user, and the pool.
--   * ServerApp/ServerApp.c, ServerApp.antt: one request, from the receive buffer to the answer
--     (`GetFromClientAndSendToServer`), over the data base and the protocol.
--   * Client/Client.c, Client.antt: `User_Register` and `User_LogIn`; Client/Groups has
--     `Create_New_Group`, `Join_To_Group` and `Leave_Group_Conversation`, Client/Connect
--     `Connect_User` and `Destroy_Client`. Client/EndToEnd and Client/Chats put the client and the
--     server together.
--   * ClientServerComm/ClientServerComm.c, ClientServerComm.antt: the client's connection
--     (`Init_Client_Net` is `init_client_net`, `ConnectNewClient` is `connect_new_client` and so
--     on).
--   * UI/UI.c, Ui.antt: the dialogue with the user (`RunUI` is `run_ui`, its outer loop `enter`,
--     the menu `menu`), over an interface for the terminal, `malloc` and the client library.
--     Ui/Library fills that interface with Client.antt, Client/Groups and a scripted terminal;
--     Ui/Start has `CreateCommunication`, `Destroy_UI` and `main` of Main/ClientMain.c.
--   * ServerMain/ServerSide.c, ServerMain.antt: `RunServerSide`, which makes the data base and
--     runs the server with it.
--
-- How the C is modelled. A piece of code is a function into `Run`: it returns, does something
-- undefined, or runs out of fuel. A pointer to an object of the heap is a `Ref`: NULL, dangling or
-- live; an object is passed in and comes back changed. The nodes of a linked list and the blocks of
-- the clients are shared, and live in a memory that maps an address to what stands there. Every
-- result of the allocator is an argument, also what stands in a block that is not cleared; `zeroed`
-- and `plenty` are the case of memory that is there and zero. `size_t` and `int` are natural
-- numbers with the wrap-around written out. A chain of a hash map is the sequence of its items,
-- which HashMap/OnList joins with the linked list that lies under it. The server's sockets, its
-- clock, `select`, the descriptor sets and the functions that the application hands in are an
-- interface over a world that no definition looks into. The keys of the maps are pointers: the
-- callbacks get the memory that they read as an argument. What is printed to the terminal is left
-- out.
--
-- Fuel. The search for the size of a table takes as many rounds as the theorems on it say; the
-- tables of the data base have capacity 50 and need 53, so that 60 rounds are enough.
-- `HashMap_Destroy` takes fuel for its inner loop, and the theorems hold for every amount of it.
-- The loops over a linked list, and so the search of a chain in memory, take one step more than
-- there are elements. `RunServer` takes a number of turns. The loops of the dialogue go on as long
-- as the user makes them, and take fuel; the map that `Connect_User` makes has capacity 40 and
-- needs 41 rounds. All else is structural.
--
-- Not modelled: `HashMap_Create` and `HashMap_Destroy` on the linked lists in memory; the signal
-- handler and the descriptor sets as values; senderChat and ListenChat, the two programs of a chat
-- window, which only pass text between a terminal and a socket; RunChat, which does not compile;
-- the older copies of the list and of its functions in GeneticListIter; the tests.
pub mod Prelude
pub mod DLinkedList
pub mod ListItr
pub mod ListFunctions
pub mod TcpServer
pub mod Ui
pub mod ServerMain
pub mod Queue
pub mod IpPool
pub mod Primes
pub mod HashMap
pub mod Protocol
pub mod Buffer
pub mod DataBase
pub mod ServerApp
pub mod ClientServerComm
pub mod Client
