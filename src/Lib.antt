-- ===== src/Lib.antt =====
-- The two larger programs of the repository, and what is proved of them.
--
-- home_exam is a routing server and its nodes. Each node tells the server its address, its neighbors
-- and the weights of its edges. The server marks the edges whose two reports do not fit
-- (routing_server/src/validation.c), builds the adjacency matrix without them (adjacency_matrix.c),
-- finds the shortest routes from the node with address 1 (dijkstra.c), turns the routes into a routing
-- table for each node (route.c) and sends the tables, translated from indices to addresses
-- (routing_server_communication.c). The nodes then send packets along these tables
-- (node/src/node_communication.c).
--
-- obligatory_assignment keeps an array of routers with flags, a model and up to ten neighbors each. It
-- reads the array from a binary file (src/binary_file.c), changes it by one command or the commands of a
-- file (src/command.c on src/router.c and src/utils.c) and writes it back (src/router_operation.c).
--
-- The files, and the code that each models:
--
--   Base and below        lists, options, Boolean tests and signed integers over native numbers;
--                         swap_remove is the deletion that puts the last element in the hole, Words the
--                         integers in memory, Text the texts of C, and Outcomes how a call ends: with
--                         success, with EXIT_FAILURE, or in what C leaves undefined.
--   RoutingServer/Network           home_exam/utils/include/common.h (Node, Edge, EdgeArray,
--                         RoutingTable, IndexToAddress), getIndexFromAddress of utils/src/common.c.
--   RoutingServer/Validation        validation.c; below it Reports (the specification by the list of
--                         all reports), Invalid, Counters, Invariant, Correct, Tests.
--   RoutingServer/AdjacencyMatrix   adjacency_matrix.c; Correct says what stands in each place.
--   RoutingServer/Dijkstra          dijkstra.c (getMinDistanceIdx, registerRoute, dijkstra); below it
--                         the parts of the proof: MinDistance, Neighbors, Relax, Routes, Walk (walks, their
--                         weights, the specification), Invariant, Round, Overflow (the sums), Correct.
--   RoutingServer/RoutingTables     createRoutingTableArray of route.c and
--                         translateTableFromIdxToAddress; below it Rows, Complete and Unique,
--                         on the rows of the tables, and Edges (printEdges).
--   Sockets               receiveNBytesMessage and sendMessage of home_exam/utils/src/common.c.
--   RoutingServer/Communication     populateNodeArray and sendRoutingTables of
--                         routing_server_communication.c, on connections that are lists of bytes, and
--                         the allocations of utils/src/dynamic_memory.c that they ask for.
--   RoutingServer/Server            main of routing_server.c, from the connections that are accepted to
--                         what is sent on them (run_server), and from the nodes to the tables (serve);
--                         Weights and Symmetric are on the matrix that main makes, Correct joins the
--                         check, the routes and the tables.
--   RoutingServer/Memory            allocateRoutingServer and freeRoutingServer of utils/src/dynamic_memory.c,
--                         on pointers; Release and Granted say what is allocated and released.
--   Node/Messages         sendEdgeInformation and receiveRoutingTable of node_communication.c.
--   Node/Sender           prepareAndSendPackets; Lines has the messages of a file, Sends says what is
--                         sent of them.
--   Node/Parser           parseNodes of node_parser.c.
--   Node/Program          main of node.c, behind the opening of the sockets (run_node).
--   Exchange              the messages of the nodes against those of the server: Registration (the
--                         reports), Delivery (the tables, and the whole run of the server).
--   Node/Packet           extractLengthDestinationAndMessage, createPacket, sendUDPPacket and
--                         receiveAndForwardPackets of node_communication.c; RoundTrip and Hops.
--   Router                obligatory_assignment/include/router.h, and findRouterId and
--                         findFreeNeighbor of router.c; below it Slots (the neighbors as a list), Links
--                         (addLink), Model (setModel), Deletion (deleteRouter), Flags (setFlag,
--                         printRouter and the bits of utils.c) and Search (DFS, existsRoute).
--   BinaryFile            readBinaryFile and writeBinaryFile of binary_file.c, on lists of bytes; below it
--                         RoundTrip with its parts, and Compact (the slots of what is read).
--   Command               getCommand and runCommand of command.c (get_command, run_command); below it
--                         Program (main of router_operation.c), Words (the text of a command), Routes
--                         (exist_route), Invariant (the runs of command lines as a relation), Kept and
--                         Stored (what holds at the end of a run).
--
-- How the code is modelled. A C array with its count of used elements is a list, and the capacity a
-- number beside it. A function that changes its arguments takes the state and returns the new one;
-- one that returns EXIT_FAILURE is `none` where its callers give up, and a status with the state
-- where the state is read afterwards. The commands, the parser and the sending of a node, and
-- dijkstra, where C can leave the behavior undefined, end in one of three outcomes. Loops are
-- recursion on what is left of the list. Two loops are not: the search of existsRoute uses up a
-- slot of its array with each call, so N + 1 levels of calls are enough, which
-- Router.Search.Returns proves; dijkstra makes one round for each node, as the code counts them.
--
-- Bounds. Router ids and neighbors are bytes and neighbor slots that hold -1 are empty; the
-- arguments that the code takes as `int` are integers here, and a conversion to `unsigned char` or
-- `unsigned short` is written out modulo 2 ^ 8 or 2 ^ 16. Addresses, indices and weights of the
-- network are numbers of at least 0. Where dijkstra.c forms a sum above INT_MAX, which C leaves
-- undefined, the outcome of dijkstra is undefined too, and what the definitions of main deliver is
-- `none`; Dijkstra/Overflow has the bound on the weights under which no sum is. The length of a
-- packet wraps at 2 ^ 16, and a message that is copied beyond the block of such a packet makes the
-- outcome of the sending undefined. Shorts in a packet are in network order; the integers of the
-- TCP messages are four bytes each, the least significant first, as on the machine, and a theorem
-- on a message asks for numbers that fit in an `int`.
--
-- Parameters. Whether malloc, calloc, realloc or strdup gave memory is a Boolean argument or a
-- function of the size or of the call; send, recv and sendto are functions that the definitions
-- take, so is the atoi of the packets. Nothing is assumed of them but in the hypotheses of a
-- theorem. Base/Text has what the programs use of strcmp, strtok_r, atoi, getline and snprintf.
--
-- Not modelled: the opening of sockets and files, the messages on the terminal apart from those of
-- printRouter and printEdges, the release of memory but that of the routing server, the reading of
-- argv by the programs of home_exam, and the exercises beside the two programs: the definitions
-- stop at the functions named above.
pub mod Base
pub mod Router
pub mod BinaryFile
pub mod RoutingServer
pub mod Sockets
pub mod Node
pub mod Exchange
pub mod Command
