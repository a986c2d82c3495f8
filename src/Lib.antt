-- ===== src/Lib.antt =====
-- deCONZ: the serial link to the Zigbee coprocessor, the queue of commands above it, what a node
-- still has to be asked for, and the thread of the HTTP server that relays TLS clients.
--
-- The program talks to a coprocessor over a serial port. A request becomes a command in the queue
-- of src/zm_master.cpp, which sends at most two before one is confirmed. A command
-- (src/common/zm_protocol.c) is printed into bytes, queued by the connection and framed
-- (src/common/protocol.c), and written to the port by the connection
-- (src/zm_master_com_serial.cpp). What the port delivers goes the other way: it is read into a
-- buffer, unframed, checked, parsed, and handed to the packet handler. Above the link each node
-- (src/zm_node.cpp) keeps what has been fetched from it, what is to be fetched next, and a table
-- of its neighbors, out of which routes are made (src/source_routing.cpp).
--
-- Prelude: the shared names, tests and lemmas on lists.
-- BufferHelper: deconz/buffer_helper.h, which lies in a submodule. Its stores and loads are a
--   parameter, and that they are little endian is a hypothesis, met by `little_endian`.
-- Protocol: src/common/protocol.c. A device slot is `Device`; protocol_init, protocol_add and the
--   other functions keep their names; Protocol/Output sends and Protocol/Input receives. `pGetC` and
--   `pIsC` read a list of bytes, `pPutC` and `pPacket` are returned. `receive_byte` is one round of
--   the loop of protocol_receive_flagged.
-- Command: src/common/zm_protocol.c and zm_protocol.h. `Command` is zm_command with its union as
--   memory; `buffer2command` in Command/Decode and `command2buffer` in Command/Encode are
--   zm_protocol_buffer2command and zm_protocol_command2buffer.
-- Serial: src/zm_master_com_serial.cpp as built with USE_QSERIAL_PORT. `Com` is SerialComPrivate
--   with the file's static send queue; Serial/Txq has the TXQ functions, Serial/Receive rx,
--   readyRead and checkBootloader, Serial/Connection opening, closing and the time-outs. What the
--   port answers is an argument; signals, timers and writes are events that are returned.
-- Master: src/zm_master.cpp. `Master` is zm_master with the statics of the file; the QItem and
--   QAPS functions, the requests, timers and handlers keep their names. Master/Items has the
--   operations on items, Master/Ring the ring of APS request ids, Master/Queue how a command is
--   queued, Master/Send, Master/Timeouts and Master/Kill what happens to it, Master/Requests the
--   functions that queue one, Master/Tasks and Master/Timer the timers, Master/Packets/Status and
--   Master/Packets/Cases the responses, and Master/Machine histories of all of them. The clock,
--   whether the application is connected and the result of SerialCom::send are arguments; signals
--   are returned in order, and what their receivers call in turn are further calls of a history.
-- Engine: src/zm_master.cpp over src/zm_master_com_serial.cpp. `transmit` is sendNextCommand with
--   the SerialCom::send that it calls; Engine/Answered follows a request to the port and a response
--   back.
-- HttpServer: src/zm_http_server.cpp. HttpServer.antt has the ring between the threads (queuePut
--   to queueSpaceForWords), getClientForHandle and httpThreadFunc, a round of its loop as
--   `thread_round`; HttpServer/Fifo is about the ring, HttpServer/Sockets about the sockets that are
--   held, HttpServer/Turns about the order of service, HttpServer/Handles about the handles of
--   clients and HttpServer/Stop about the destructor. The results of the socket library and of the
--   lock are arguments, one record for each round.
-- MacAddress: generateUniqueId2 of src/zm_controller.cpp, which writes the address of a node for
--   the database, and DB_ParseMacAddress of src/db_nodes.cpp, which reads it, with strtoull of base
--   16.
-- Node: src/zm_node.cpp, zm_node.h, zm_neighbor.cpp and zm_neighbor.h. Node/Need has needFetch,
--   setFetched and retryIncr, Node/Order nextCurFetchItem, Node/Endpoints the endpoints,
--   Node/Neighbors the neighbor table, Node/Lqi the parser of src/zm_neighbor.cpp. RequestId,
--   Address and Node lie in a submodule: the ids are a parameter, and what is read of the others is
--   a record.
-- Routing: src/source_routing.cpp. Routing.antt has the trash of removed routes and the searches in
--   the list of routes, Routing/Extend the part of calculateRouteForNode that adds a route, and
--   Routing/Extended when it does. SourceRoute lies in a submodule; what is read of it is a record.
--
-- Bounds: positions of the send queue wrap at 256, those of the ring of the HTTP server at 2^32,
-- the checksum at 65536, dependencies at 2^32; clocks and retry counters are taken not to
-- overflow. The loop of `rx` has as many rounds as there are unread bytes, since a call on an open
-- slot reads one at least; the loop of nextCurFetchItem has as many rounds as there are ids behind
-- the current one, and that of removeOutdatedNeighbors as many as there are neighbors, one of
-- which each round passes or removes. A search for a sequence number tries 33, one more than the
-- queue can use. Memory that the program leaves uninitialised is an argument, and zero for the
-- buffers of a new connection. A write behind the receive buffer shows as a longer memory, and a
-- memcpy from behind the union of a command gives zeros, as many as it asks for.
--
-- Not modelled: the user interface, the rest of the controller, what the program does with the
-- contents of a response, the choice and removal of source routes, the wait state of a node, the
-- configuration and cache of the HTTP server, the HTTP client, the rest of the database, the poll
-- thread of the build without QSerialPort, and logging.
pub mod Prelude
pub mod Protocol
pub mod BufferHelper
pub mod Command
pub mod Serial
pub mod Node
pub mod Routing
pub mod Master
pub mod Engine
pub mod HttpServer
pub mod MacAddress
