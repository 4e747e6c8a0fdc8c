-- ===== src/Lib.antt =====
-- libcomm: a C library for TCP, UDP, UNIX, raw, netlink, FIFO and UART communication, in which
-- each endpoint is a heap-allocated context, an open descriptor and a thread that hands what
-- arrives to a callback of the application.
--
-- What a component runs on. Os.antt has the calls that the library makes of the C library, the
-- kernel and the application's callbacks, as values of `Call`. Their answers are an oracle over
-- the calls made so far (`Os`), so a run is determined by it and its history is the list of calls.
-- An operation is a function `M S A`, from a world (history and memory) to a result and a world,
-- or to `none` where the C code would use memory that is not allocated. Memory.antt reads off a
-- history which blocks are allocated and which descriptors are open, guards every access with
-- that, and states the documented behaviour of malloc, socket, accept, open, recv, recvfrom and
-- read as hypotheses (`FreshBlocks`, `FreshSockets`, `FreshAccepts`, `FreshFiles`, `RecvFits`,
-- `RecvfromFits`, `ReadFits`). Returns.antt has the rules for statements about every outcome of a
-- run; such a statement says that the run meets no fault.
--
-- Threads.antt has what the thread functions share: the loop of rounds, the buffer that recv
-- writes, and the messages received, read off a history.
--
-- source/comm_tcp_server.c. TcpServer.antt has the context, the table of users and the functions
-- that open the socket and add and remove a user; TcpServer/Tasks.antt the listening and the
-- receiving thread; TcpServer/Api.antt the functions of include/comm_if.h. The IPv4 and the IPv6
-- half have the same code but for the address family, which is an argument of `server_init`;
-- TcpServer/Ipv6.antt names the IPv6 half. The other modules below TcpServer are proofs: Table and
-- Invariant (the table of users and what holds of it between two calls), Accept, Disconnect, Init,
-- Listen, ListenTask and ListenEnd, Race (a thread that overtakes the one that started it),
-- Receive, RecvTask and RecvEnd, Termination, Uninit and UninitAll, Apart, Send, Lifecycle,
-- Members and Refinement (the list of users that the table stands for), and Steps (sequences of
-- operations in any order).
--
-- source/comm_tcp_client.c. TcpClient.antt has the context, the functions that open and close the
-- socket and the receiving thread; TcpClient/Api.antt the functions of include/comm_if.h, with
-- inet_addr and inet_pton as an argument of `client_connect`; TcpClient/Ipv6.antt names the IPv6
-- half. Receive, RecvTask, Termination and Open are proofs.
--
-- source/comm_ipc_stream.c, client half. IpcStreamClient.antt has what differs from the TCP
-- client: the paths, with the sizes of the arrays that they are copied into, and the functions
-- that open, close and connect the socket. The receiving thread and the send are those of
-- TcpClient.antt, whose code is the same. IpcStreamClient/Open.antt is proofs.
--
-- source/comm_udp.c, source/comm_ipc_dgram.c and source/comm_raw.c. The three have one structure:
-- a context with a socket, a thread that receives if there is a callback, and a call that receives
-- if there is none. Datagram.antt has that code once, for any `Kind` of endpoint: how it opens and
-- closes its socket, what comes before, which results of recvfrom are failures and what a callback
-- is told of the source. Udp.antt, IpcDgram.antt and Raw.antt are the three kinds, each with its
-- context, its functions of include/comm_if.h and its sending; Udp/Address.antt has the search of
-- the list that getifaddrs gives, and Udp/Ipv6.antt names the IPv6 half. Endpoints.antt puts the
-- protocols together, for what is stated of all of them. Datagram/Laws.antt says what the sockets
-- of a kind promise; Udp/Kind.antt, IpcDgram/Kind.antt and Raw/Kind.antt show it. The other modules
-- below them are proofs.
--
-- Handles.antt and Handles/Make.antt have what an initialization and an un-initialization come to,
-- for any endpoint that is a block with a descriptor, and the steps that they are made of.
--
-- source/comm_fifo.c. Fifo.antt has the context, which the reading and the writing end share, and
-- all functions; Fifo/Life, Fifo/Receive and Fifo/GetTask are proofs.
--
-- source/comm_uart.c. Uart.antt has the context and all functions, with the bits of the terminal's
-- settings; Uart/Life, Uart/RecvTask and Uart/Config are proofs.
--
-- source/comm_ipc_stream.c, server half. IpcStreamServer.antt has the socket and the accepting of a
-- client, IpcStreamServer/Tasks.antt the threads and IpcStreamServer/Api.antt the functions of
-- include/comm_if.h, in terms of the context, the table and the users of TcpServer.antt, whose code
-- for disconnecting, sending and counting is the same. Accept, Uninit and Spin are proofs.
--
-- source/comm_netlink.c. Netlink.antt has the context, the two messages in memory and all
-- functions; Netlink/Init, Netlink/Send and Netlink/RecvTask are proofs.
--
-- source/comm_log.c. Log.antt has the settings and the texts that are printed; Log/Text.antt is
-- proofs. The endpoints do not print: their models leave the log out.
--
-- application/, the proxy between TCP ports and named pipes. Nptp.antt has a mapping, the table of
-- mappings and the memory of the proxy, of which the contexts of the library are a part: Zoom.antt
-- runs the models of the library on that part. Nptp/Xml.antt reads the configuration, whose tree
-- libxml2 makes, with the content of a node and atoi as arguments; Nptp/Proxy.antt has the two
-- sides of a mapping, Nptp/Event.antt the monitor of inotify, and Nptp/Service.antt the start, the
-- end and the commands. Below Nptp/Xml, Path, Edits, Table and Configured are proofs; below
-- Nptp/Proxy, Connect, Pipe, Reconnect, Tcp, Sides, Life, Overflow and Forward; below Nptp/Event,
-- Bytes, Walk (with the handling of a list of events that the monitor is compared to) and Exit;
-- below Nptp/Service, Exit. Kept.antt has the rules for what code leaves as it was.
--
-- Tests/Machine.antt is an oracle that grants everything, for which the hypotheses are proved;
-- Tests/TcpServer.antt, Tests/Refinement.antt, Tests/Race.antt, Tests/Apart.antt, Tests/Nptp.antt,
-- Tests/TcpClient.antt, Tests/IpcStreamClient.antt, Tests/Endpoints.antt, Tests/Devices.antt,
-- Tests/IpcStreamServer.antt, Tests/Netlink.antt and Tests/Log.antt run the models on it.
--
-- Bounds and fuel. A thread function takes the number of rounds of its loop as fuel and ends with
-- `running` if they were not enough. The theorems about its outcome hold for any fuel; with a peer
-- that sends finitely much, more rounds than the budget of `FiniteStream`, `FiniteDatagrams` or
-- `FinitePipe` are enough. The loops over the table run `pos_part maxUserNum` rounds, as in C.
-- COMM_BUF_SIZE is 8191 and TCP_USER_NUM is 32, and the length of a message is reduced modulo 2 ^
-- 16 where the code passes it as an `unsigned short`.
--
-- Conventions. Pointers are natural numbers and NULL is 0. One operation runs at a time: another
-- thread acts between two operations, not inside one, but in TcpServer/Race.antt. A callback of
-- the application is a call that does not enter the library again. A thread that is cancelled
-- inside `recv` or `accept` counts as cancelled at the `pthread_testcancel` before.
--
-- Not modelled: what the endpoints print to the log, which changes no state of theirs; thread
-- attributes; the byte order of ports and addresses; the destination of a netlink message, which
-- is read through a pointer to a variable that is gone; what lies past the end of the
-- application's data in a send with a size greater than that (a send gives the bytes that there
-- are, but a copy by the library past the end is a fault), and past the end of what is set in a
-- buffer that is handed to a callback; the options and the fork of the application's main, what it
-- prints besides its list of mappings, and its control program; and the test programs.
pub mod Prelude
pub mod Os
pub mod Memory
pub mod Returns
pub mod Datagram
pub mod Endpoints
pub mod Fifo
pub mod Handles
pub mod IpcDgram
pub mod IpcStreamClient
pub mod IpcStreamServer
pub mod Kept
pub mod Log
pub mod Netlink
pub mod Nptp
pub mod Raw
pub mod TcpClient
pub mod TcpServer
pub mod Threads
pub mod Uart
pub mod Udp
pub mod Zoom
pub mod Tests
