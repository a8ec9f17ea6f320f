-- ===== src/Lib.antt =====
-- A verification library for CppTinyLab, a collection of small C++ servers: a thread pool, an
-- HTTP file server over epoll, an epoll reactor and a chat server.
--
-- ThreadPool (ThreadPool/src/threadPool.cpp, ThreadPool/include/threadPool.h): `threadProcess`,
-- `addTask` and `destoryThreadPool` are step functions over program counters, one step for each
-- access to shared memory, and any number of workers and adders interleave in any order. A step
-- waits, ends, moves, or is undefined behaviour (`fault`). The semaphores are counters, the
-- mutex a flag. The fields `pushed`, `taken` and `called` of a system are history. Both writes
-- of `shufdown`, that of the main program and that of `destoryThreadPool`, are one step here.
-- Main has the tasks that ThreadPool/src/main.cpp adds, for the numbers that are read.
--
-- WebServer (WebServer/src/webServer.cpp, WebServer/src/main.cpp,
-- WebServer/include/webServer.h): Decode has `hextod` and the in-place `strdecode`, Mime
-- `get_mime_type`, Response `sendHeader`, `sendFile` and the directory listing, Request the
-- reading of the request line, Connections the table `hash` with the walks of `checkConnect` and
-- `getConnectCount`, Handler `http_request` with the whole answer for a regular file in
-- Handler/Regular, Setup the main program up to its loop, and Server the loop with the two
-- threads: `epoll_wait` reports descriptors, the loop over them and each walk are one step each
-- under the mutex, and a walk may come between. `accept` returns a descriptor that is not open,
-- and `recv` fails on one that is not open. Text is a list of bytes. An access outside an array
-- is undefined behaviour and the value `none`. A function that loops takes fuel from the length
-- of its input, which bounds its rounds. Descriptors, addresses and clock readings are numbers;
-- a `lastActiveTime` of -1 is `none`. The answers of `stat`, `open`, `scandir` and of the
-- uninitialised stack are the parameter `Files`. `send` is taken to send all that it is given,
-- as the code does.
--
-- ChatServer: Service (ChatServer/src/server/chatservice.cpp,
-- ChatServer/src/server/chatserver.cpp) has the handlers of `ChatService`, from `onMessage` and
-- `onConnect` on, as functions of the table `_userConnMap`, of the database and of what was
-- sent. The table is an association list in the order of iteration. Connections, Delivery,
-- Round, Receive and Online are about the table, chat messages, one whole message, messages as
-- texts, and logging in and out; Answers has the answers to a login and to a registration. Each
-- handler is one step. Login has an accepted login once more, a step for each call, with the
-- other threads between the steps; of the database it relies on `IsStore`, which Stored.Mail
-- fills with the model classes over a server. Models is the interface to the classes under
-- ChatServer/src/server/model; Models.Sql implements it with `UserModel`, `OfflineMsgModel`,
-- `FriendModel` and `GroupModel` over `class MySQL` (ChatServer/src/server/db/db.cpp, Database),
-- whose client library is the parameter `Mysql`; undefined behaviour is the result `none`, and a
-- database that met it stays `none`. Tables has the tables of ChatServer/chat_db.sql that
-- matter, and `IsServer` what is relied on of a MySQL server that can be reached: what each
-- statement does to them if it succeeds, that one that fails does nothing, and what each query
-- returns, in any order; Engine is such a server. Stored is the service over that: Accounts,
-- Restart, States and Races are about who can log in, Inbox and NextLogin about stored messages,
-- Mail about messages that arrive during a login, Members about groups. Main has the two main
-- programs: the arguments, the events that the network library brings, and the interrupt. Client
-- (ChatServer/src/client/clientservice.cpp) has the two threads of the client, Commands the main
-- thread, a step up to each wait, on lines that were read, and Responses the thread that
-- receives. Json is the interface to the JSON library, `IsJson` its promises, and a library that
-- throws is `none`; Coded keeps the promises. Talk puts the clients and the server together,
-- Login and Register a client that logs in or registers, Relay a message that lacks a text,
-- Understood all that the server sends against what a client reads (`Shapes` of Responses,
-- `Protocol` of Service), Overrun the service and its database.
--
-- EpollReactor (EpollReactor/src/myEvents.cpp, EpollReactor/src/main.cpp): the callbacks
-- `readData`, `writrData` and `initAccept` as functions of the objects in memory, of what epoll
-- watches and of the open descriptors, with what the system calls return as arguments.
-- `dispatch` calls back for one event, `none` where it uses a freed object, and `run_batch` for
-- the events of one `epoll_wait`, whose pointers epoll had when it returned. A new address is a
-- fresh number. Memory and Safe are about the pointers that epoll holds, Batch about a whole
-- batch, MainLoop the whole loop with its end, Setup `main` from its beginning, Echo about what
-- is sent back.
--
-- Base has the shared names: Boolean tests, lists over the native numbers, byte strings with
-- what the sources use of the C library (strrchr, strtok's first token, sscanf's sets, `%d`).
--
-- Not modelled: the printing of the servers, and the set-up of signals and of the network
-- library; a failure of `scanf`; of the ChatServer, threads between the calls of a handler other
-- than `login`, SQL that is no statement of the program, the prompts of the client, the failure
-- of its input, and the network library.
mod Base
pub mod ThreadPool
pub mod WebServer
pub mod ChatServer
pub mod EpollReactor
