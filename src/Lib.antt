-- ===== src/Lib.antt =====
-- Verification of the asynchronous components of this repository: the utilities in lib/util, and the
-- servers and clients in cxx20 and pre-cxx20.
--
-- How code becomes definitions. An object is a record of its members. A handler is a function from the
-- record to the record that it leaves, or to `Outcome`, which is `assert_failed` where an assertion
-- of the source does not hold. An asynchronous operation that a handler starts is counted, or kept in
-- a list, in the record until it completes; a data type `Event` names the completions and the calls
-- that reach the object's executor, `enabled` says which completions can happen, `step` runs the
-- handler, and `Reach` relates the states that any order of events leads to. Boost.Asio, Beast, the
-- operating system and the JSON libraries are not defined: which operation completes next, with which
-- error code and which bytes, is an argument of the event. Logging is left out. Strings are lists of
-- character codes.
--
-- Parts, and the files that model them:
--   AsyncQueue    lib/util/detail/async_queue_impl.hpp (async_queue_impl), and in AsyncQueue/Handle
--                 lib/util/async_queue.hpp (basic_async_queue, which owns an implementation by address).
--   PolyHandler   lib/util/poly_handler.hpp (poly_handler, its storage and its two tables).
--   StopSource    lib/util/st/detail/stop_token.hpp (stop_source_impl) and lib/util/st/stop_token.hpp
--                 (stop_source, stop_token, stop_connection).
--   Cxx20         cxx20: Chat is states.hpp with connection.cpp, over the queue of AsyncQueue, and
--                 Chat/Ended is connection.hpp, what is printed when a coroutine ends; Server is
--                 server.cpp with app.cpp, and is compared with the server of EchoServer.
--   EchoServer    pre-cxx20/echo_server: Connection is connection.cpp, Server is server.cpp with app.cpp.
--                 The server's calls on a connection are a list; System is the server with its
--                 connections, on which the calls are performed.
--   EchoLoop      a Connection of EchoServer and one of Chatterbox, joined by the websocket between them.
--   Chatterbox    pre-cxx20/chatterbox: Connection is connection.cpp, Pool is connection_pool.cpp,
--                 Console is console.hpp, and Console/App is app.cpp, which owns a pool and a console.
--   FmexClient    pre-cxx20/fmex_client: StopRegister is stop_register.cpp; Connection is
--                 connection_base.cpp with connect_transport_op.hpp and fmex_connection.hpp,
--                 over a StopRegister; App is main.cpp.
--   Blog          pre-cxx20/blog-2020-09: Transport is wss_transport.cpp with fmex_connection.cpp,
--                 which derives from it; Sigint is sigint_state.cpp; Application is application.cpp,
--                 which owns one of each.
--   MimeReader    pre-cxx20/mime_reader/main.cpp: mimeify and chunkify, with a reader of the chunked
--                 coding in Dechunk; Boundary is deduce_boundary, and Scan is test, with what its reads deliver as a list.
--   MemoryTest    pre-cxx20/memory-test/server.cpp: Session is session, Listener is listener;
--                 Client is client.cpp, in the same directory.
--   Prelude       lists, tests, results, error codes, text, endpoints, tables and slots for all of them.
--
-- Bounds and fuel. Identifiers of slots are taken modulo 2^64, and the theorems on them ask that fewer
-- than 2^64 - 1 were issued. std::unordered_map is an association list; what an iteration visits is
-- an argument. Three definitions have fuel. The loop of chunkify, in MimeReader, is given one turn more
-- than the input is long, and each turn takes at least one byte. The printing of a number, in
-- Prelude/Text, is given one turn more than the number's value, which has no more digits than that.
-- The scan of MimeReader/Scan is given two turns for each octet of the store and one or two more: a
-- boundary or a header that it takes off is at least three octets, and the blank line one turn.
-- Every other loop ranges over a list.
--
-- Not modelled: the other functions main, which construct an application and run the io_context.
-- Tables are association lists; EchoServer/Server/Hasher is the endpoint_hasher that three of the
-- programs repeat. Lifetimes held by shared_ptr are not modelled, except that a weak_ptr may or may not
-- be locked.
pub mod AsyncQueue
pub mod Blog
pub mod Chatterbox
pub mod Cxx20
pub mod EchoLoop
pub mod EchoServer
pub mod FmexClient
pub mod MemoryTest
pub mod MimeReader
pub mod PolyHandler
pub mod Prelude
pub mod StopSource
