-- ===== src/Lib.antt =====
-- The chat server: a C++ server that keeps users, sessions, rooms and messages, and passes
-- messages between the connections of its users as JSON in length-prefixed frames.
--
-- Base has what the parts share: tests with their laws, lists over the native numbers, bytes and
-- texts, maps as association lists (Base/Map) and sets of ids (Base/NatSet).
--
-- Common is src/common: Util (trim, split, case), Hex and Base64 of util.cpp, each with its laws
-- in the folder below it; Config is config.cpp, with the lines of the file and the environment as
-- arguments; Numbers writes out std::stoll, std::stoi, std::stoul and std::stoull, and Decimal
-- std::to_string. ThreadPool is thread_pool.cpp, as a step relation: workers, callers of submit and
-- a call of shutdown, with the lock and the wait on the condition variable. A step is what a
-- thread does between two points where another one can come in; a wait that ends by itself is a
-- step of its own (`Spurious`). Logger is logger.cpp, over what fopen and gmtime_r answer: what it
-- does with files is a list of deeds, and `lifetime` is a list of uses followed by the destructor.
-- Random is random_bytes of util.cpp.
--
-- Protocol is src/protocol: Framing is framing.cpp, the frames and the decoder that is fed bytes
-- as they come; one round of the decoder's loop is `feed_round`, and an exception is an outcome,
-- `thrown`. The loop runs on fuel: each round consumes bytes or leaves the payload state, and
-- `work` bounds the rounds, so that the fuel `suc (work d)` is enough. Messages is messages.cpp:
-- it builds the replies and events, and reads fields leniently; the JSON library is a parameter,
-- `JsonLib`.
--
-- Net is src/net: Connection is connection.cpp. A method takes the connection and, where it calls
-- recv or send, the answers of those calls in their order, and returns the connection with the
-- list of its effects: payloads handed to the owner, bytes written, closures posted to the
-- reactor. A posted closure is a `Task`, which `run_task` runs. Server is server.cpp: the table
-- of connections, which are found by their ids, over the answers of accept. Reactor has what the
-- two reactors share: the table of callbacks and the posted closures; what a callback or a
-- closure does to the reactor is a list of operations. Epoll is the loop of reactor_epoll.cpp
-- over the answers of epoll_wait, Select that of reactor_select.cpp over those of select. Socket
-- is socket.cpp, and Wake has init and shutdown of both reactors with the wake pair: the answers
-- of the system calls are arguments, and the calls that open, use and close descriptors are a
-- list.
--
-- Db is src/db: Store is the in-memory build of repositories.cpp (CHAT_NO_MYSQL). Every method
-- holds the mutex throughout and is one function of the store. `unordered_map::at` may throw,
-- which is `raised`. Identifiers are uint64_t and wrap around (`next_id`). Mysql is the other build
-- of repositories.cpp: a statement is a list of what is inserted into the stream (`Part`), which
-- `render` writes; the client library with the server behind it is the interface `Mysql`. Literals
-- says how the server reads string literals. Pool is mysql_pool.cpp: the idle connections and the
-- count of those with clients; what the library answers to a ping or to a new connection is an
-- argument.
--
-- Auth is src/auth: Session is session.cpp, a cache of sessions that writes through to the store.
-- The random token and the time are arguments. Sha256 and Password are crypto.cpp: the hash with
-- its buffer, HMAC, PBKDF2 and the records of passwords; random bytes are arguments. The loop of
-- `update` takes at least one byte in a round, so that the length of the input is enough fuel, as
-- `out_len` is for the loop over the blocks of PBKDF2.
--
-- Chat is src/chat: Presence is presence.cpp, Rooms is room_manager.cpp (a cache of the members
-- of rooms over the store; Rooms/Interleaved takes the calls of the handlers on both one by one,
-- as the workers of the pool interleave them, and Rooms/Race has two that overlap), and Router is
-- message_router.cpp, which stores a message and sends it to the connections that presence names,
-- or queues it in the store. Server is chat_server.cpp with all connections: the state is a
-- `System`, and an event (a connection is made, a payload of it is handled, it closes) takes it
-- to the next; a payload may be handled after its connection has closed, as jobs of the pool may.
-- This is the server whose jobs run one after another. Startup is init, run and stop of
-- chat_server.cpp and src/main.cpp: init goes through its stages over what they answer, and main
-- reads the command line, the file and the environment.
--
-- Handlers is src/handlers/handlers.cpp: World has the state that the handlers share,
-- require_auth and the transition handler of src/chat/chat_server.cpp; Accounts, Rooms and
-- Conversation have the handlers, and Dispatch the table and `dispatch`. A handler takes the
-- world and returns it with the calls of send_frame appended, each of which the connection may
-- still drop, as `finished`, or as `threw` where it throws. The functions of src/auth/crypto.cpp
-- come through the interface `Crypto`, which Passwords fills. A handler is one step, before or
-- after that of any other thread, which is less than the pool allows: the methods of the store,
-- presence, the sessions and the room cache each hold a mutex, and what happens between two calls
-- is taken apart for rooms only. Access is about who may do what, Replies about answers,
-- Passwords about registering and then logging in. Invariant says what every handler keeps: it
-- takes the handlers one by one, Chat/Server/Order puts them together, and Chat/Server/Delivery
-- draws conclusions. The store draws at most one id from each counter in a request, so that fewer
-- than 2^64 - 2 events do not exhaust one.
--
-- Client is client/cli_client.cpp: the tokens of a line, the commands, the loop over the input,
-- send_frame and the reader, over what send and recv answer. The loop of `tokens` goes on a count
-- of the words that may still be cut off, that of send_frame on the answers of send. What `dump`
-- makes of a request, or that it throws on a string that is not UTF-8, is a parameter of its own.
-- In the server dump does not fail, since its strings come from requests that were read.
--
-- Examples runs definitions on small data, and applies theorems to it.
--
-- Iteration over an unordered container goes in the order of the association list; a time stamp
-- is a number that is not negative.
--
-- Not modelled: what the kernel does behind a system call, socket options other than the
-- non-blocking mode, the clocks, the signal handlers of src/main.cpp, looking up the host and
-- connecting in the client, its help text, how the calls of two handlers interleave other than on
-- rooms, parse_ts of repositories.cpp, which nothing calls, and the third-party JSON library.
pub mod Base
pub mod Protocol
pub mod Net
pub mod Common
pub mod Db
pub mod Auth
pub mod Chat
pub mod Examples
pub mod Handlers
pub mod Client
