-- ===== src/Lib.antt =====
-- sheep_cpp: a C++ framework of coroutines, an event loop and TCP connections.
--
-- The parts, and the files that model them:
-- * Util/IntrusiveList models src/util/intrusive_list.h: IntrusiveListInit, Insert, Remove, IsEmpty,
--   Front and GetAllNodes are init, insert, remove, is_empty, front and get_all_nodes on an explicit
--   memory of previous and next pointers; `none` is a null pointer. Ring and Rings relate the memory to
--   lists, Walk reads them.
-- * Coroutine/Scheduler models CoroutineSchedulerImp of src/coroutine/coroutine_scheduler.cpp and the
--   switches of src/coroutine/coroutine_info.cpp. It keeps its coroutines on four intrusive lists. A
--   coroutine has its index in `coros_` as its address, and the four heads the addresses behind the
--   array. What a coroutine does in one turn (calls of addCoroutine, resume and stop, then yield, suspend,
--   sleep or its end) is a script that sees the whole state; a coroutine without a point to go on from
--   ends the program. A round of `run` is run_once.
-- * Coroutine/Waiters and Coroutine/CoMutex model CoroutineWaiter, CoConditionVariable and CoMutex of
--   src/coroutine/coroutine_mutex.h. Coroutines are resumed as an output. A section of CoMutex under
--   `mtx_` is one step, and a schedule orders the steps of the coroutines.
-- * Net/Asyncer, Net/Buffer, Net/Socket and Net/TcpConnection model the files of that name under
--   src/net/common. A TcpConnection owns two buffers and an asyncer; its event calls readHandler and
--   writeHandler. The results of read(2) and write(2) are inputs. A handler is a number: calls of handlers
--   are outputs, and what a handler does to the connection is an argument of the model (Env).
-- * Base has the tests on ℕ, lists over ℕ and the lemmas that the parts share.
-- * Net/Event, Net/AsyncerPoller, Net/TimerPoller, Net/Epoller and Net/EventLoop model event.cpp,
--   event_loop.cpp and the files of poller under src/net/common. A weak pointer to an event is its id,
--   looked up in the store of the events that exist; the callbacks of an event act on that store. The
--   update of an event calls itself at most once, so fuel 2 is enough. The rounds of Wait are on fuel:
--   one more than the rounds after which Stop has been called is enough.
-- * SmallClient/ClientManager models src/small_client/client_channel/client_manager.h and
--   lb_policy/random_lb_policy.h. Addresses are numbers in the order of the strings.
-- * HttpParser models src/extends/small_http_parser: UrlCode the file urlcode.h, and Map, RespParser and
--   ReqFormater the classes of that name. The callbacks of http_parser are inputs.
-- * Net/Timer models src/net/common/timer/timer.cpp on top of Net/Asyncer: post and fire are what the
--   loop calls, first the asyncer and then the timer's event.
-- * Flow models FlowService of src/extends/small_flow/small_flow.h; a ploy is a function on the context.
-- * Coroutine/Condition, Coroutine/Mutex and Coroutine/Future model ConditionVariable, Mutex, SharedState,
--   Promise and Future of src/coroutine/coroutine_mutex.h. Both coroutines and threads use them: `is_coro`
--   tells which is which. A schedule orders the sections under `mtx_`, chooses whom a notification
--   wakes among the threads, and wakes threads without one.
-- * Coroutine/Async models Async of the same file on the schedulers and futures.
-- * Etcd models src/extends/small_watcher/etcd/etcd.cpp: Replies has its handlers, Run the sequences of
--   calls, replies and timers. A request or timer that is to call back is a task of the state. The
--   documents are what the code asks rapidjson for, and `stoll` is an argument.
-- * Net/Socket has the system calls of src/net/common/tcp/socket.cpp, with the kernel as an argument that
--   answers each call. Net/Connector, Net/Client and Net/ClientPool model the files of src/net/client of
--   that name, and Net/Acceptor and Net/Server those of src/net/server. A lambda that the loop calls
--   later is an operation of its own; the call of a user's handler is an output. Of the connection of a
--   pooled client the pool's model has whether it is in use or finished.
-- * Net/CoTcpConnection models src/net/common/tcp/co_tcp_connection.cpp on Net/TcpConnection: what a
--   coroutine does up to its suspend, and behind it.
-- * SmallClient/BaseClient models doReq of src/small_client/base_client.h, with its callbacks as events.
--   SmallClient/ClientChannel and SmallClient/AddrPort model client_channel.h, balancer.h and the
--   resolvers of src/small_client/client_channel, SmallClient/RedisClient and SmallClient/HttpClient
--   what redis_client.h and http_client.h do with the buffers of their connection; hiredis and
--   http_parser are parameters. The reads of RespPop are on fuel: more than the bytes that wait is
--   enough.
-- * Config models src/extends/small_config: Json the visitors of small_json/small_json.h, on elements
--   that are trees of fields, and Client JsonClient of small_config.h with a disk. rapidjson is a
--   record of operations, and IsRapidjson of Config/Json/Fits says what is used of its documentation.
--   Toml does the same for small_toml/small_toml.h and TomlClient, with IsToml for the library.
-- * Grpc models the server of src/small_server: the events of grpc_looper.h, grpc_server.h and
--   grpc_service.h for one service, as steps of the completion queue and of the service.
--   Grpc/Client models the clients of grpc_client.h on one queue, as steps of it and of requests.
-- * Util/BlockQueue models src/extends/small_packages/small_block_queue, with a schedule of its thread.
--
-- Bounds: the buffer indices and the counts of a connection are taken modulo 2^64. The walk of an
-- intrusive list has fuel one above the number of coroutines, more than a ring has nodes. Clocks are
-- inputs.
--
-- Not modelled: the stacks of coroutines, real threads (sections under a lock are steps), system calls,
-- logging, grpc_client_channel.h, the output visitor of src/extends/small_config, the
-- coroutine client and server of src/net, and the threads of Async.
-- Libraries that the sources only call (gRPC, http_parser, hiredis, rapidjson, toml) are parameters.
pub mod Base
pub mod Config
pub mod Coroutine
pub mod Etcd
pub mod Flow
pub mod Grpc
pub mod HttpParser
pub mod Net
pub mod SmallClient
pub mod Util
