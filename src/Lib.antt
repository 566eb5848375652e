-- ===== src/Lib.antt =====
-- A model of rpcframe, a framework for remote procedure calls over TCP, with the theorems that its
-- server and its client move requests and responses correctly.
--
-- The program's parts. A server (server/) accepts connections on connection workers, one thread with
-- an epoll loop each. A connection (server/src/RpcServerConn.cpp, RpcServerRpcConn.cpp) cuts the byte
-- stream into requests, which a thread pool hands to services. A service answers through a response
-- broker (server/src/RpcRespBroker.cpp), which lays out the bytes of the response; it goes into the
-- connection's queue (common/include/Queue.h), and the connection's thread sends it. A client
-- (client/) sends requests over connections of its own (client/src/RpcClientConn.cpp). Its event loop
-- (client/src/RpcEventLooper.cpp) keeps the calls that are pending, with their timers, and receives the
-- responses; a worker (client/src/RpcClientWorker.cpp) finds the callback of each and calls it.
--
-- Which file models which part.
--   Package     common/include/RpcPackage.h, RpcDefs.h, common/proto/rpc.proto: request_pkg is
--               RequestPkg, response_pkg is ResponsePkg, the protobuf classes are records with a
--               Codec, which is a parameter.
--   Config      server/src/RpcServerConfig.cpp.
--   Net         a connected socket: what recv and send meet, as a script of events. It is the
--               environment of the connections.
--   Queue       common/include/Queue.h: pop, peek, push, size, setMaxSize, setDropOnFull.
--   ThreadPool  the class ThreadPool of common/include/ThreadPool.h; a schedule of steps of its threads
--               and of added tasks stands for their interleaving. ThreadPool/Life has the moves of the
--               constructor, the destructor and the threads between them.
--   HashPool    the class HashThreadPool of the same file.
--   Stats       the statistics of server/src/RpcServerImpl.cpp: calcReqQTime and the others are
--               calc_req_q_time and so on.
--   ServerConn  server/src/RpcServerConn.cpp: sendData is send_data, sendResponse is send_response.
--   RpcConn     server/src/RpcServerRpcConn.cpp: readPkgLen is read_pkg_len, readPkgData is
--               read_pkg_data, getRequest is get_request.
--   Broker      server/src/RpcRespBroker.cpp: allocRespBuf is alloc_resp_buf, and so on.
--   ConnWorker  server/src/RpcServerConnWorker.cpp: onAccept is on_accept, and so on for the other
--               handlers; pushResp is push_resp, made of offer and announce, between which other
--               threads can run; handle is one event of the loop in start. ConnWorker/Reach has the
--               steps of a worker and of the threads that answer, as a relation.
--   RpcWorker   server/src/RpcWorker.cpp, RpcMethod.cpp and server/include/IServiceImpl.h: run,
--               pushResponse, addService, runMethod, add_method; the methods of a service are
--               functions of the user.
--   Server      server/src/RpcServerImpl.cpp: construction, addService, startListen, start, stop.
--   StatusService server/include/RpcStatusService.h: get_status.
--   ClientConn  client/src/RpcClientConn.cpp: sendReq is send_req, sendData is send_data, getResponse
--               is get_response, and so on.
--   HttpConn    server/src/RpcServerHttpConn.cpp: getRequest is get_request, of the same name as in
--               RpcConn; HttpConn/Callbacks has what the parser's callbacks add up to;
--               HttpConn/Receiver lets a connection worker serve these connections.
--   CallBack    RpcClientCallBack of client/src/RpcClient.cpp and client/include/RpcClientBlocker.h:
--               callback_safe, wait.
--   Looper      client/src/RpcEventLooper.cpp: the tables of calls and timers in Looper, the
--               connections in Looper/Conns, sendReq in Looper/Send, run in Looper/Poll, with what
--               other threads do between its steps as a parameter of each round.
--   ClientWorker client/src/RpcClientWorker.cpp: run.
--   Client      RpcClient and RpcClientConfig of client/src/RpcClient.cpp: call, async_call.
--   RawData     common/include/RpcDefs.h, RawDataImpl.h, common/src/RawDataImpl.cpp: objects in a memory,
--               and the packages that they keep. Elsewhere a RawData is the list of its bytes.
--   Host        common/src/util.cpp: getHostIpByName, getHostIp, and RPC_LOG_FUNC is rpc_log.
--   RoundTrip   a request from the client's connection to the server's worker; RoundTrip/Serve goes on
--               to the server's socket, RoundTrip/Answered is a whole call.
--   Prelude     shared names, tests, lists, bytes and the result type Exec.
--   Samples     concrete values for the tests.
--
-- How code is modelled. A method is a function from the object's state to its result and the state
-- after it. Exec is the result of code that meets its environment: it returned, it still waits (or
-- spins) where the script of events ends, or it did what C++ leaves undefined, such as a write outside
-- a buffer. A char buffer and a std::string are lists of bytes; what a fresh buffer holds is a
-- parameter. uint32_t and uint64_t wrap where the source computes with them. Loops go by recursion
-- on the script of events, which gets shorter with each round; there is no fuel but in the printing
-- of numbers, whose fuel is above the number, in the number of calls of a run, and in the search for
-- a host's address, whose 21 rounds double a buffer from 1 KiB up to 1 GiB.
-- A critical section under a lock is one step.
--
-- Not modelled: the vendored HTTP parser (a parameter); epoll and locks, which wrap the system; the
-- facade classes; where the code logs. Of sockets, options are
-- left out; of the loops of the threads, their signals and the creation of their descriptors. The
-- workers of a server share a service object; here each worker has its copy, so the statistics that
-- a method keeps are those of the calls on one worker.
pub mod Prelude
pub mod Queue
pub mod ThreadPool
pub mod HashPool
pub mod Config
pub mod Package
pub mod RawData
pub mod Host
pub mod Net
pub mod Stats
pub mod ServerConn
pub mod RpcConn
pub mod HttpConn
pub mod Broker
pub mod ConnWorker
pub mod RpcWorker
pub mod Server
pub mod StatusService
pub mod ClientConn
pub mod CallBack
pub mod Looper
pub mod ClientWorker
pub mod Client
pub mod RoundTrip
pub mod Samples
