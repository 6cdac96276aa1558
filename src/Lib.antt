-- ===== src/Lib.antt =====
-- The MANET testbed library: the API by which a routing protocol of a mobile ad-hoc network drives
-- the Linux network stack of a node.
--
-- The program. `InitializeAPI` (src/api.c) calls the initialisation of each part. src/api_if.c asks
-- the kernel for the node's addresses over a netlink socket, src/api_route.c adds and deletes routes
-- over the same socket, src/api_send.c sends datagrams over a UDP socket, and src/api_queue.c has
-- netfilter queue packets, which a thread for each queue hands to the user's callbacks for a verdict.
-- The parts share the global variables of src/api.c: the netlink socket `fd`, the error flag `f_err`,
-- the node's addresses and the mutex `lock`.
--
-- The model. The global variables are the record `State` of Api/Globals, which also holds the replies
-- that the kernel has for the netlink socket and the calls made into the system, the newest first. A
-- C function is a function from a state to a `Run` (Api/Monad): it returns a value and a new state,
-- waits for ever, faults, or uses up its loop's rounds. Names are those of the source in lower case:
-- `AddUnicastRoutingEntry` is `add_unicast_routing_entry`.
--
-- - Base: names of the libraries, C integers, Boolean tests, lists.
-- - Netlink: the constants of the netlink headers, and their macros as the record `Netlink`.
-- - Api: head/api.h and src/api.c; Api/Laws has the rules for runs.
-- - Iface: src/api_if.c. `Attributes`, `Messages` and `Address` prove its loops and `GetInterfaceIP`.
-- - Route: src/api_route.c. `Request` is the request read back, `Outcome` the result of a change,
--   `Kernel` what the kernel makes of the requests that reach it, `Table` its routing table as a map.
-- - Send: src/api_send.c, with `Delivery`.
-- - Queue: src/api_queue.c. `Handlers` decides one packet, `Threads` receives them, `Register` is the
--   API; their children hold the proofs.
-- - Init: `InitializeAPI`, with `Outcome`, and `Failures` where it does not return.
-- - System: any sequence of calls and packets. `Calm` and `Kept` are what events leave alone, `Started`
--   is about null callbacks, `NotedError` about `f_err`, `Deadlock` about the mutex, `Race` about sends
--   from several threads, and `Misread` about `GetInterfaceIP` in two.
-- - Interleaving: the calls that take the mutex, cut into steps. `Schedule` is any number of
--   threads in any order of steps. `Finish`, `Steps` and `Whole` put the steps together again,
--   `Still` and `Noted` are what they leave alone, `Serial` and `Order` compare the threads with
--   the calls one after the other, `Results` is about results, `Ends`, `Unbroken` and `Alone`
--   about steps of one thread, `Answered` about a change of a route that waits, `Reads`, `Numbers`
--   and `Reached` about the result of `GetInterfaceIP`, `Misreport` about the error flag.
-- - Traffic: the program at large, a step at a time: threads that make those calls, send and handle
--   packets, whose callbacks call and send in turn. `Invariant` is what no step breaks, `Within`
--   the part of it that calls see, `Monitor` an invariant under the mutex. `OneInside` is about the
--   mutex, `Routes` about routes, `Spared` what calls leave alone, `Owed` and `Delivered` are about
--   datagrams, `Owing`, `Ruled` and `Justified` about verdicts, `Unbroken` about one send,
--   `Handling` about one packet, `Guarded` about null callbacks, `Screened` about own broadcasts,
--   `Noted` about `f_err`, `Failing`, `Stuck` and `Deadlock` about failed registrations.
-- - TestProgram: test.c, as a client of the library.
-- - UavRouting: AODVtcpImplementaion.cc, a program for the simulator ns-3 that has nothing to do with
--   the library. `Ns3` holds the calls, `Transfer` the callbacks that send and receive, `Setup` and
--   `Connections` what the simulation consists of, `Main` its run.
-- - Testing: a concrete system, runs on it, and the theorems at concrete inputs.
--
-- What is a parameter. The C library and the kernel are the record `Os`: the result of a call may
-- depend on all calls before it. Which route requests the kernel performs and what its table is
-- then is the record `Kernel` (Route/Kernel); that it adds, replaces and deletes as rtnetlink(7)
-- says, where it performs a request at all, is the hypothesis `IsDocumented`. The macros and struct
-- fields of the netlink headers are the record `Netlink`. libnetfilter_queue and the IPv4 header
-- are the record `Netfilter`. The user's callbacks are a function `User`, and may change the state.
-- ns-3 and the C++ streams are the record `Ns3`. What uninitialised stack buffers hold is an
-- argument.
--
-- Threads. The threads of the queues run beside the program's calls. `System` takes a call and the
-- handling of a packet as single events, in any order. `Interleaving` takes apart the calls that take
-- the mutex: a step is one access to what threads share, that is, one system call, one check of its
-- result, one change of a variable, or the parsing of one message; a thread that waits for the mutex
-- or for a message stays where it is. `Traffic` adds the steps of sends, which take no mutex, and of the
-- handlers; the code of a callback is whatever calls and sends its thread makes until the callback
-- returns. The two addresses in the test for an own broadcast are read in one step; no step of
-- `Traffic` changes them. `System/Race` takes a send as two halves, in any order.
--
-- Loops. A loop over what the kernel sends is a recursion on the list of those replies; at its end the
-- receiving call waits for ever. The two loops over a buffer take rounds, one more than the bytes that
-- are left; each step of a well-formed buffer takes bytes off, so that is enough, as their theorems
-- show.
--
-- Numbers. An `int` is an integer, an unsigned word a number with its wrap-around written out. A
-- `size_t` has 64 bits. A `double` constant is its decimal.
--
-- Not modelled: what is printed; `SwitchRoutingTable`, `SetInterface` and `SearchTable`, which are
-- declared and have no code; Examples, which come from other repositories, as README.md says.
pub mod Base
pub mod Netlink
pub mod Api
pub mod Iface
pub mod Route
pub mod Send
pub mod Queue
pub mod Init
pub mod System
pub mod Interleaving
pub mod Traffic
pub mod TestProgram
pub mod UavRouting
mod Testing
