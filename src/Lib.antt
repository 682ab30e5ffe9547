-- ===== src/Lib.antt =====
-- V2bX (github.com/MoeclubM/V2bX): a node agent that serves the proxy users of a panel.
--
-- A controller (node/) asks the panel for a node and for its users, gives them to the proxy core
-- (core/sing) and to the node's limiter (limiter/), and repeats that in tasks (common/task). The core
-- asks the limiter about each new connection, and reports traffic and online devices to the panel.
--
-- Which file models which part:
--   Limiter/State        limiter/limiter.go, limiter/dynamic.go: the records UserLimitInfo and
--                        Limiter, AddLimiter, UpdateUser, the dynamic limits, determineSpeedLimit
--   Limiter/Admission    CheckLimit, in the order of its blocks: expire, user_speed, track_device,
--                        byte_rate, take_bucket
--   Limiter/Online       GetOnlineDevice
--   Limiter/Rules        limiter/rule.go
--   Counter              common/counter/traffic.go and conn.go: TrafficCounter with its storages, and the
--                        counting methods of a connection
--   Sing                 core/sing/user.go: GetUserTraffic and GetUserTrafficSlice
--   Sing/Inbound         core/sing/node.go and utils.go: getInboundOptions; Transport and Tls its
--                        switches on the network and the security, Build the switch on the type
--   Sing/Instance        AddNode, DelNode, AddUsers and DelUsers, over the interface BoxApi of sing-box
--   Core                 core/interface.go: the interface that controllers call, which Sing/Instance fills
--   Sing/Hook            core/sing/hook.go: RoutedConnection, RoutedPacketConnection, and the table of
--                        limiters with GetLimiter and DeleteLimiter
--   Node/UserDiff        compareUserList of node/user.go; Node/Report its reportUserTrafficTask
--   Node/Cert            node/cert.go: requestCert
--   Node/Controller      node/controller.go: the controller, Close; Node/Start: Start and startTasks of
--                        node/task.go
--   Node/Monitor         node/task.go: nodeInfoMonitor, and rounds of it
--   Node/Machine         node/machine.go: syncNodes and updateTasks, over the interface NodeApi
--   Conf                 conf/: the records and defaults
--   Task                 common/task/task.go: Start, Close and the goroutines, as events
--   Json5                common/json5/json5.go: prep and its loops, on fuel for each byte of the text
--   Panel                api/panel: Types the records, Route finalizeNodeInfo, Parts and Decode
--                        decodeNodeInfo, Client the requests, each with its reply as an argument
--   Format, Text, Itoa   common/format/user.go, Go's package strings, strconv.Itoa
--   Dict, Prelude        Go's maps and integers, results with errors
-- The proofs stand in the modules below each of these, the runs and instances in Tests.
--
-- State is passed explicitly: a method is a function from the state before to the state after. Go's
-- maps and sync.Map are association lists; the order of a Range is the order of the list, and the
-- theorems hold for every list. An int is a signed integer; where the code multiplies, the 64-bit
-- wrap-around is written out. Times are nanoseconds since the epoch, and the time of a call is an
-- argument.
-- A round of the monitor runs as one step, on the replies to its three requests; a function that goes
-- on after a call of the client or the core takes the call's result as an argument. A nil pointer, an
-- index out of range and log.Panic are outcomes of their own.
-- Not under the repository, and so parameters: ratelimit.Bucket and its constructor, regexp's
-- compilation and matching, encoding/json and the HTTP client, sing-box, the files of certificates. The
-- calls of a limiter are taken one at a time; the goroutines of a task interleave freely.
-- Not modelled: the argument isTcp of CheckLimit, which the code does not read, logging, the start of
-- sing-box, node/lego.go, the machine's status, the validation of the configuration, the commands.
mod Prelude
pub mod Dict
pub mod Format
pub mod Text
pub mod Conf
pub mod Panel
pub mod Limiter
pub mod Itoa
pub mod Task
pub mod Counter
pub mod Json5
pub mod Core
pub mod Sing
pub mod Node
pub mod Tests
