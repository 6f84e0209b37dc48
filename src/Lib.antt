-- ===== src/Lib.antt =====
-- pixels-spike runs a user's functions on containers of AWS ECS. A function manager creates and
-- scales the services that run a function, a request scheduler places each waiting call on one of
-- the running instances, and a MySQL database keeps the instances, the placements and the
-- definitions. A gRPC server with an HTTP gateway forwards the calls of users to the two.
--
-- Base holds what the modules share: results and errors, actions on an outside state, signed
-- integers with the wrap-around of int32, Go maps as lists of entries, and float64 as a record of
-- operations. Constants is pkg/constants/instancetype.go. Model is pkg/storage/model. Config is
-- cmd/server/config/config.go, Logger is pkg/logger/logger.go and Utils is pkg/utils/utils.go.
-- Storage is pkg/storage/mysql.go: each query and change, over a record of what the code asks of
-- the mapper; Storage/Laws states what a table is relied on to do, Storage/Atomic what a
-- transaction is relied on to do, and Storage/Connect has the connection and the migration of the
-- tables. AwsClient is pkg/funcmanager/awsclient.go, and FuncManager with its children is
-- pkg/funcmanager/funcmanager.go: Scaling has ScaleFunction and the deletion of services,
-- Functions the creation, deletion and listing, Status the refresh from the tasks, Demand the
-- auto-scaling. ReqQueue is pkg/reqscheduler/reqqueue.go, and Scheduler is
-- pkg/reqscheduler/schedule.go with the two placement algorithms. ReqScheduler is
-- pkg/reqscheduler/reqscheduler.go: the loop that places requests, the submission of calls with
-- retries and the call of a worker, on top of the three. ApiServer is pkg/apiserver/apiserver.go,
-- and ApiServer/Startup is the start of the process: the constructors NewAwsClient,
-- NewFuncManager and NewReqScheduler, StartApiServer and the command of cmd/server/cmd/root.go.
-- Tests holds a database and a cluster in memory, fractions in place of floats, and runs on small
-- inputs.
--
-- ReqScheduler/System puts the request path together as a step relation: calls are submitted, the
-- scheduling loop runs, calls of workers end, and the rest of the process and the outside act, in
-- any order. Its children are about all reachable states and about the draining of the queue.
-- There a run of Schedule is one step; ReqScheduler/Interleaved is about requests that are
-- submitted while it runs.
--
-- State is passed explicitly. A function that may fail and acts on the outside has the type
-- Action S A: the state after an error comes back too, as Go undoes nothing. What happens outside
-- the process is an argument: the database (Gorm), its driver, AWS (Cloud), the worker
-- (WorkerClient), the network, files, the YAML decoder, request numbers, random choices, the
-- order in which a map is visited, and what goes on until a response comes. A goroutine that is
-- started is returned to the caller. A lock makes each method of the queue one step; what a
-- sync.Once guards is an optional value or a flag in the state. Code that may panic or end the
-- process has the type Step S A, since a panic in any goroutine ends the process; the goroutines
-- of a batch of creations are interleaved by a list of turns, and what the list leaves open is
-- run to its end.
--
-- Almost every loop runs over a list or over a count that the code fixes before it starts, such
-- as the number of tries of a call, so every definition is total. The printing of a number uses
-- fuel, its value plus one, and the loop that drops the oldest moments of a window runs for as
-- many rounds as the window has moments, each of which drops one. AsyncDeleteFuncInstance loops
-- until a service is free: async_delete runs it for a number of rounds. The loops that never end
-- are modelled by their rounds.
--
-- A pointer that AWS's reply may leave nil is an optional value, and reading it panics as in Go.
-- Some places of the model are coarser than the code. In ReqScheduler/System the end of a
-- worker's call sends the response and deletes the placement in one step, so the state between
-- the two is not one of its states; the order in which a map is visited is one function for a
-- deployment, and the theorems hold for each. A launch type is one of its four constants, though
-- in Go it is an int.
--
-- Not modelled: the text and the levels of log messages, the gRPC and HTTP transport, the parsing
-- of command-line flags, and GetJson, which is one call of the encoder of the standard library.
pub mod Base
pub mod Constants
pub mod Model
pub mod Config
pub mod Logger
pub mod Utils
pub mod ReqQueue
pub mod Scheduler
pub mod Storage
pub mod ReqScheduler
pub mod AwsClient
pub mod FuncManager
pub mod ApiServer
mod Tests
