-- ===== src/Lib.antt =====
-- bunshin: a pool of shell sessions. A broker per stack hands idle runners to browser sessions and
-- keeps the table of runners in DynamoDB; a runner executes the commands of its session in a
-- persistent bash. This library models the Go code of broker/, runner/ and integration/cmd/, and
-- the reader of the event stream in front/.
--
-- How the parts meet. The proxy asks GET /resolve/session of the broker's handler with the session
-- cookie. The handler calls the service, which looks the session up in the repository, checks the
-- health of the runner over HTTP, deletes the row of a dead one and acquires another. Where a stack
-- has no idle runner, the handler names the next stack and the ones behind it in two response
-- headers, and the proxy asks there if it knows that stack. A runner resolves its identity,
-- registers through the same handler until it is answered by 201, serves, and deregisters when a
-- signal ends it.
--
-- Files, with the code each is about:
-- - Common (Tests, Lists): names and lemmas that all modules share.
-- - Text (Laws, Separated, Decimal): texts as lists of runes, with what the code uses of the
--   packages strings, strconv and encoding/hex, written out.
-- - Broker.Outcome: results as values; `err` carries the error, `out_of_fuel` ends a loop.
-- - Broker.Model: broker/model/runner.go and error.go.
-- - Broker.Stacklist (Names, Circuit): broker/stacklist/stacklist.go, Split and Parse.
-- - Broker.Config (Ports, Stacks, Backend): broker/config/, NewStackFromEnv,
--   NewRunnerAPIPortFromEnv and NewRepositoryFromEnv over a parameter for os.Getenv.
-- - Broker.Store (Operations, Table, Documented, Pages, Acquire, Effects, Reads, Changes, History,
--   Adapter, Shared, Current): broker/store/repository.go and dynamo.go. Operations has the methods
--   of DynamoRepository over a client that is a parameter (dynamoDBAPI); Documented says what is
--   assumed of DynamoDB, as laws over the table of runners; the other files are about what each
--   method does to the table. Adapter (Settings) is broker/store/dynamo_adapter.go, which makes the
--   client, over the SDK. Shared (Acquire, Exclusive) is AcquireIdle where other brokers write to
--   the table between its requests. Current (Scanning, Exact, Finding) is about an index that shows
--   the table as it is.
-- - Broker.Service (Contract, Create, Resolve, SessionIds, Serving, Shared):
--   broker/service/service.go. Contract is the interface that the service needs of its repository,
--   and its instance for DynamoDB; Serving (Creating, Resolving) is about a runner that stays
--   healthy, and Shared (Creating, Resolving) about other brokers that write to the table during
--   and between the calls.
-- - Broker.Handler (Middleware, Fallback, Responses, Registration, Deregistration, Staying):
--   broker/handler/handler.go and middleware.go, with gin's request and response as the records
--   Request and Response. Fallback is about the two headers that name the stacks that are left.
-- - Broker.Router (Answers): newRouter of broker/main.go, the routes as data; matching a path is
--   gin's, and what gin answers where no route fits is a parameter. Answers (Handlers, Served) says
--   what an answer of each route looks like. Broker.Main and Broker.Process: defaultInitHandler,
--   run and main of the same file.
-- - Broker.Healthcheck: broker/healthcheck/checker.go.
-- - Runner.Shell (Stream, Stderr, Scanner, Output, Calls, Start): runner/shell.go, ExecuteStream
--   over the scanned lines and readStderr over the chunks of the pipe. Scanner and Output put
--   bufio.ScanLines in front, so that they are about the bytes that bash prints; Calls is about
--   many commands in one shell; Start (Pipes) is newBashShellFromCommander and Close. A call that
--   waits for a marker on stderr that never comes has no result.
-- - Runner.Identity (Ids): runner/identity.go.
-- - Runner.Registration (Rounds, Wire): runner/register.go. Rounds is about any HTTP client. Wire
--   (Entering, Looping, Leaving) puts a network between the runner and the router of the broker,
--   which may lose a request or an answer, and is about the table of runners behind it.
-- - Runner.Process (Listener, Leave, Life): start, run and main of runner/main.go; Life puts them
--   over the network of Wire. Runner.Validator.Settings: newJevValidatorFromEnv of the same file.
-- - Runner.Manager (Lookups): runner/shell_manager.go. Runner.Validator (Verdicts, Attempts):
--   runner/validator.go over an HTTP client, a JSON decoder and floats that are parameters.
-- - Runner.Execute (Effect, Gate, Client, Delivery, Sse, Displayed): runner/handler.go,
--   handleExecute and parseClientAddress; netip is a parameter, as are the validator and the shell
--   behind their interfaces. Delivery puts ExecuteStream of Runner.Shell behind the second of
--   these, with bash as a parameter; Sse is writeSSE and the body of a stream, and Displayed puts
--   all of it together with the page. Front.Events (Chunks): front/src/client.ts, readEvents, which
--   reads that body in the browser. Runner.Sessions: handleCreateShell and handleDeleteShell of the
--   same file. Runner.Router (History): newHandler and handleHealth of the same file, as one step
--   on the map of shells for each request.
-- - Integration.ForwardTarget (Latest): integration/cmd/forward-target/main.go, the recorder and
--   the two handlers; each section under the lock is a step. Integration.ForwardCert (Files):
--   integration/cmd/gen-forward-cert/main.go, run and writePEM over a file system that is a
--   parameter.
-- - Examples: Memory has a table in memory that meets the laws of Documented; the others have the
--   theorems at concrete inputs.
--
-- State and calls. A method becomes a function from its receiver, its arguments and a world to an
-- outcome and a world; the world is what the parameters (the client, the HTTP check, the source of
-- random ids, the channel) act on. The table of runners is read off the world. Text is a list of
-- runes; an int is a sign and a magnitude.
--
-- Bounds and fuel. Three loops of the code have no bound in it: the pages of a query, the rounds of
-- createSession, which deletes an unhealthy runner and tries again, and the attempts of a runner to
-- register. The first runs on fuel that bounds the number of pages that DynamoDB gives
-- (Documented), the second on fuel above the number of idle rows, as each round uses up one of
-- them. The third may go on for ever: its theorems hold for every fuel, and running out of it is a
-- result of its own. The validator tries three times and has fuel for three. Ports are bounded by
-- 65535, exit codes by what an int of 64 bits holds; the scanner of stdout ends at a line of 1 MiB
-- or more.
--
-- Not modelled: the log lines, the router that newRouter makes without a handler, the ports and the
-- exit codes of the two tools of integration/cmd/, the proxy, the rest of the page in the browser,
-- and the infrastructure. The servers, the signals, the SDK, JSON, the clocks and the bash process
-- are parameters. In the histories of Store the calls of several brokers are whole calls, one after
-- the other; AcquireIdle and the sessions of the service are also modelled request by request
-- (Store.Shared, Service.Shared). Between two attempts of a registration anything may happen to the
-- table.
mod Common
pub mod Text
pub mod Broker
pub mod Runner
pub mod Integration
pub mod Front
mod Examples
