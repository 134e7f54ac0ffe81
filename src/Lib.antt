-- ===== src/Lib.antt =====
-- The votes store: users vote on one another, and the service keeps, for each pair of users, one row
-- with both votes (a romance), and for each user counters of the votes given and received.
--
-- Parts, and where they are modelled. A request reaches a route (Routes:
-- internal/context/voting/interface/api/rest/v1/register.go), decoded into a command or a query
-- (Commands, Commands.Resolve, Contract: the packages command, query and contract beside it), which
-- VotingService (Service: internal/context/voting/application/voting_service.go) turns into a key and
-- passes to an operation (Operation: internal/context/voting/application/operation); the route turns
-- the result into a body or an error with a status (Responses: the package response). The operations
-- work on two repository interfaces and a publisher (Repositories, Messages). Operation.Transitions
-- is the table of allowed vote types, Operation.Retry the loop that tries again after a version
-- conflict, and the modules named for operations hold their loop bodies. The implementation of the
-- interfaces (internal/context/voting/infrastructure/persistence) is RomancesRepository and
-- CountersRepository, with the row schemas in Documents; Persistence makes the interfaces from it,
-- and joins the theorems on operations to those on rows. The values of the domain
-- (internal/context/voting/domain) are SharedKernel, VoteType, Romance, HoursOffsets and the records
-- of Repositories; Config and Time are config/config.go and internal/shared/timeutil/time.go, and
-- AwsClients has the options of the clients
-- (internal/shared/platform/{dynamodb/client,amazon_sns/config}.go).
--
-- The deletion of a user's romances goes through two topics. Messages.Envelopes writes and reads the
-- messages (internal/context/voting/application/messaging/message), TopicHandler keeps the handlers
-- of topics and dispatches messages to them (internal/shared/messaging/handler.go), Handlers are the
-- two handlers and their registration (internal/context/voting/application/messaging/handler,
-- internal/app/bootstrap), and Listener acknowledges messages (internal/app/message_processor.go).
-- Sns is the publisher, and the names of topics and queues (internal/shared/platform/amazon_sns),
-- with Strings for the text functions of the language that it uses. Subscription is the goroutine of
-- the subscriber there, which receives messages, together with the listener, as a relation of steps
-- in which either may be next, or the environment.
--
-- Routing has the operations that are registered with the web framework, with their paths, and how a
-- request is matched to them (register.go, and internal/app/api/handler_factory.go). Wiring makes the
-- service of the two programs of all these parts (internal/app/di). DataStack is what is deployed for
-- them: tables, topics and queues (infra/data_stack.go), with DataStack.Calls for the requests that
-- fit it, and Network the load balancer before the program (infra/pipeline_network.go). TableHelpers
-- are the helpers with which the integration tests make the tables, and read and delete rows
-- (internal/testlib/helper).
--
-- State and effects. A world is a parameter of every definition: a call that may change something
-- outside is a function from a world to a result and the next world (Action). Errors are values
-- (Errors), and so is a panic where the code recovers from it. Logging is left out. The DynamoDB
-- client, the clock, the decoder of rows and the text form of UUIDs are fields of Platform, which any
-- caller may fill; Dynamo has the inputs of the client's calls, and Dynamo.Expressions evaluates the
-- update and condition expressions that the code writes, as DynamoDB documents them. Dynamo.Contract
-- states what the client is relied on for: an update is accepted only if its condition holds, an
-- update whose condition fails changes nothing, a read returns what is stored, and no error of the
-- client is the version conflict of the domain. JSON is a parameter of Messages.Envelopes, which is
-- relied on to read back what it wrote; the client of the message broker, MD5 and new UUIDs are
-- parameters of Sns. Tests has a database in memory with all of it, and small stores, on which each
-- theorem is applied once.
--
-- Representation. RomancesRepository.Represents relates a stored item to the romance that it stands
-- for, as one of the two users sees it: no item for the empty romance, or a row with the pair's ids
-- and a version that is not 0. The operations of the repository are compared with changes of that romance. Interleaving has requests for the votes of one pair that overlap: the reads and the writes
-- of the add, change and delete operations, by either user, in any order. Interleaving.Runs takes
-- runs of the operation that adds a vote for sequences of these steps.
--
-- Bounds. Counters are uint32s and hours int32s, with wrap-around written out; seconds since 1970 are
-- integers. The loop of the operations is recursion on the number of retries left. The loop over
-- pages in RomancesRepository.Peers runs on fuel and gives none when the fuel runs out, which
-- Persistence turns into an error that the code does not have; RomancesRepository.Peers.Paging has
-- the number of pages for which the fuel is enough. The loops of TableHelpers run for a number of
-- rounds: 51 are enough to wait for a table, for 10 seconds with a sleep of 200 milliseconds in each;
-- the pages of the records to delete are as many as the table has.
--
-- Not modelled: the web framework with its schemas and decoding of requests, the client of the
-- message broker, start-up and logging, which are calls of libraries; the deployment of the program
-- itself (the other files of infra); cancellation of a context within an operation; messages of the
-- two topics that are handled at the same time; in Interleaving, the deletion of a whole row, which
-- starts its versions again, and a write whose answer leaves open whether it was made; the reading of
-- peers beside the publishing of their groups, where the model reads all pages first; an error of the
-- client that answers an update before its condition is tested, such as throttling, where
-- Dynamo.Contract has a failing condition always answered as such; the order in which Go ranges over
-- a map, where the groups of an hourly query are summed one by one and the handlers of a topic run in
-- the order in which they were registered.
pub mod Prelude
pub mod Grouping
pub mod Errors
pub mod Uuid
pub mod SharedKernel
pub mod VoteType
pub mod Time
pub mod Config
pub mod Romance
pub mod Action
pub mod Dynamo
pub mod Documents
pub mod Platform
pub mod RomancesRepository
pub mod HoursOffsets
pub mod Repositories
pub mod Messages
pub mod Operation
pub mod CountersRepository
pub mod Contract
pub mod Commands
pub mod Service
pub mod Persistence
pub mod DataStack
pub mod Network
pub mod TableHelpers
pub mod Routing
pub mod AwsClients
pub mod Sns
pub mod Interleaving
pub mod Wiring
pub mod Subscription
pub mod Strings
pub mod TopicHandler
pub mod Handlers
pub mod Listener
pub mod Responses
pub mod Routes
pub mod Tests
