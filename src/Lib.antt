-- ===== src/Lib.antt =====
-- A verification library for the Engine API Workflow, a Go service that queues workflow tasks in
-- Redis, runs the steps of a workflow and retries what fails.
--
-- The program's parts. The API stores workflows in MongoDB and enqueues tasks through the queue
-- repository (internal/repository/redis/queue_repository.go). The worker engine
-- (internal/worker/engine.go) takes a task, runs its workflow with the executor
-- (internal/worker/executor.go), and marks the task completed, or asks the retry manager
-- (internal/worker/retry.go) whether to enqueue it again. The types that they pass around are in
-- internal/models. The notification service (internal/services/notification_service.go) stores
-- e-mails through its repositories of notifications and templates and sends them, at once or in
-- the batches that the notification worker starts.
--
-- The files, and the code that each models:
--   Common: shared names, tests on numbers, signed integers, lists, decimal texts.
--   Models/Value: `interface{}` values and maps, times and durations.
--   Models/Task (queue.go): QueueTask, TaskStatus and their methods; proofs in Models/Task/.
--   Models/Workflow (workflow.go): Workflow, its steps and methods; proofs in Models/Workflow/.
--   Models/Notification (notification.go): EmailNotification, its validation and retries; the
--     form of an address in Models/Notification/Pattern, proofs in Models/Notification/.
--   Queue/Redis: the server as an interface, with the documented effect of each command.
--   Queue/Item, Queue/Pipelines, Queue/Repository (queue_repository.go): the items and the JSON
--     codec, the pipelines of commands, and the operations Enqueue, EnqueueDelayed, EnqueueAt,
--     Dequeue, MarkCompleted, MarkFailed, CleanupStaleProcessing(Tasks), RequeueFailedTask,
--     UpdateTaskStatus, GetOldestPendingTask and RescheduleTask, in snake case.
--   Queue/Census, Queue/Moves, Queue/Order, Queue/Rules, Queue/Loops: lemmas on the collections.
--   Queue/Balance, Queue/Counters: the invariant of the database, kept by each operation.
--   Queue/History, Queue/Dequeue, Queue/Identity: theorems on histories of the repository.
--   Queue/Named (queue_repository.go): Push, Pop, Length, Peek, Clear, PushPriority, PopPriority,
--     PushDelayed and ProcessDelayedJobs on the lists and sorted sets of a server; proofs in
--     Queue/Named/.
--   Queue/Service (internal/services/queue_service.go): EnqueueTask, DequeueTask, ScheduleTask,
--     ProcessScheduledTasks and RetryFailedTask on the same server; proofs in Queue/Service/.
--   Worker/Retry (retry.go): policies, delays, error patterns; proofs in Worker/Retry/.
--   Worker/Executor (executor.go): contexts, records of steps, conditions.
--   Worker/Executor/Actions (executor.go): executeStep and the actions.
--   Worker/Executor/Delays, Worker/Executor/Steps (executor.go): ExecuteWorkflow and Execute;
--     proofs in Worker/Executor/.
--   Worker/Engine (engine.go, retry.go): processTask, ScheduleRetry, handleMaxRetriesExceeded.
--   Worker/Pool (pool.go): the pool's state and its calls, which may hang; Worker/Pool/Scale: creation
--     and removal of workers and scaling; Worker/Pool/Work: dispatching, health, metrics and what the
--     workers do; Worker/Pool/Events: these in any order. Worker/Pool/Rules has the rules for
--     calls, and the other files of Worker/Pool/ the proofs.
--   Models/Template (notification.go): EmailTemplate and ValidateTemplate.
--   Repository: a collection of MongoDB as an interface, with laws; Repository/Notifications
--     (internal/repository/notification_repository.go) and Repository/Templates
--     (internal/repository/template_repository.go): the methods on one document, the queries of
--     the batches and the clean-up.
--   Services (internal/services/notification_service.go): what the service is built on and keeps;
--     Services/Sending: sendNotificationNow and handleSendError; Services/Cache: the cache and the
--     operations on templates; Services/Templating, Services/Requests: SendEmail and the requests
--     that the service makes; Services/Batches: the three batches; Services/Upkeep: cancelling,
--     resending, clean-up; Services/Defaults: the default templates. Proofs in Services/Delivery,
--     Services/Overdue, Services/Counts, Services/Attempts, Services/Refusals, Services/Coherence,
--     Services/History.
--   Blacklist (pkg/jwt/blacklist.go): BlacklistToken, BlacklistTokenWithReason, IsBlacklisted,
--     GetBlacklistInfo and BlacklistAllUserTokens; proofs in Blacklist/.
--   Tests: servers in memory, text codecs, a clock, small workflows and pools.
--
-- State and effects. The repository is a state monad over the server's store whose calls may fail,
-- and what was done before a failure stays done. Redis and encoding/json are parameters: records of
-- operations with laws. The lists and sorted sets under any names have a server of their own, with
-- one law for each command. A reliable server is one on which no call fails. The executor passes an
-- explicit world, which holds the clock, the context and the log; the real action executors are
-- values of its fields. A run that panics is a value of its own.
-- The pool is a state monad whose calls return, hang on the pool's lock or panic. A goroutine's turn is
-- one event, of a worker each section under its lock, and a sequence of events stands for an
-- interleaving; an event reads the clock once.
-- The notification service passes its own state, with those of the two collections and of the mail
-- service, which are records of operations with laws; a call has one time, a batch that of its query
-- and that of what follows. A notification that the source changes through a pointer is returned.
--
-- Bounds. Times and durations are unbounded natural numbers, and signed ones are integers, except
-- for the executor's pauses and the delays of the retry manager, which wrap around at 64 bits as in
-- the source; what the retry manager computes in float64 is a parameter. ExecuteWorkflow's loop
-- is recursion on the rounds that are left of its own bound, twice the number of steps, and the
-- attempts at a step on the limit of retries, so no fuel is added. The decimal text of n has fuel
-- n + 1, and n has no more digits than that. The rounds of a worker that fails a task of the queue
-- service are on fuel, and one more than the retries that are left is enough. Ratios in floating
-- point are fractions. The driver of Redis writes the time to expiry of a key in whole seconds.
--
-- Not modelled: MongoDB's other repositories, the lists, searches and statistics of the two that
-- are modelled, HTTP handlers and middleware, configuration, logging, the services for SMTP, cache,
-- authentication and backups, which call other systems; the notification worker and metrics, which
-- are goroutines and timers; of the pool the tickers and channels of its loops, the wait groups and
-- the maps of statistics; the real action executors; of the queue repository the readers of counts
-- and the job status; of the revoked tokens their clean-up and statistics; the parsing and rendering
-- of templates, which are parameters.
pub mod Common
pub mod Models
pub mod Queue
pub mod Worker
pub mod Repository
pub mod Services
pub mod Blacklist
pub mod Tests
