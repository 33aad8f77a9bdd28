-- ===== src/Lib.antt =====
-- NexusOS: an agent on the user's desktop runs tasks that a backend hands out. This library models
-- the parts that decide what may run and in which order, as functions over explicit states, and
-- proves what they guarantee.
--
-- How the parts interact. The backend moves a task through its life cycle (TaskStates:
-- services/backend/src/tasks/state-machine.ts) and signs a lease for it (Leases/Issuer:
-- services/backend/src/leases/lease-issuer.ts). Leases are delegated on to other agents with fewer
-- scopes (Leases/Scopes: services/backend/src/agents/attenuation.ts). On the desktop the admission
-- controller (Scheduler/Admission: apps/desktop-agent/src/scheduler/admission-controller.ts) asks
-- for the agent's life cycle (Lifecycle: apps/desktop-agent/src/lifecycle/index.ts) and has the
-- lease checked by the boundary (Leases/Boundary:
-- apps/desktop-agent/src/permissions/lease-boundary.ts), which asks the policy evaluator (Policy:
-- services/policy/src/evaluator/reference-evaluator.ts). Tasks that are let in wait in the
-- execution queue (Scheduler/Queue: apps/desktop-agent/src/scheduler/execution-queue.ts), in the
-- lanes that Scheduler/Policies (priority-policy.ts and retry-policy.ts beside it) gives them.
--
-- Workflows are parsed into an order of their nodes (Workflow:
-- apps/desktop-agent/src/workflow/dag-parser.ts). Around these stand the rate limiter of the local
-- IPC (RateLimiter: apps/desktop-agent/src/ipc/rate-limiter.ts), the connection to the control
-- plane (Connection: apps/desktop-agent/src/communication/connection-state-machine.ts), the
-- registries (Registry: apps/desktop-agent/src/registry), the notification queue (Notifications:
-- apps/desktop-agent/src/notifications/notification-queue.ts) and the telemetry spool (Telemetry:
-- apps/desktop-agent/src/telemetry). In the backend the agent directory (Directory:
-- services/backend/src/agents/agent-directory.ts) knows the agents of each tenant and publishes
-- their changes to the event stream (Events: services/backend/src/events/stream-event-bus.ts, with
-- the cursors and events of packages/contracts/src/events/stream.ts), which clients follow and
-- resume. The agent keeps what tasks read in a memory cache (MemoryCache:
-- apps/desktop-agent/src/memory/memory-cache-store.ts), bound to task, workspace, lease and
-- policy. Base holds what the modules share, Host what they take from Node.js and zod, and
-- Examples the theorems at concrete inputs.
--
-- Ordering. The event bus, the directory and the queues run each call to its end. The methods of
-- the memory cache that wait are cut into segments (MemoryCache/Segments): the two parts of put,
-- and the parts of the clearing methods and of evictExpired between the removals that they wait
-- for; any segment may follow any other.
--
-- Correspondence. A class is a record of its fields, a method a function that takes the record and
-- returns it with the result, under the method's name in snake case. A method with several steps
-- has a definition for each (Leases/Issuer check_delegation has the checks of issueDelegatedLease,
-- Policy apply_rule the end of evaluate). Thrown errors are thrown, a sum or none; null results
-- are none. The clock, random numbers and identifiers are arguments. Maps are association lists in
-- insertion order. Times, sizes and counters are natural numbers; where the source subtracts
-- times, the model compares sums, which says the same over the integers.
--
-- Parameters. Date, HMAC-SHA256 and the format checks of zod are the fields of Host.Host, of which
-- only the round trip of Date is assumed (Host.ReadsBack), where a theorem says so. That a UUID
-- has 36 characters is the hypothesis Directory.Capacity.UuidSized. JSON texts, the redaction
-- filters, localeCompare, the pressure on the heap and the success of writes to disk are arguments
-- of the operations that use them.
--
-- Bounds and fuel. All recursion is on lists, texts or numbers, so every operation returns; where
-- the source would not, on a replay buffer of capacity 0, the result says so
-- (Events.Bus.never_returns). The walk of a workflow has one more than the sum of the degrees of
-- its graph as fuel; each tier that has a next one lowers that sum (Workflow/Termination). The
-- digits of a number are drawn with fuel one more than the number (Base.Text.decimal), which has
-- no more digits than that. Dates past the range of ECMAScript throw, as in the source
-- (Host.iso_of).
--
-- Not modelled: the texts of error messages, apart from the values that they quote; the timer of a
-- reconnection; reading and parsing the files of the spool and of the notification queue (their
-- items are arguments); fractional multipliers of a backoff, and the delay before a retry, which
-- is a product of floating-point numbers; the number that evictExpired returns; the task scheduler
-- over the queue, the workflow engine, the backend's memory and planner, the runtimes, event
-- listeners that call the bus back, and all that only does input and output.
pub mod Base
pub mod Host
pub mod Policy
pub mod Leases
pub mod Scheduler
pub mod Telemetry
pub mod TaskStates
pub mod RateLimiter
pub mod Lifecycle
pub mod Connection
pub mod Events
pub mod Directory
pub mod MemoryCache
pub mod Workflow
pub mod Notifications
pub mod Registry
pub mod Examples
