-- ===== src/Lib.antt =====
-- InstaCloud OSS is a daemon that runs the projects of a team on one machine: every branch of a
-- project has databases, apps and managed services, each one a container. This library models the
-- parts of the daemon (src/ of the repository) that decide something by themselves.
--
-- Parts, and how they meet:
-- * Scheduler (src/scheduler.ts): which services run. `Scheduler` is the state of the class, with
--   the fields of the source: the ledger, the counts of operations and holds, the wakes in flight,
--   the snapshot of what docker runs. Snapshot folds the listings of docker in (absorb, stateOf);
--   Sleep is the idle rule and `sleep`; Evict is `evictForRoom`; Wake is `wake`, `wakeLocked` and
--   `awaitReady`. A wake makes room by evictions, and an eviction is a sleep. Lock is the operation
--   lock over several keys by itself (withOp, tryWithOp, enqueue, release): its promises are the
--   lists of the acquisitions that they wait for, and its calls and ends are a step relation. The
--   other files of the scheduler keep its counts only.
-- * Govern (src/govern.ts) over Store (src/state.ts): policies and one-shot approvals, kept in the
--   state document, which every change saves with a new revision. Store/Reservations is the
--   recovery of abandoned reservations at boot and Store/Migrate the migration of old documents,
--   each over the parts of the document that it reads.
-- * Router (src/router): Table has the names and the routes of the state document (table.ts), Lane
--   the step that resolves an address or wakes the service through the scheduler (wake.ts), Wire
--   the postgres packets of its readiness probe, Domains the check of custom domains and Attach
--   the names that they may have (domains.ts).
-- * Identity (src/identity.ts, src/auth.ts): who may use the daemon. Device is the store of the
--   codes of a device login, Limiter the failures of sign-ins by address, Sessions the admin, the
--   sessions and the edits that `touchLater` queues, Keys the API keys, Cookie the signed session
--   cookie, Guard the hook in front of the routes with resolveActor, isPublicPath, isCrossSite and
--   resetAdmin, and SignIn the handlers that sign up, sign in, refresh and collect a device login.
--   SignIn uses the limiter and the sessions, and the guard reads sessions, keys and the cookie.
-- * Upstream (src/upstream.ts): the cache of container addresses that the scheduler drops entries
--   of and the router's lanes read.
-- * Metrics (src/metrics-history.ts): the samples of each container and the range queries on them.
-- * SqlSurface (src/sqlsurface.ts): the mask of a statement, the stripping of the comments before
--   it and its last keyword. GitDeploy (src/gitdeploy.ts): the build command and the payload of a push.
-- Base has the helpers of all: tests, equality as an interface, lists, and maps in insertion order.
--
-- How the code is read: a method is a function from the state to its result and the next state. An
-- awaited call is a parameter that takes the state in which it is made and answers the state in
-- which the code goes on; what other tasks of the daemon do meanwhile, and the time that passes, are
-- in that parameter. `Date.now()` is the field `clock`, which moves at awaits only. Exceptions are
-- values. Calls of hooks and warnings are a log. Docker, DNS, hashes, `toLowerCase` and the
-- floating-point numbers are parameters, and so are the percent coding and the parsing of URLs; random
-- draws are arguments; comparisons of the code that divide are multiplied out, with
-- no rounding. Strings are native where they are only compared, and lists of code units where the
-- code walks them.
--
-- Bounds: an eviction pass has the 10000 rounds of the source, and ends before them if fewer
-- services than that appear while it runs. The waits for readiness (`awaitReady`, the probes) have
-- rounds as fuel, with a theorem on how many are enough. A mask has as many rounds as characters, and the
-- stripping of comments one more; none of them runs out.
--
-- The draws of user codes of a device login are a list, whose end is told apart from a refusal.
--
-- Not modelled: the whole sweep of the scheduler, which stops several services at once, the engine
-- and its adapters, the rest of the HTTP API, the shapes of the identity routes' answers,
-- certificates, templates and the dashboard; saved metrics whose times, memory or traffic are
-- negative or no whole numbers, which `load` takes from a file that the daemon did not write; sockets, files and the docker program are I/O.
pub mod Base
pub mod GitDeploy
pub mod Govern
pub mod Identity
pub mod Metrics
pub mod Router
pub mod Scheduler
pub mod SqlSurface
pub mod Store
pub mod Upstream
