-- ===== src/Lib.antt =====
-- agentless-monitoring: a server that monitors machines without agents. It stores the machines and
-- their checks in SQLite, makes the checks on a schedule with a pool of workers, finds new machines
-- by scanning local networks, and serves web pages behind a login. This library models its core in
-- functions that can be run, and proves what they promise.
--
-- The parts and their files:
--
-- - Storage (Storage.Tables, Storage.Transaction): the rows of internal/storage/migrations that the
--   stores read and write, the ids that SQLite gives out, and transactions, which give the tables
--   back when the body returns an error. Columns that no code reads are left out. Each method of a
--   store takes a test that says which of its database calls fail, so every error path is a value.
--   Migrations is migrations.go, on a schema of any type; Steps is about one step of its loop, Ledger
--   about what its ledger tells, Resumption and Completion about runs that fail and that succeed.
-- - Machines: internal/machines/store.go. Input is validateCreateInput, Machines.create is Create,
--   Record is recordResult with the thresholds of a check, Listing is List, ListDue, Summary,
--   GetByCheckID and ListResults. Invariant says that a machine has the status of its enabled checks,
--   Creation and Recorded say what the two transactions leave, Effects what a recorded result does to
--   the tables, with Clipping for its texts, Rows for its rows and Calculated for the status of a
--   machine, Thresholds what the counters of a check
--   mean over a history of results, and Due what the queries return.
-- - Monitoring: internal/monitoring. Scheduler is scheduler.go as a transition system: a state holds
--   the channel, the set of checks in flight, and where the dispatching goroutine and each worker
--   stand; a step is what one goroutine does between two operations that another can see. Holding
--   counts where a check is, and Exclusion holds the invariant. Runner is runner.go, with the
--   endpoints that a run contacts beside its result; Endpoint is about the URL that it puts together,
--   and Policy says where the contacts are.
-- - Auth: internal/auth. Passwords is password.go with the text of a hash (RoundTrip: what is written is
--   read back). Users is store.go: prepare_administrator and insert_administrator are the two halves
--   of CreateAdministrator, before and within its transaction, and authenticate is Authenticate with
--   its audit log; Administrators, Logins, Audit and FirstLogin are about them. Sessions is
--   sessions.go; Expiry is about times as the texts that SQLite compares, Resolve and Lookup about
--   SessionByToken, Creation and Deletion about the two other methods.
-- - Server: Limiter is internal/server/limiter.go; Records, Attempt, Sweep, Window and History go from
--   one record of the maps to every history of calls. Web is web_support.go: cookies, CSRF tokens and
--   the address of the client (ClientAddress). Handlers is auth_handlers.go: the state is a World of
--   the tables, the limiter and the flag of a scan, and a handler is a function from a request and a
--   World to a Response and a World. Forms has setupSubmit and loginSubmit, Actions the other POST
--   handlers and the mux over them (submit), Pages the GET handlers; Access and SignIn are about them.
-- - Config: internal/config/config.go; Validity is about what a loaded configuration promises.
-- - Net: the part of net/netip that the program calls, and internal/netpolicy/targets.go; Prefixes are
--   blocks of addresses, Zones is about the zones of IPv6 addresses.
-- - Discovery: internal/discovery. Target is ParseTarget of scanner.go with its loops (Runs,
--   Bounds: which addresses they give), Ports the helpers of store.go on ports and
--   classification.go, Fingerprints the normalisation and Identity the groups in identity.go, Jobs the
--   jobs and RecordProbe, Listing the lists of jobs, groups and devices, Import is ImportDevices,
--   Service is service.go, with the results of a scan as an argument and, for each call of the store,
--   the database calls that fail in it.
-- - Common: lists measured by native numbers, tests, results with an error, texts as bytes, splitting
--   and joining, decimal numbers, Base64, UTF-8, association lists for Go's maps, signed integers, and
--   sorting.
--
-- How they meet: the scheduler asks ListDue for machines, the runner makes their checks under the
-- network policy, and recordResult stores the outcome; an import of discovered devices creates
-- machines and checks in the same tables, under the same invariant. A login asks the limiter under the
-- address of the client, then authenticate, and then create_session in the same tables; every other
-- form is answered only for a session that session_by_token finds, and calls the stores above.
--
-- Numbers are native natural numbers; a time is nanoseconds since Go's zero time, and the clock's
-- reading is an argument. Integers that can be negative in a request are a sign and a magnitude. A map
-- that is ranged over has its order as an argument. Parameters stand for what is not in the
-- repository: netip.ParseAddr and ParsePrefix and the printers of addresses, net.ParseIP and net.SplitHostPort,
-- url.Parse, the text of a url.Error, time.ParseDuration, SHA-256, argon2, strings.ToLower, unicode.IsControl, the text of a
-- time of whole seconds, the reading of a time, the replies of the network, and the random bytes, each
-- of which may be missing.
--
-- Fuel: the eviction of the limiter deletes an entry a round, so the size of its map is enough; the
-- loops over the addresses of a target stop with 257 rounds, since they return at the 257th address;
-- a client follows at most two redirects, so three requests are enough; trimming and splitting a text
-- and counting its runes takes a byte or more off a round, so its length is enough.
--
-- Not modelled: the templates and static files, the security headers, the health handler and the log
-- of requests, since they only print; the counters of the scheduler that two pages show; the opening
-- of the database; the goroutines of a network scan, its probes and LocalCIDRs, which are input from
-- the network; a second Run of a scheduler and the names of workers; the command line. The channel
-- that bounds how many passwords are hashed at once is a call that may fail.
pub mod Common
pub mod Auth
pub mod Config
pub mod Server
pub mod Net
pub mod Storage
pub mod Machines
pub mod Monitoring
pub mod Discovery
