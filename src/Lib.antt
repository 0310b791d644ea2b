-- ===== src/Lib.antt =====
-- Verification of OpenVibe.Host, the command `ovhost` that deploys the services of a host: what it
-- does to checkouts, systemd units, vhosts and locks, and when it refuses to.
--
-- The program is asynchronous JavaScript over one module that touches the machine
-- (lib/executor.js). Here an operation is a function from a state to a result and a state
-- (`M` of Host/Exec.antt): each awaited call of the executor is one step that appends the call and
-- its answer to a trace, and the machine is a parameter (`Env`), a function that answers calls in
-- any way it likes. Beside it `Env` holds the functions of JavaScript itself that the program uses
-- (`JSON.parse`, `Object.keys`, `localeCompare`, `new URL`), and nothing is assumed of them. A throw
-- is a result, and what was done before it stays done.
--
-- Which file models which part:
--   Host.antt, Host/        calls and answers of lib/executor.js, JSON values, the record of the
--                           release log, the monad, and rules to reason about it: one rule for each
--                           way to build an operation (Rules), time that passes (Rules/Clock), the
--                           calls that were issued (Rules/Issued), and loops (Waiting)
--   Inventory.antt          the entries of the inventory as lib/inventory.js returns them
--   Probes.antt             lib/probes.js: how many sessions a restart would cut
--   Sessions.antt           guardSessions of lib/release-ops.js: what happens to them
--   Readiness.antt          lib/readiness.js: probe and waitReady
--   Systemd.antt            lib/systemd.js: systemctl with its guard on socket units
--   Lock.antt               lib/lock.js: a lock file per service; Lock/Race.antt lets the awaited
--                           calls of several processes that do not stop interleave, each call one
--                           step (Excludes, Stale and Unread say what comes of it)
--   DeployGuard.antt        lib/deploy-guard.js: the host-wide lock, and the wait for memory
--   Releases.antt           lib/releases.js: the log, and the release to return to
--   Git.antt                lib/git.js
--   Deps.antt               lib/deps.js: installs, and the proof that each dependency resolves
--   Preflight.antt          lib/preflight.js
--   Nginx.antt              lib/nginx.js: install of vhosts as one change
--   Freezes.antt            the freezes of lib/incidents.js
--   ReleaseOps.antt         lib/release-ops.js: matchesPath (Patterns), computePlan (Plan), the steps
--                           of apply (Actions), apply (Apply), plan, deploy and rollback (Entrances)
--   ReleaseLayout.antt      lib/release-layout.js: the releases there are and which is current or in use
--                           (State), computePlan (Plan), its steps (Steps), apply (Apply)
--   BackupCrypto.antt       lib/backup-crypto.js: keys (Keys), the file format (Format), the two streams
--                           (Streams); what is written (Written) and read back (Reads)
--   Retention.antt          lib/retention.js
--   Backups.antt            records and prune of lib/commands/backup.js
--   Offsite.antt            lib/offsite.js: uploadIterable, listRuns and pruneRemote (Remote)
--   Reconcile.antt          lib/reconcile.js: ciStatus, githubSlug and reconcile
--   Csv.antt                lib/executor.js: parseCsv (Csv/Printed describes what it reads)
--   Base.antt, Base/        tests, lists, text and paths as JavaScript handles them
--   Examples.antt           a machine that answers calls, and runs on it
--
-- How the parts interact: deploy asks Freezes, then apply takes the lock of the service (Lock) and of
-- the host (DeployGuard), computes a plan (Git, Deps, Systemd, Probes), asks the session guard, moves
-- the checkout, installs and verifies dependencies (Deps), builds, runs Preflight, installs vhosts
-- (Nginx) and unit files (Systemd), asks the session guard again, restarts the units and waits for
-- Readiness; where the service does not come up it goes back. In the end it writes the log
-- (Releases) and lets the locks go. The record that the source fills in as it goes and the object
-- that holds the host lock are shared by reference; they are fields of the state.
--
-- Loops that wait run on rounds. A wait with a deadline is given one round more than the
-- milliseconds of the wait; that is enough where the clock goes forward, since each round sleeps a
-- millisecond at least. A state in which a loop ran out of rounds says so (`exhausted`). The chunks of `checkoutPaths` are
-- counted by the files.
--
-- Numbers are natural numbers where the source counts or measures time, and integers where a value
-- comes from JSON; a number that is not finite is `none`. Log lines, messages of errors, reasons,
-- timeouts of single calls and file modes are left out. Calls that the source makes at once
-- (`Promise.all`) are made in the order in which they are written. What the inventory holds is not
-- checked here: lib/inventory.js is not modelled, nor is `backup` of lib/commands/backup.js, which is
-- a parameter of both engines, nor the web server under server/, the scripts and the browser code.
-- The cipher, the digests and `Date` are parameters, with what the code relies on as hypotheses. A
-- loop of a stream is given a round for each byte that is buffered. apply of lib/release-ops.js takes
-- the release-layout engine as a parameter, since its plan and its result are other records.
-- In parseCsv a text is read by code points, and an object is the list of its entries in the order in
-- which they were set.
pub mod BackupCrypto
pub mod Backups
pub mod Base
pub mod Csv
pub mod DeployGuard
pub mod Deps
pub mod Examples
pub mod Freezes
pub mod Git
pub mod Host
pub mod Inventory
pub mod Lock
pub mod Nginx
pub mod Offsite
pub mod Preflight
pub mod Probes
pub mod Readiness
pub mod Reconcile
pub mod ReleaseLayout
pub mod ReleaseOps
pub mod Releases
pub mod Retention
pub mod Sessions
pub mod Systemd
