-- ===== src/Lib.antt =====
-- The daemon of lastore: it queues jobs that change the packages of a system, runs them, and keeps
-- for each kind of update the status that the control center shows.
--
-- The program's parts that are modelled, with paths from the repository's root:
-- - System: the vocabulary of src/internal/system/system.go, which all parts share: `Status`,
--   `JobProgressInfo` (`ProgressInfo`), `JobError`, job types.
-- - Job: src/lastore-daemon/job.go and speed_meter.go. A `Job` is a record, its methods are
--   functions from a job to a job. Job.Transition is src/lastore-daemon/start_job.go: the table
--   of states and `TransitionJobState`. Job.Update is `updateInfo`, which takes a progress
--   report in and calls `TransitionJobState`.
-- - JobQueue: src/lastore-daemon/job_queue.go. A queue holds pointers into a store of jobs, a
--   function from numbers to jobs; what shares a pointer shares the job.
-- - JobManager: src/lastore-daemon/job_manager.go, with `StartSystemJob`. A `Manager` holds the
--   store of jobs, the queues and the counter of ids. JobManager.Search and JobManager.Create
--   are how a job is found or made, JobManager.Kinds is `CreateJob`, JobManager.Dispatch is a
--   round of `dispatch`, and JobManager.Inform hands reports to the jobs. It calls JobQueue for
--   the order of jobs, and Job.Transition and Job.Update for the change of one job.
-- - Inhibitor: src/lastore-daemon/inhibitor.go, the lock against a shutdown that the manager
--   takes while jobs run; its holders share one file descriptor and a count.
-- - Peaks: the limit for downloads that the update platform sets for peak and off-peak hours, of
--   src/lastore-daemon/manager_download.go, and the monitor that puts it in force,
--   src/lastore-daemon/peakOffPeakMonitor.go: `start`, `refresh` at given times, `stop`.
-- - RateLimit: src/internal/ratelimit/ratelimit.go, the limits that the delivery service is sent
--   and the check of the local ones, and `UpdateDeliverySpeedLimit` of
--   src/internal/updateplatform/message_report.go, which puts the two together.
-- - Mirrors: src/lastore-smartmirror-daemon/quality.go. The map of qualities is a function that
--   each operation takes and gives back, since a comparison of two mirrors may add to it.
-- - Stanza: the text form of a package record in
--   src/lastore-update-tools/config/cache/package.go, what `EncodeMap` writes and `Decode`
--   reads. A text is the list of its bytes, and a Go map the list of its fields in the order of
--   the loop.
-- - AptClean: src/lastore-apt-clean/main.go, which package files it deletes or lists; what dpkg
--   prints is a parameter.
-- - Agents: src/lastore-daemon/agent.go, the agents and sessions of each user, with the methods
--   and signal handlers of manager_ifc.go and manager.go that change them and the record that
--   outlives the daemon (Agents.Record). A handler is the list of its calls of the map's
--   operations, each of which holds the lock, and the calls of handlers that run at the same time
--   come in any order (Agents.Handlers.Schedule). The restore at the start runs alone. A Go map is a list of keys and values
--   (Base.Assoc), a map that is nil is none, and a write to it is a panic.
-- - Command: src/internal/system/command.go with the set of commands of
--   src/internal/system/apt/apt.go. A command is found by its pointer, a number, in a store, and
--   what the indicator is told is a list. Command.Env is `SetEnv`.
-- - Apt: src/internal/system/apt/apt.go and proxy.go: names of packages, command lines, what the
--   messages of apt-get mean (Apt.Messages), and the operations (Apt.Operations, Apt.Requests)
--   with what the outside answers as arguments. `safeStart` starts the simulation, and
--   `simulated` is what follows when that has ended.
-- - Auth: src/lastore-daemon/manager_auth.go with `checkInvokePermission` of manager.go. The
--   lists of `strv`, a library, are a parameter with its documented laws (`IsStrv`); the owner of
--   a name on the bus, the answer of polkit and the errors of the file system are arguments.
-- - UpdateType: the bits of src/internal/system/update_type.go.
-- - UpdateStatus: src/lastore-daemon/update_status.go, with the bits of the daemon's status from
--   src/internal/config/config.go. `StatusManager` holds the fields of `UpdateModeStatusManager`
--   and the values that it keeps in the configuration.
--
-- Functions have the source's names in snake case. Go's `int` and `int64` fields that may be
-- negative are integers without a bound: of a job they are counted in steps of one. The product of
-- a rate and 1024 wraps at 64 bits (`to_int64`), and so does the total of AptClean; the counts and delays of mirrors are
-- natural numbers. Numbers of bits in sets of kinds of updates are natural numbers. `float64` is
-- the record `Float`, a parameter: nothing is assumed of its operations. Parameters are also
-- `sort.Sort` (a function that rearranges a list), `json.Marshal`, `time.Parse`,
-- `strings.ToLower`, `strconv.Itoa`, the clock, the answers of the package manager (`Env`,
-- `Outside` and `Machine` of JobManager) and the hooks of a job, which run while the job is
-- unlocked and may change it, but no other job. A loop over the map of queues meets them in the
-- order of a list, which stands for any order; so does a loop over any other Go map.
--
-- Fuel: `TransitionJobState` calls itself after a job succeeded. `transition` takes fuel for these
-- calls, and two is enough for hooks that leave the status and the
-- follower of their job alone. The merge sort of mirrors takes
-- the length of its list.
--
-- Not modelled: the D-Bus service, the signals for other properties than the status, log lines,
-- the processes, files, the locale that handlers set, a scanner's limit on the length of a line, and locks: an
-- operation that holds a lock is one step. A nil pointer that is read, such as a queue that the
-- manager does not have, is a panic, which is to not return. The fields `PolicyTyp`, `initiator` and `service` of a job are
-- read by no operation here.
pub mod Base
pub mod System
pub mod Job
pub mod JobQueue
pub mod JobManager
pub mod Inhibitor
pub mod UpdateType
pub mod UpdateStatus
pub mod Agents
pub mod Apt
pub mod AptClean
pub mod Auth
pub mod Command
pub mod Mirrors
pub mod Peaks
pub mod RateLimit
pub mod Stanza
