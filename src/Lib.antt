-- ===== src/Lib.antt =====
-- A model of the core of Crypto Edge AI, translated from tools/data-poc/src: the scanner, which
-- filters candidates and judges the security of their tokens, the policy of the data sources, and
-- the automation, which decides when a data cycle runs, runs it under a lock and keeps its state.
--
-- The parts and their files.
-- - Scanner/Types: the records of types.ts. Scanner/Filters: filters.ts (applyBasicFilters is
--   apply_basic_filters). Scanner/Security: securityRules.ts (evaluate_security). Scanner/Normalize:
--   normalizeSecurity.ts (normalize_security), on the JSON values of Json. Scanner/Combined and
--   Scanner/Output: combinedScanner.ts (build_combined_candidate, build_summary and
--   build_combined_scanner_output, whose loop calls the providers and may throw).
--   Scanner/Pair: normalizeDexScreener.ts (normalize_for_configured_token is
--   normalizeDexScreenerPairForConfiguredToken). Scanner/Discovery: selectProfileSeeds,
--   selectHighestLiquidityPair and deduplicatePairs of dexscreenerDiscovery.ts.
-- - Policy: sourcePolicy.ts (get_source_policy_decision, assert_source_action_allowed).
-- - Registry: sourceRegistryValidator.ts (validate_source_registry), with Registry/Valid for what a
--   valid registry is.
-- - Automation/Cadence: automation/sourceCadence.ts. Automation/Scheduler: schedulerDecision.ts.
--   Automation/State: the record of automationState.ts, and resumeAutomationState.ts.
--   Automation/Store: the rest of automationState.ts, which reads and writes the state's file
--   (Words: the enumerations; Values: the readers of single values; Normalize:
--   normalizeAutomationState; File: readAutomationState and writeAutomationStateAtomic; Valid: what
--   the file may hold). Automation/Lock: globalCollectorLock.ts (Acquire:
--   acquireGlobalCollectorLock with recoverStaleLock; Held: heartbeat, release and
--   inspectActiveGlobalCollectorLock; Exclusion: the processes that share the lock).
--   Automation/ErrorCode, Automation/Cycle and Automation/Coordinator:
--   centralAutomationCoordinator.ts (safeErrorCode and classifyAutomationFailure; the states that a
--   run writes; runCentralAutomation). Automation/Central: runCentralAutomation.ts
--   (runCentralSchedulerOnce, runCentralLiveCycleOnce). Automation/Published:
--   publishedSnapshotTimes.ts, over a reader of files.
-- - Common: the library's names, lists, tests and the results of code that throws. Number:
--   JavaScript's numbers. Date: its dates.
--
-- How they interact. A wake-up (Central) reads the state, asks the scheduler, which asks the
-- cadence, writes what it saw, and runs the coordinator if a run was decided; the coordinator takes
-- the lock, reads the state again, and writes it before and after the runner. The owner's
-- resumption is the only other writer of the state.
--
-- Automation/Central/Interleaving has both as steps on one store: a wake-up that reads and writes at
-- once, and one that reads first and writes later, beside the writes of runs.
--
-- Correspondence. A function's name is that of the source in this spelling. Code that throws
-- returns a Result; code that writes the state returns the states that it wrote, the latest first.
-- What a run meets outside of the code (the lock's answer, the store, the clock, the runner, a failed
-- heartbeat, the providers) is an argument: Environment, Wakeup, provider. Numbers that come from
-- providers are an abstract type with tests and no laws, so that NaN and rounding are covered;
-- counts and times are natural numbers. A time value counts milliseconds from the earliest date.
-- Loops are recursions on a list or a text, or on the rounds that the code itself counts: the eight
-- of an acquisition of the lock and the four readings of its file.
--
-- The state's file is the JSON value that it holds; how JavaScript writes numbers and dates is the
-- argument Format, with the laws that it documents. Of the lock the model has what its path holds. In
-- Lock/Acquire other processes may change that between the looks of an acquisition, and the recovery
-- of a stale lock is one step from the renaming of the file on; in Lock/Exclusion each operation is
-- one step. What the path holds after an attempt to create the lock that failed behind the opening of
-- the file is nothing if the file could be removed, or else the metadata if it was written and some
-- unparsable text if it was not.
--
-- Not modelled. The file system beyond the state's file and the lock's path, what other processes
-- do between the renaming and the removal of a stale lock, the clients and adapters of the
-- providers, the requests of the discovery, the links of a pair (an argument of Scanner/Pair), the
-- established universe, the follow-up basket, the lifecycle of candidates, and everything of
-- tools/ui-mock. toUpperCase, toLowerCase and trim are arguments. An own property that JSON cannot
-- hold is never met, and a property of a prototype is not looked up; the key __proto__, which an
-- assignment loses, is kept. The number of candidates to check for security is natural: the callers
-- clamp it to at least 1.
mod Common
pub mod Number
pub mod Json
pub mod Scanner
pub mod Policy
pub mod Registry
pub mod Date
pub mod Automation
