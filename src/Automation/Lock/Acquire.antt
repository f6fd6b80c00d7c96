-- ===== src/Automation/Lock/Acquire.antt =====
-- acquireGlobalCollectorLock and recoverStaleLock of
-- tools/data-poc/src/automation/globalCollectorLock.ts.
use crypto_edge_ai.Common.{
  ℕ, zero, suc, ◌+◌, String, Bool, true, false, not, ◌&&◌, ◌||◌, Option, none, some, ◌==◌, str_eq,
  if◌then◌else◌, Result, ok, err,
}
use crypto_edge_ai.Date.{DateText, iso, other}
use crypto_edge_ai.Automation.ErrorCode.{is_safe_text}
use crypto_edge_ai.Automation.Lock.{
  CollectorLockMetadata, written, unparsable, Disk, Reading, absent, failed, found,
  read_lock_metadata, read_lock_metadata_with_retry, normalize_ttl, create_metadata, is_expired,
}

pub data CollectorLockResult : Type 0 where
  acquired : CollectorLockMetadata → CollectorLockResult
  run_already_in_progress : (active : CollectorLockMetadata) → CollectorLockResult

-- What an acquisition meets: its options, the i-th reading of the clock, the i-th answer of
-- `isProcessAlive` (`none` if it throws), what others have made of the disk at its i-th look, and
-- which of its own steps succeed.
pub record Surroundings : Type 0 where
  pub pid : ℕ
  pub ttl_ms : Option (Option ℕ)
  pub clock : ℕ → ℕ
  pub alive : ℕ → ℕ → Option Bool
  pub others : ℕ → Disk → Disk
  pub makes_directory : Bool
  pub opens : Bool
  pub writes : Bool
  pub syncs : Bool
  pub renames : Bool
  pub restores : Bool
  pub removes : Bool

-- `===` on the texts of two dates.
unfoldable pub same_text : DateText → DateText → Bool
same_text (iso a) (iso b) = a == b
same_text (other a _) (other b _) = str_eq a b
same_text _ _ = false

unfoldable pub same_lock : CollectorLockMetadata → CollectorLockMetadata → Bool
unfolding same_text
same_lock m expected =
    str_eq m.run_id expected.run_id
    && m.pid == expected.pid
    && same_text m.started_at expected.started_at

module _ (s : Surroundings) where
  open s use {pid, clock, alive, others}

  -- `restoreMovedLock`, after which the given error is thrown.
  abbrev pub restore : Bool → String → String → Disk → Result (Unit {0}) × Disk
  restore true code failure moved = (err code, moved)
  restore false code failure moved = (err failure, none)

  -- The moved file is removed if it may be, or else moved back; what the lock's path holds then.
  unfoldable pub settle : Bool → Bool → Disk → Result (Unit {0}) × Disk
  settle true true moved = (ok tt, none)
  settle true false moved =
      restore s.restores "COLLECTOR_STALE_LOCK_RECOVERY_FAILED"
        "COLLECTOR_STALE_LOCK_RECOVERY_FAILED" moved
  settle false removes moved =
      restore s.restores "COLLECTOR_STALE_LOCK_RECOVERY_REJECTED" "COLLECTOR_LOCK_RESTORE_FAILED"
        moved

  -- An error of the check is thrown with the file moved away.
  unfoldable pub check_moved : Option Bool → Bool → Disk → Result (Unit {0}) × Disk
  unfolding settle
  check_moved none matches moved = (err "COLLECTOR_PROCESS_CHECK_FAILED", none)
  check_moved (some living) matches moved = settle (matches && not living) s.removes moved

  unfoldable pub recover_moved :
      CollectorLockMetadata → ℕ → Reading → Disk → Result (Unit {0}) × Disk
  unfolding check_moved same_lock is_expired
  recover_moved expected look absent moved = (err "COLLECTOR_STALE_LOCK_RECOVERY_FAILED", none)
  recover_moved expected look (failed code) moved = (err code, none)
  recover_moved expected look (found m) moved =
      check_moved (alive look m.pid) (same_lock m expected && is_expired m (clock look)) moved

  unfoldable pub recover_renamed : CollectorLockMetadata → ℕ → Disk → Result (Unit {0}) × Disk
  unfolding recover_moved read_lock_metadata
  recover_renamed expected look none = (ok tt, none)
  recover_renamed expected look (some file) =
      if s.renames
      then recover_moved expected look (read_lock_metadata (some file)) (some file)
      else (err "COLLECTOR_STALE_LOCK_RECOVERY_FAILED", some file)

  -- `recoverStaleLock`, on what the lock's path holds when the file is moved. From there to the end
  -- it is one step.
  unfoldable pub recover_stale_lock : CollectorLockMetadata → ℕ → Disk → Result (Unit {0}) × Disk
  unfolding recover_renamed
  recover_stale_lock expected look disk = recover_renamed expected look disk

  -- One round of the loop: an answer, or `none` for the next round.
  abbrev pub Round : Type 0
  Round = Result (Option CollectorLockResult) × Disk

  unfoldable pub continue : Result (Unit {0}) × Disk → Round
  continue (err code, disk) = (err code, disk)
  continue (ok _, disk) = (ok none, disk)

  -- What follows the answer on whether the active process lives.
  unfoldable pub judge : ℕ → CollectorLockMetadata → Option Bool → Disk → Round
  unfolding is_expired recover_stale_lock continue
  judge look active none disk = (err "COLLECTOR_PROCESS_CHECK_FAILED", disk)
  judge look active (some living) disk =
      if living || not (is_expired active (clock (look + 1)))
      then (ok (some (run_already_in_progress active)), disk)
      else continue (recover_stale_lock active (look + 2) (others (look + 1) disk))

  unfoldable pub meet : ℕ → Result (Option CollectorLockMetadata) → Disk → Round
  unfolding judge
  meet look (err code) disk = (err code, disk)
  meet look (ok none) disk = (ok none, disk)
  meet look (ok (some active)) disk = judge look active (alive look active.pid) disk

  -- What the path holds after a creation that failed behind the opening: nothing if the file is
  -- removed, or else all of it or a part.
  abbrev left_behind : CollectorLockMetadata → Disk
  left_behind metadata =
      if s.removes then none else if s.writes then some (written metadata) else some unparsable

  -- `tryCreateLock`, and what the round does by its answer.
  unfoldable pub create_or_meet : ℕ → CollectorLockMetadata → Disk → Round
  unfolding meet read_lock_metadata_with_retry
  create_or_meet look metadata none =
      if s.opens && s.writes && s.syncs
      then (ok (some (acquired metadata)), some (written metadata))
      else (err "COLLECTOR_LOCK_CREATE_FAILED", if s.opens then left_behind metadata else none)
  create_or_meet look metadata (some file) =
      meet look (read_lock_metadata_with_retry (λ _. some file)) (some file)

  unfoldable pub round_with : ℕ → Result CollectorLockMetadata → Disk → Round
  unfolding create_or_meet
  round_with look (err code) disk = (err code, disk)
  round_with look (ok metadata) disk = create_or_meet look metadata (others look disk)

  unfoldable pub round : String → ℕ → ℕ → Disk → Round
  unfolding round_with create_metadata
  round run_id ttl look disk = round_with look (create_metadata run_id pid (clock look) ttl) disk

  -- The rounds that are left; a round has three looks at the clock and the disk.
  unfoldable pub rounds : String → ℕ → ℕ → ℕ → Disk → Result CollectorLockResult × Disk
  unfolding round
  rounds run_id ttl zero look disk = (err "COLLECTOR_LOCK_ACQUIRE_FAILED", disk)
  rounds run_id ttl (suc left) look disk =
      let (outcome, disk') = round run_id ttl look disk in
      elim outcome [
        | err code ↦ (err code, disk')
        | ok outcome' ↦ elim outcome' [
          | some answer ↦ (ok answer, disk')
          | none ↦ rounds run_id ttl left (look + 3) disk'
        ]
      ]

  unfoldable pub attempt_with : String → Result ℕ → Disk → Result CollectorLockResult × Disk
  unfolding rounds
  attempt_with run_id (err code) disk = (err code, disk)
  attempt_with run_id (ok ttl) disk =
      if s.makes_directory
      then rounds run_id ttl 8 0 disk
      else (err "COLLECTOR_LOCK_DIRECTORY_UNAVAILABLE", disk)

  -- `acquireGlobalCollectorLock`.
  unfoldable pub acquire_global_collector_lock : String → Disk → Result CollectorLockResult × Disk
  unfolding attempt_with normalize_ttl
  acquire_global_collector_lock run_id disk =
      if is_safe_text run_id
      then attempt_with run_id (normalize_ttl s.ttl_ms) disk
      else (err "COLLECTOR_RUN_ID_INVALID", disk)
