-- ===== src/Automation/Lock/Held.antt =====
-- The lock that is held, and its inspection: createAcquiredLock and inspectActiveGlobalCollectorLock
-- of tools/data-poc/src/automation/globalCollectorLock.ts.
use crypto_edge_ai.Common.{
  ℕ, ◌+◌, String, Bool, true, false, not, ◌||◌, Option, none, some, str_eq, if◌then◌else◌, Result,
  ok, err, ◌>>=◌,
}
use crypto_edge_ai.Date.{to_iso_string}
use crypto_edge_ai.Automation.Lock.{
  CollectorLockMetadata, LockFile, written, Disk, Reading, absent, failed, found,
  read_lock_metadata, read_lock_metadata_with_retry, is_expired,
}

-- `inspectActiveGlobalCollectorLock`: the active run, if there is one.
inspect_found : ℕ → (ℕ → Option Bool) → Option CollectorLockMetadata → Result (Option String)
unfolding is_expired
inspect_found now alive none = ok none
inspect_found now alive (some m) = elim (alive m.pid) [
  | none ↦ err "COLLECTOR_PROCESS_CHECK_FAILED"
  | some living ↦ ok (if living || not (is_expired m now) then some m.run_id else none)
]

unfoldable pub inspect_active_global_collector_lock :
    ℕ → (ℕ → Option Bool) → Disk → Result (Option String)
unfolding inspect_found read_lock_metadata_with_retry
inspect_active_global_collector_lock now alive disk = do
  metadata ← read_lock_metadata_with_retry (λ _. disk)
  inspect_found now alive metadata

-- `requireOwnedLock`.
unfoldable pub owned_by : String → Option CollectorLockMetadata → Result CollectorLockMetadata
owned_by run_id none = err "COLLECTOR_LOCK_OWNERSHIP_LOST"
owned_by run_id (some m) =
    if str_eq m.run_id run_id then ok m else err "COLLECTOR_LOCK_OWNERSHIP_LOST"

unfoldable pub require_owned_lock : String → Disk → Result CollectorLockMetadata
unfolding owned_by read_lock_metadata_with_retry
require_owned_lock run_id disk = do
  metadata ← read_lock_metadata_with_retry (λ _. disk)
  owned_by run_id metadata

-- The lock as its holder has it.
pub record AcquiredLock : Type 0 where
  pub run_id : String
  pub released : Bool

unfoldable pub beaten : CollectorLockMetadata → ℕ → ℕ → Result CollectorLockMetadata
beaten existing now ttl = do
  heartbeat_at ← to_iso_string now
  expires_at ← to_iso_string (now + ttl)
  ok (record existing { heartbeat_at = heartbeat_at; expires_at = expires_at })

-- `replaceOwnedLockMetadata`; a write that fails may have emptied the file.
unfoldable pub replace :
    Bool → Bool → Result CollectorLockMetadata → Disk → Result CollectorLockMetadata × Disk
replace opens writes (err code) disk = (err code, disk)
replace true true (ok m) disk = (ok m, some (written m))
replace true false (ok m) disk = (err "COLLECTOR_LOCK_HEARTBEAT_FAILED", some LockFile.unparsable)
replace false writes (ok m) disk = (err "COLLECTOR_LOCK_HEARTBEAT_FAILED", disk)

-- `heartbeat`, at a time.
unfoldable pub heartbeat :
    AcquiredLock
    → (now ttl : ℕ) → (opens writes : Bool) → Disk
    → Result CollectorLockMetadata × Disk
unfolding beaten replace require_owned_lock
heartbeat lock now ttl opens writes disk =
    if lock.released
    then (err "COLLECTOR_LOCK_ALREADY_RELEASED", disk)
    else replace opens writes
        (do existing ← require_owned_lock lock.run_id disk; beaten existing now ttl) disk

-- What follows the renaming in `removeOwnedLock`, by what the moved file is read as; the lock's path
-- is empty unless the file is moved back.
remove_moved : String → (restores removes : Bool) → Reading → Disk → Result (Unit {0}) × Disk
remove_moved run_id restores removes absent moved = (err "COLLECTOR_LOCK_RELEASE_FAILED", none)
remove_moved run_id restores removes (failed code) moved = (err code, none)
remove_moved run_id restores removes (found m) moved =
    if str_eq m.run_id run_id
    then (if removes then ok tt else err "COLLECTOR_LOCK_RELEASE_FAILED", none)
    else if restores
    then (err "COLLECTOR_LOCK_OWNERSHIP_LOST", moved)
    else (err "COLLECTOR_LOCK_RESTORE_FAILED", none)

remove_renamed : String → (renames restores removes : Bool) → Disk → Result (Unit {0}) × Disk
unfolding remove_moved read_lock_metadata
remove_renamed run_id renames restores removes none = (err "COLLECTOR_LOCK_RELEASE_FAILED", none)
remove_renamed run_id false restores removes (some file) =
    (err "COLLECTOR_LOCK_RELEASE_FAILED", some file)
remove_renamed run_id true restores removes (some file) =
    remove_moved run_id restores removes (read_lock_metadata (some file)) (some file)

-- `removeOwnedLock`; others may change the disk before the file is moved.
remove_owned_lock :
    String → (Disk → Disk) → (renames restores removes : Bool) → Disk → Result (Unit {0}) × Disk
unfolding remove_renamed require_owned_lock
remove_owned_lock run_id others renames restores removes disk =
    elim (require_owned_lock run_id disk) [
      | err code ↦ (err code, disk)
      | ok _ ↦ remove_renamed run_id renames restores removes (others disk)
    ]

after_removal : AcquiredLock → Result (Unit {0}) × Disk → Result (Unit {0}) × AcquiredLock × Disk
after_removal lock (err code, disk) = (err code, lock, disk)
after_removal lock (ok _, disk) = (ok tt, record lock { released = true }, disk)

-- `release`: its result, the holder's lock, and the disk.
unfoldable pub release :
    AcquiredLock
    → (Disk → Disk)
    → (renames restores removes : Bool) → Disk
    → Result (Unit {0}) × AcquiredLock × Disk
unfolding remove_owned_lock after_removal
release lock others renames restores removes disk =
    if lock.released
    then (ok tt, lock, disk)
    else after_removal lock (remove_owned_lock lock.run_id others renames restores removes disk)
