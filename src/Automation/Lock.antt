-- ===== src/Automation/Lock.antt =====
-- tools/data-poc/src/automation/globalCollectorLock.ts: the lock file of the collector. Of the disk
-- the model has what the lock's path holds.
pub mod Acquire
pub mod Held
pub mod Metadata
pub mod Created
pub mod Living
pub mod Stale
pub mod Shared
pub mod Exclusion
mod Tests
use crypto_edge_ai.Common.{
  ℕ, zero, suc, ◌+◌, String, Bool, true, false, not, ◌&&◌, ◌||◌, Option, none, some, leb, ltb, ◌==◌,
  str_eq, if◌then◌else◌, Result, ok, err, ◌>>=◌, ◌>>◌,
}
use crypto_edge_ai.Date.{DateText, parse, to_iso_string}
use crypto_edge_ai.Automation.ErrorCode.{is_safe_text}

pub record CollectorLockMetadata : Type 0 where
  pub run_id : String
  pub pid : ℕ
  pub started_at : DateText
  pub heartbeat_at : DateText
  pub expires_at : DateText

-- What a file holds: metadata, a text that is no JSON, or JSON of another shape.
pub data LockFile : Type 0 where
  written : CollectorLockMetadata → LockFile
  unparsable foreign : LockFile

-- What the lock's path holds, if it is there.
abbrev pub Disk : Type 0
Disk = Option LockFile

-- `isIsoDate`.
abbrev pub is_finite : Option ℕ → Bool
is_finite none = false
is_finite (some _) = true

unfoldable pub is_iso_date : DateText → Bool
is_iso_date d = is_finite (parse d)

-- `isCollectorLockMetadata`.
unfoldable pub is_collector_lock_metadata : CollectorLockMetadata → Bool
unfolding is_iso_date
is_collector_lock_metadata m =
    is_safe_text m.run_id
    && ltb 0 m.pid
    && is_iso_date m.started_at
    && is_iso_date m.heartbeat_at
    && is_iso_date m.expires_at

-- What one reading gives: the error ENOENT, another error, or metadata.
pub data Reading : Type 0 where
  absent : Reading
  failed : (code : String) → Reading
  found : CollectorLockMetadata → Reading

-- `readLockMetadata`.
unfoldable pub read_lock_metadata : Disk → Reading
read_lock_metadata none = absent
read_lock_metadata (some unparsable) = failed "COLLECTOR_LOCK_READ_FAILED"
read_lock_metadata (some foreign) = failed "COLLECTOR_LOCK_METADATA_INVALID"
read_lock_metadata (some (written m)) =
    if is_collector_lock_metadata m then found m else failed "COLLECTOR_LOCK_METADATA_INVALID"

-- `readLockMetadataWithRetry`, with the attempts that are left after this one; `seen i` is what the
-- path holds at the attempt that leaves i.
unfoldable pub read_with_retry : ℕ → (ℕ → Disk) → Result (Option CollectorLockMetadata)
read_with_retry zero seen = elim (read_lock_metadata (seen 0)) [
  | absent ↦ ok none
  | failed code ↦ err code
  | found m ↦ ok (some m)
]
read_with_retry (suc left) seen = elim (read_lock_metadata (seen (suc left))) [
  | absent ↦ ok none
  | failed code ↦ read_with_retry left seen
  | found m ↦ ok (some m)
]

unfoldable pub read_lock_metadata_with_retry : (ℕ → Disk) → Result (Option CollectorLockMetadata)
unfolding read_with_retry
read_lock_metadata_with_retry seen = read_with_retry 3 seen

-- `normalizeTtl`: `none` stands for a number that is no safe integer, or negative.
unfoldable pub normalize_ttl : Option (Option ℕ) → Result ℕ
normalize_ttl none = ok 60000
normalize_ttl (some none) = err "COLLECTOR_LOCK_TTL_INVALID"
normalize_ttl (some (some ttl)) = if ltb ttl 100 then err "COLLECTOR_LOCK_TTL_INVALID" else ok ttl

-- `createMetadata`, at a time; a process id that is no integer or not positive is 0.
unfoldable pub create_metadata : String → ℕ → ℕ → ℕ → Result CollectorLockMetadata
create_metadata run_id pid started ttl = do
  if pid == 0 then err "COLLECTOR_LOCK_PID_INVALID" else ok tt
  started_at ← to_iso_string started
  expires_at ← to_iso_string (started + ttl)
  ok (record {
    run_id = run_id;
    pid = pid;
    started_at = started_at;
    heartbeat_at = started_at;
    expires_at = expires_at;
  })

-- `Date.parse(expires_at) <= now`, which is false on NaN.
abbrev pub not_after : Option ℕ → ℕ → Bool
not_after none now = false
not_after (some t) now = leb t now

unfoldable pub is_expired : CollectorLockMetadata → ℕ → Bool
is_expired m now = not_after (parse m.expires_at) now
