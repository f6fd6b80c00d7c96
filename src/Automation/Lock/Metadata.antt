-- ===== src/Automation/Lock/Metadata.antt =====
-- The metadata that tools/data-poc/src/automation/globalCollectorLock.ts writes and reads.
use crypto_edge_ai.Common.{
  ◌==◌, ℕ, zero, suc, ◌+◌, ◌≡◌, refl, String, true, some, arith, ok, Bool-cases, inl, inr,
  ok_injective, bind-eq-ok,
}
use crypto_edge_ai.Date.{parse, to_iso_string, parse-to_iso_string}
use crypto_edge_ai.Automation.ErrorCode.{is_safe_text}
use crypto_edge_ai.Automation.Lock.{
  CollectorLockMetadata, written, Disk, found, is_collector_lock_metadata, is_iso_date,
  read_lock_metadata, read_with_retry, read_lock_metadata_with_retry, create_metadata,
}

-- Metadata of a run and a process, as the lock's file holds it.
pub record IsLockOf (run_id : String) (pid : ℕ) (m : CollectorLockMetadata) : Type 0 where
  pub valid : is_collector_lock_metadata m ≡ true
  pub owned : m.run_id ≡ run_id
  pub running : m.pid ≡ pid

read_with_retry-found :
    (left : ℕ) (seen : ℕ → Disk) {m : CollectorLockMetadata}
    → ((i : ℕ) → read_lock_metadata (seen i) ≡ found m)
    → read_with_retry left seen ≡ ok (some m)
unfolding read_with_retry
read_with_retry-found zero seen h = rw (h 0, read_with_retry)
read_with_retry-found (suc left) seen h = rw (h (suc left), read_with_retry)

pub read_written :
    (m : CollectorLockMetadata)
    → is_collector_lock_metadata m ≡ true
    → read_lock_metadata (some (written m)) ≡ found m
unfolding read_lock_metadata
read_written m h = rw h

pub found_written :
    (m : CollectorLockMetadata)
    → is_collector_lock_metadata m ≡ true
    → read_lock_metadata_with_retry (λ _. some (written m)) ≡ ok (some m)
unfolding read_lock_metadata_with_retry
found_written m h = read_with_retry-found 3 (λ _. some (written m)) (λ _. read_written m h)

pub create_metadata-IsLockOf :
    (run_id : String) (pid started ttl : ℕ) {m : CollectorLockMetadata}
    → is_safe_text run_id ≡ true
    → create_metadata run_id pid started ttl ≡ ok m
    → IsLockOf run_id pid m
      × (parse m.started_at ≡ some started)
      × (parse m.expires_at ≡ some (started + ttl))
unfolding create_metadata is_collector_lock_metadata is_iso_date
create_metadata-IsLockOf run_id pid started ttl safe e = elim (Bool-cases (pid == 0)) [
  | inl zero' ↦ let wrong = rw zero' at e in cc
  | inr positive ↦
      let rest = rw positive at e in
      let (at, began, rest') = bind-eq-ok (to_iso_string started) _ rest in
      let (until, ends, rest'') = bind-eq-ok (to_iso_string (started + ttl)) _ rest' in
      let here = ok_injective rest'' in
      let dated = parse-to_iso_string started began in
      let dated' = parse-to_iso_string (started + ttl) ends in
      let made : IsLockOf run_id pid (record {
        run_id = run_id;
        pid = pid;
        started_at = at;
        heartbeat_at = at;
        expires_at = until;
      }) =
        record { valid = rw (safe, dated, dated') (ground arith); owned = refl; running = refl } in
      rw (← here) (made, dated, dated')
]
