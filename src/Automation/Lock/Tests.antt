-- ===== src/Automation/Lock/Tests.antt =====
-- Acquisitions of the collector's lock by tools/data-poc/src/automation/globalCollectorLock.ts.
use crypto_edge_ai.Common.{
  ℕ, ◌+◌, ◌≤◌, ◌≡◌, ◌⊎◌, refl, String, Bool, true, false, Option, none, some, [], ◌∷◌, arith, ok,
  err,
}
use crypto_edge_ai.Date.{iso, parse, to_iso_string}
use crypto_edge_ai.Automation.ErrorCode.{is_safe_text}
use crypto_edge_ai.Automation.Lock.{
  CollectorLockMetadata, written, Disk, is_collector_lock_metadata, create_metadata, normalize_ttl,
  is_expired,
}
use crypto_edge_ai.Automation.Lock.Acquire.{
  acquired, run_already_in_progress, Surroundings, acquire_global_collector_lock,
  recover_stale_lock,
}
use crypto_edge_ai.Automation.Lock.Created.{IsCreated, acquire-IsCreated}
use crypto_edge_ai.Automation.Lock.Living.{acquire-living}
use crypto_edge_ai.Automation.Lock.Stale.{Works, acquire-stale, Emptied, recover_stale_lock-Emptied}
use crypto_edge_ai.Automation.Lock.Shared.{Holder, Shared, LockStep, LockReach, MutexReach, Shows}
use crypto_edge_ai.Automation.Lock.Exclusion.{LockReach-refines}

abbrev around : Bool → Surroundings
around living = record {
  pid = 7;
  ttl_ms = none;
  clock = λ i. 1000 + i;
  alive = λ _ _. some living;
  others = λ _ d. d;
  makes_directory = true;
  opens = true;
  writes = true;
  syncs = true;
  renames = true;
  restores = true;
  removes = true;
}

-- The check of processes throws.
abbrev unsure : Surroundings
unsure = record (around false) { alive = λ _ _. none }

abbrev old_lock : CollectorLockMetadata
old_lock = record {
  run_id = "run-1";
  pid = 8;
  started_at = iso 10;
  heartbeat_at = iso 20;
  expires_at = iso 120;
}

abbrev new_lock : ℕ → CollectorLockMetadata
new_lock t = record {
  run_id = "run-2";
  pid = 7;
  started_at = iso t;
  heartbeat_at = iso t;
  expires_at = iso (t + 60000);
}

old_valid : is_collector_lock_metadata old_lock ≡ true
unfolding is_collector_lock_metadata is_safe_text parse
old_valid = refl

first_round :
    acquire_global_collector_lock (around false) "run-2" none
    ≡ (ok (acquired (new_lock 1000)), some (written (new_lock 1000)))
unfolding acquire_global_collector_lock is_safe_text to_iso_string
first_round = refl

acquire-IsCreated_example :
    (ttl : ℕ) × (before : Disk) × (normalize_ttl (around false).ttl_ms ≡ ok ttl)
    × (100 ≤ ttl)
    × IsCreated (around false) "run-2" ttl (new_lock 1000) before (some (written (new_lock 1000)))
acquire-IsCreated_example =
    acquire-IsCreated (around false) "run-2" none (new_lock 1000) (some (written (new_lock 1000)))
      first_round

acquire-living_example :
    let (answer, after) =
      acquire_global_collector_lock (around true) "run-2" (some (written old_lock)) in
    (after ≡ some (written old_lock))
    × (((code : String) × (answer ≡ err code)) ⊎ (answer ≡ ok (run_already_in_progress old_lock)))
acquire-living_example =
    acquire-living (around true) "run-2" old_lock old_valid (λ _ _. refl) (λ _. refl)

everything-Works : Works (around false)
everything-Works = record {
  alone = λ _ _. refl;
  makes = refl;
  opens = refl;
  writes = refl;
  syncs = refl;
  renames = refl;
  removes = refl;
}

acquire-stale_example :
    acquire_global_collector_lock (around false) "run-2" (some (written old_lock))
    ≡ (ok (acquired (new_lock 1003)), some (written (new_lock 1003)))
unfolding is_safe_text normalize_ttl create_metadata is_expired parse to_iso_string
acquire-stale_example =
    acquire-stale (around false) "run-2" 60000 old_lock (new_lock 1000) (new_lock 1003)
      everything-Works refl refl old_valid (λ _. refl) (λ i. ground arith) refl refl

recover_stale_lock-Emptied_example : Emptied unsure old_lock 2 (written old_lock)
unfolding recover_stale_lock is_collector_lock_metadata is_safe_text parse
recover_stale_lock-Emptied_example =
    recover_stale_lock-Emptied unsure old_lock 2 (written old_lock)
      (err "COLLECTOR_PROCESS_CHECK_FAILED") refl

abbrev taken : Shared
taken = record {
  disk = some (written (new_lock 1000));
  holders = record { run_id = "run-2"; pid = 7 } ∷ [];
}

taken-LockReach : LockReach taken
taken-LockReach = LockReach.step (LockReach.start none) (
    LockStep.acquire (around false) "run-2" (λ _ _. refl) (λ h others a. elim a [ ])
      (ok (acquired (new_lock 1000))) (some (written (new_lock 1000))) first_round)

LockReach-refines_example : (o : Option Holder) × MutexReach o × Shows taken o
LockReach-refines_example = LockReach-refines taken-LockReach
