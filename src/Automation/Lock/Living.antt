-- ===== src/Automation/Lock/Living.antt =====
-- What acquireGlobalCollectorLock of tools/data-poc/src/automation/globalCollectorLock.ts makes of a
-- lock that is there.
use crypto_edge_ai.Common.{
  ℕ, ◌≡◌, ◌⊎◌, refl, ap, String, true, some, ok, err, Result-cases, Bool-cases, inl, inr,
}
use crypto_edge_ai.Automation.ErrorCode.{is_safe_text}
use crypto_edge_ai.Automation.Lock.{
  CollectorLockMetadata, written, Disk, is_collector_lock_metadata, normalize_ttl, create_metadata,
}
use crypto_edge_ai.Automation.Lock.Acquire.{
  run_already_in_progress, Surroundings, round, rounds, attempt_with, acquire_global_collector_lock,
}
use crypto_edge_ai.Automation.Lock.Metadata.{found_written}

-- Nobody else changes the disk meanwhile.
abbrev pub IsAlone : Surroundings → Type 0
IsAlone s = (i : ℕ) (d : Disk) → s.others i d ≡ d

-- The process is found alive at every look.
abbrev pub IsAlive : Surroundings → ℕ → Type 0
IsAlive s pid = (i : ℕ) → s.alive i pid ≡ some true

module _ (s : Surroundings) where
  -- While a process with a valid lock lives and nobody else changes the disk, a round of another
  -- acquisition changes nothing and does not acquire.
  round-living :
      (run_id : String) (ttl look : ℕ) (h : CollectorLockMetadata)
      → is_collector_lock_metadata h ≡ true
      → IsAlone s
      → IsAlive s h.pid
      → ((code : String) × (round s run_id ttl look (some (written h))
            ≡ (err code, some (written h))))
        ⊎ (round s run_id ttl look (some (written h))
            ≡ (ok (some (run_already_in_progress h)), some (written h)))
  unfolding round
  round-living run_id ttl look h valid calm living =
      elim (Result-cases (create_metadata run_id s.pid (s.clock look) ttl)) [
        | inr (code, bad) ↦ inl (code, rw bad refl)
        | inl (m, good) ↦
            inr (rw (good, calm look (some (written h)), found_written h valid, living look) refl)
      ]

  -- While the process of a valid lock is alive and nobody else changes the disk, an acquisition
  -- leaves the disk as it is and either answers that the lock's run is in progress or throws.
  pub acquire-living :
      (run_id : String) (h : CollectorLockMetadata)
      → is_collector_lock_metadata h ≡ true
      → IsAlone s
      → IsAlive s h.pid
      → let (answer, after) = acquire_global_collector_lock s run_id (some (written h)) in
        (after ≡ some (written h))
        × (((code : String) × (answer ≡ err code)) ⊎ (answer ≡ ok (run_already_in_progress h)))
  unfolding acquire_global_collector_lock attempt_with rounds
  acquire-living run_id h valid calm living = elim (Bool-cases (is_safe_text run_id)) [
    | inr unsafe ↦ rw unsafe (refl, inl (_, refl))
    | inl safe ↦ elim (Result-cases (normalize_ttl s.ttl_ms)) [
      | inr (code, bad) ↦ rw (safe, bad) (refl, inl (_, refl))
      | inl (ttl, good) ↦ elim (Bool-cases s.makes_directory) [
        | inr cannot ↦ rw (safe, good, cannot) (refl, inl (_, refl))
        | inl made ↦ elim (round-living run_id ttl 0 h valid calm living) [
          | inl (code, r) ↦ rw (safe, good, made, r, rounds) (ap (λ p. p.1) r, inl (_, refl))
          | inr r ↦ rw (safe, good, made, r, rounds) (ap (λ p. p.1) r, inr refl)
        ]
      ]
    ]
  ]
