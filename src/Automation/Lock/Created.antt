-- ===== src/Automation/Lock/Created.antt =====
-- The lock that acquireGlobalCollectorLock of
-- tools/data-poc/src/automation/globalCollectorLock.ts creates.
use crypto_edge_ai.Common.{
  ℕ, zero, suc, ◌+◌, ◌≤◌, ◌≡◌, ◌⊎◌, refl, sym, ◌∙◌, ap, String, Bool, true, not, ◌&&◌, ◌||◌, Option,
  none, some, arith, Result, ok, err, Result-cases, Bool-cases, inl, inr, ok_injective,
}
use crypto_edge_ai.Date.{parse}
use crypto_edge_ai.Automation.ErrorCode.{is_safe_text}
use crypto_edge_ai.Automation.Lock.{
  CollectorLockMetadata, written, Disk, read_lock_metadata_with_retry, normalize_ttl,
  create_metadata, is_expired,
}
use crypto_edge_ai.Automation.Lock.Acquire.{
  CollectorLockResult, acquired, Surroundings, Round, continue, recover_stale_lock, round,
  round_with, create_or_meet, meet, judge, rounds, attempt_with, acquire_global_collector_lock,
}
use crypto_edge_ai.Automation.Lock.Metadata.{IsLockOf, create_metadata-IsLockOf}

module _ (s : Surroundings) where
  Round-cases :
      (r : Round s)
      → ((code : String) × (d : Disk) × (r ≡ (err code, d)))
        ⊎ (((a : CollectorLockResult) × (d : Disk) × (r ≡ (ok (some a), d)))
            ⊎ ((d : Disk) × (r ≡ (ok none, d))))
  Round-cases (err code, d) = inl (code, d, refl)
  Round-cases (ok (some a), d) = inr (inl (a, d, refl))
  Round-cases (ok none, d) = inr (inr (d, refl))

  continue-ne :
      (p : Result (Unit {0}) × Disk) (a : CollectorLockResult) (d : Disk)
      → continue s p ≡ (ok (some a), d)
      → ⊥
  unfolding continue
  continue-ne (err code, d') a d e = cc
  continue-ne (ok _, d') a d e = cc

  judge-ne :
      (look : ℕ) (active : CollectorLockMetadata) (answer : Option Bool) (disk : Disk)
      (m : CollectorLockMetadata) (d : Disk)
      → judge s look active answer disk ≡ (ok (some (acquired m)), d)
      → ⊥
  unfolding judge
  judge-ne look active none disk m d e = cc
  judge-ne look active (some living) disk m d e =
      elim (Bool-cases (living || not (is_expired active (s.clock (look + 1))))) [
        | inl busy ↦ let wrong = rw busy at e in cc
        | inr stale ↦
            continue-ne (recover_stale_lock s active (look + 2) (s.others (look + 1) disk))
              (acquired m) d (rw stale at e)
      ]

  meet-ne :
      (look : ℕ) (r : Result (Option CollectorLockMetadata)) (disk : Disk)
      (m : CollectorLockMetadata) (d : Disk)
      → meet s look r disk ≡ (ok (some (acquired m)), d)
      → ⊥
  unfolding meet
  meet-ne look (err code) disk m d e = cc
  meet-ne look (ok none) disk m d e = cc
  meet-ne look (ok (some active)) disk m d e =
      judge-ne look active (s.alive look active.pid) disk m d e

  -- The lock that an acquisition creates, at its look at the clock, where the path was empty.
  pub record IsCreated (run_id : String) (ttl : ℕ) (m : CollectorLockMetadata) (before after : Disk)
      : Type 0 where
    pub lock : IsLockOf run_id s.pid m
    pub look : ℕ
    pub started : parse m.started_at ≡ some (s.clock look)
    pub expires : parse m.expires_at ≡ some (s.clock look + ttl)
    pub was_free : s.others look before ≡ none
    pub kept : after ≡ some (written m)

  create-IsCreated :
      (run_id : String) (ttl look : ℕ) (m : CollectorLockMetadata) (before : Disk) (found' : Disk)
      {m' : CollectorLockMetadata} {after : Disk}
      → is_safe_text run_id ≡ true
      → create_metadata run_id s.pid (s.clock look) ttl ≡ ok m
      → s.others look before ≡ found'
      → create_or_meet s look m found' ≡ (ok (some (acquired m')), after)
      → IsCreated run_id ttl m' before after
  unfolding create_or_meet
  create-IsCreated run_id ttl look m before none {m'} {after} safe made free e =
      elim (Bool-cases (s.opens && s.writes && s.syncs)) [
        | inr failed' ↦ let wrong = rw failed' at e in cc
        | inl fine ↦
            let e' = rw fine at e in
            let here : m ≡ m' = cc in
            let there : some (written m) ≡ after = cc in
            let (lock, started, expires) =
              create_metadata-IsLockOf run_id s.pid (s.clock look) ttl safe made in
            rw (← here) (record {
              lock = lock;
              look = look;
              started = started;
              expires = expires;
              was_free = free;
              kept = sym there;
            })
      ]
  create-IsCreated run_id ttl look m before (some file) {m'} {after} safe made free e =
      absurd (meet-ne look (read_lock_metadata_with_retry (λ _. some file)) (some file) m' after e)

  round-IsCreated :
      (run_id : String) (ttl look : ℕ) (before : Disk) {m : CollectorLockMetadata} {after : Disk}
      → is_safe_text run_id ≡ true
      → round s run_id ttl look before ≡ (ok (some (acquired m)), after)
      → IsCreated run_id ttl m before after
  unfolding round round_with
  round-IsCreated run_id ttl look before safe e =
      elim (Result-cases (create_metadata run_id s.pid (s.clock look) ttl)) [
        | inr (code, bad) ↦ let wrong = rw bad at e in cc
        | inl (m, made) ↦
            create-IsCreated run_id ttl look m before (s.others look before) safe made refl
              (rw made at e)
      ]

  rounds-IsCreated :
      (run_id : String) (ttl left look : ℕ) (before : Disk) {m : CollectorLockMetadata}
      {after : Disk}
      → is_safe_text run_id ≡ true
      → rounds s run_id ttl left look before ≡ (ok (acquired m), after)
      → (d : Disk) × IsCreated run_id ttl m d after
  unfolding rounds
  rounds-IsCreated run_id ttl zero look before safe e = cc
  rounds-IsCreated run_id ttl (suc left) look before {m} {after} safe e =
      elim (Round-cases (round s run_id ttl look before)) [
        | inl (code, d, r) ↦ let wrong = rw (r, rounds) at e in cc
        | inr (inl (a, d, r)) ↦
            let e' = rw (r, rounds) at e in
            let here : a ≡ acquired m = ok_injective (ap (λ p. p.0) e') in
            let there : d ≡ after = sym (ap (λ p. p.1) r) ∙ ap (λ p. p.1) e' in
            (before, round-IsCreated run_id ttl look before safe (rw (← here, ← there) r))
        | inr (inr (d, r)) ↦
            let left' = rw (r, rounds) at e in
            let moved : rounds s run_id ttl left (look + 3) d ≡ (ok (acquired m), after) =
              ap (rounds s run_id ttl left (look + 3)) (sym (ap (λ p. p.1) r)) ∙ left' in
            rounds-IsCreated run_id ttl left (look + 3) d safe moved
      ]

  normalize_ttl-le :
      (ttl_ms : Option (Option ℕ)) {ttl : ℕ} → normalize_ttl ttl_ms ≡ ok ttl → 100 ≤ ttl
  unfolding normalize_ttl
  normalize_ttl-le none e = ground arith
  normalize_ttl-le (some none) e = cc
  normalize_ttl-le (some (some t)) e = ground arith

  -- An acquisition that answers ACQUIRED, whatever others do to the disk meanwhile, has created the
  -- lock file where there was none, as the last thing that it did to the disk: the file holds valid
  -- metadata of its run and process, which started at a reading of its clock and expires the ttl
  -- later, and that is at least 100 milliseconds.
  pub acquire-IsCreated :
      (run_id : String) (disk : Disk) (m : CollectorLockMetadata) (after : Disk)
      → acquire_global_collector_lock s run_id disk ≡ (ok (acquired m), after)
      → (ttl : ℕ) × (before : Disk) × (normalize_ttl s.ttl_ms ≡ ok ttl)
        × (100 ≤ ttl)
        × IsCreated run_id ttl m before after
  unfolding acquire_global_collector_lock attempt_with
  acquire-IsCreated run_id disk m after e = elim (Bool-cases (is_safe_text run_id)) [
    | inr unsafe ↦ let wrong = rw unsafe at e in cc
    | inl safe ↦
        let e' = rw safe at e in
        elim (Result-cases (normalize_ttl s.ttl_ms)) [
          | inr (code, bad) ↦ let wrong = rw bad at e' in cc
          | inl (ttl, good) ↦
              let e'' = rw good at e' in
              elim (Bool-cases s.makes_directory) [
                | inr cannot ↦ let wrong = rw cannot at e'' in cc
                | inl made ↦
                    let (before, it) = rounds-IsCreated run_id ttl 8 0 disk safe (rw made at e'') in
                    (ttl, before, good, normalize_ttl-le s.ttl_ms good, it)
              ]
        ]
  ]
