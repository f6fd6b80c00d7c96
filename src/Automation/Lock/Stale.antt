-- ===== src/Automation/Lock/Stale.antt =====
-- The recovery of a stale lock by tools/data-poc/src/automation/globalCollectorLock.ts.
use crypto_edge_ai.Common.{
  ℕ, suc, ◌+◌, ◌≡◌, ◌⊎◌, refl, ◌∙◌, ap, String, Bool, true, false, not, ◌&&◌, Option, none, some,
  arith, Result, ok, Bool-cases, inl, inr, eq_refl,
}
use crypto_edge_ai.Date.{DateText, iso, other}
use crypto_edge_ai.Automation.ErrorCode.{is_safe_text}
use crypto_edge_ai.Automation.Lock.{
  LockFile, unparsable, foreign, Reading, absent, failed, found, read_lock_metadata, is_expired,
  CollectorLockMetadata, written, Disk, is_collector_lock_metadata, normalize_ttl, create_metadata,
}
use crypto_edge_ai.Automation.Lock.Acquire.{
  restore, CollectorLockResult, same_lock, same_text, settle, recover_stale_lock, check_moved,
  recover_moved, recover_renamed, acquired, Surroundings, round, rounds, attempt_with,
  acquire_global_collector_lock,
}
use crypto_edge_ai.Automation.Lock.Metadata.{read_written, found_written}
use crypto_edge_ai.Automation.Lock.Living.{IsAlone}

same_text_self : (d : DateText) → same_text d d ≡ true
unfolding same_text
same_text_self (iso t) = ground arith
same_text_self (other t _) = eq_refl t

same_lock_self : (h : CollectorLockMetadata) → same_lock h h ≡ true
unfolding same_lock
same_lock_self h = rw (eq_refl h.run_id, same_text_self h.started_at) (ground arith)

some-ne-absent : (file : LockFile) → read_lock_metadata (some file) ≡ absent → ⊥
unfolding read_lock_metadata
some-ne-absent (written m) e = ground arith
some-ne-absent unparsable e = cc
some-ne-absent foreign e = cc

module _ (s : Surroundings) where
  rounds-answered :
      (run_id : String) (ttl left look : ℕ) (before : Disk) {a : CollectorLockResult} {d : Disk}
      → round s run_id ttl look before ≡ (ok (some a), d)
      → rounds s run_id ttl (suc left) look before ≡ (ok a, d)
  unfolding rounds
  rounds-answered run_id ttl left look before {a} r = rw (r, rounds) (ap (λ p. (ok a, p.1)) r)

  rounds-next :
      (run_id : String) (ttl left look : ℕ) (before : Disk) {d : Disk}
      → round s run_id ttl look before ≡ (ok none, d)
      → rounds s run_id ttl (suc left) look before ≡ rounds s run_id ttl left (look + 3) d
  unfolding rounds
  rounds-next run_id ttl left look before r =
      rw (r, rounds) (ap (λ p. rounds s run_id ttl left (look + 3) p.1) r)

  -- Every step of the acquisition succeeds.
  pub record Works : Type 0 where
    pub alone : IsAlone s
    pub makes : s.makes_directory ≡ true
    pub opens : s.opens ≡ true
    pub writes : s.writes ≡ true
    pub syncs : s.syncs ≡ true
    pub renames : s.renames ≡ true
    pub removes : s.removes ≡ true

  recover_stale_lock-ok :
      (h : CollectorLockMetadata) (look : ℕ)
      → Works
      → is_collector_lock_metadata h ≡ true
      → s.alive look h.pid ≡ some false
      → is_expired h (s.clock look) ≡ true
      → recover_stale_lock s h look (some (written h)) ≡ (ok tt, none)
  unfolding recover_stale_lock
  recover_stale_lock-ok h look w valid dead late =
      rw (w.renames, read_written h valid, dead, same_lock_self h, late, w.removes)

  round-stale :
      (run_id : String) (ttl look : ℕ) (h m : CollectorLockMetadata)
      → Works
      → is_collector_lock_metadata h ≡ true
      → create_metadata run_id s.pid (s.clock look) ttl ≡ ok m
      → ((i : ℕ) → s.alive i h.pid ≡ some false)
      → ((i : ℕ) → is_expired h (s.clock i) ≡ true)
      → round s run_id ttl look (some (written h)) ≡ (ok none, none)
  unfolding round
  round-stale run_id ttl look h m w valid made dead late = rw (
    made,
    w.alone look (some (written h)),
    found_written h valid,
    dead look,
    late (look + 1),
    w.alone (look + 1) (some (written h)),
    recover_stale_lock-ok h (look + 2) w valid (dead (look + 2)) (late (look + 2)),
  )

  round-free :
      (run_id : String) (ttl look : ℕ) (m : CollectorLockMetadata)
      → Works
      → create_metadata run_id s.pid (s.clock look) ttl ≡ ok m
      → round s run_id ttl look none ≡ (ok (some (acquired m)), some (written m))
  unfolding round
  round-free run_id ttl look m w made = rw (made, w.alone look none, w.opens, w.writes, w.syncs)

  -- Where nobody else changes the disk and every step succeeds, a valid lock whose process is dead and
  -- whose time is over does not keep an acquisition from the lock: its second round creates its own,
  -- with the metadata of that round.
  pub acquire-stale :
      (run_id : String) (ttl : ℕ) (h m m' : CollectorLockMetadata)
      → Works
      → is_safe_text run_id ≡ true
      → normalize_ttl s.ttl_ms ≡ ok ttl
      → is_collector_lock_metadata h ≡ true
      → ((i : ℕ) → s.alive i h.pid ≡ some false)
      → ((i : ℕ) → is_expired h (s.clock i) ≡ true)
      → create_metadata run_id s.pid (s.clock 0) ttl ≡ ok m
      → create_metadata run_id s.pid (s.clock 3) ttl ≡ ok m'
      → acquire_global_collector_lock s run_id (some (written h))
        ≡ (ok (acquired m'), some (written m'))
  unfolding acquire_global_collector_lock attempt_with
  acquire-stale run_id ttl h m m' w safe good valid dead late made made' =
      rw (safe, good, w.makes)
        (rounds-next run_id ttl 7 0 (some (written h))
            (round-stale run_id ttl 0 h m w valid made dead late)
          ∙ rounds-answered run_id ttl 6 3 none (round-free run_id ttl 3 m' w made'))

  -- Why the lock's path is empty after a recovery that found a file there.
  pub data Emptied (expected : CollectorLockMetadata) (look : ℕ) (file : LockFile) : Type 0 where
    stale :
        (m : CollectorLockMetadata)
        → read_lock_metadata (some file) ≡ found m
        → same_lock m expected ≡ true
        → is_expired m (s.clock look) ≡ true
        → s.alive look m.pid ≡ some false
        → Emptied expected look file
    unread :
        (code : String) → read_lock_metadata (some file) ≡ failed code → Emptied expected look file
    unchecked :
        (m : CollectorLockMetadata)
        → read_lock_metadata (some file) ≡ found m
        → s.alive look m.pid ≡ none
        → Emptied expected look file
    unrestored : s.restores ≡ false → Emptied expected look file

  restore-none :
      (b : Bool) (code failure : String) (file : LockFile) {r : Result (Unit {0})}
      → restore s b code failure (some file) ≡ (r, none)
      → b ≡ false
  restore-none true code failure file e = cc
  restore-none false code failure file e = refl

  settle-none :
      (matches removes : Bool) (file : LockFile) {r : Result (Unit {0})}
      → settle s matches removes (some file) ≡ (r, none)
      → (matches ≡ true) ⊎ (s.restores ≡ false)
  unfolding settle
  settle-none true removes file e = inl refl
  settle-none false removes file e = inr (restore-none s.restores _ _ file e)

  found-Emptied :
      (expected : CollectorLockMetadata) (look : ℕ) (file : LockFile) (m : CollectorLockMetadata)
      (answer : Option Bool) {r : Result (Unit {0})}
      → read_lock_metadata (some file) ≡ found m
      → s.alive look m.pid ≡ answer
      → check_moved s answer (same_lock m expected && is_expired m (s.clock look)) (some file)
        ≡ (r, none)
      → Emptied expected look file
  unfolding check_moved
  found-Emptied expected look file m none read' asked e = unchecked m read' asked
  found-Emptied expected look file m (some living) read' asked e =
      elim (settle-none (same_lock m expected && is_expired m (s.clock look) && not living)
        s.removes file e) [
          | inr kept ↦ unrestored kept
          | inl fits ↦ stale m read' (ground arith) (ground arith) (ground arith)
        ]

  read-Emptied :
      (expected : CollectorLockMetadata) (look : ℕ) (file : LockFile) (reading : Reading)
      {r : Result (Unit {0})}
      → read_lock_metadata (some file) ≡ reading
      → recover_moved s expected look reading (some file) ≡ (r, none)
      → Emptied expected look file
  unfolding recover_moved
  read-Emptied expected look file absent read' e = absurd (some-ne-absent file read')
  read-Emptied expected look file (failed code) read' e = unread code read'
  read-Emptied expected look file (found m) read' e =
      found-Emptied expected look file m (s.alive look m.pid) read' refl e

  -- If a recovery finds a file at the lock's path and leaves the path empty, then the file held the
  -- expected lock, which had expired and whose process was dead; or the file could not be read as a
  -- lock's metadata, the check of its process threw, or the file could not be moved back.
  pub recover_stale_lock-Emptied :
      (expected : CollectorLockMetadata) (look : ℕ) (file : LockFile) (r : Result (Unit {0}))
      → recover_stale_lock s expected look (some file) ≡ (r, none)
      → Emptied expected look file
  unfolding recover_stale_lock recover_renamed
  recover_stale_lock-Emptied expected look file r e = elim (Bool-cases s.renames) [
    | inl moved ↦
        read-Emptied expected look file (read_lock_metadata (some file)) refl (rw moved at e)
    | inr kept ↦ let wrong = rw kept at e in cc
  ]
