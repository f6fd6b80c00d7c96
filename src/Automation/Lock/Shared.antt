-- ===== src/Automation/Lock/Shared.antt =====
-- The processes that share the collector's lock, as sequences of the operations of
-- tools/data-poc/src/automation/globalCollectorLock.ts, each of which is one step, and the mutex that
-- they show.
use crypto_edge_ai.Common.{
  ℕ, ◌≡◌, String, Bool, true, false, Option, none, some, List, [], ◌∷◌, Result, ok, err,
}
use crypto_edge_ai.Automation.Lock.{CollectorLockMetadata, written, Disk}
use crypto_edge_ai.Automation.Lock.Acquire.{
  CollectorLockResult, acquired, run_already_in_progress, Surroundings,
  acquire_global_collector_lock,
}
use crypto_edge_ai.Automation.Lock.Held.{AcquiredLock, heartbeat, release}
use crypto_edge_ai.Automation.Lock.Metadata.{IsLockOf}
use crypto_edge_ai.Automation.Lock.Living.{IsAlone, IsAlive}

-- A process that was answered ACQUIRED and has neither called `release` nor ended since.
pub record Holder : Type 0 where
  pub run_id : String
  pub pid : ℕ

pub record Shared : Type 0 where
  pub disk : Disk
  pub holders : List Holder

abbrev pub held_by : Holder → AcquiredLock
held_by h = record { run_id = h.run_id; released = false }

-- The holders after an acquisition.
abbrev pub joined : String → ℕ → Result CollectorLockResult → List Holder → List Holder
joined run_id pid (ok (acquired _)) holders = record { run_id = run_id; pid = pid } ∷ holders
joined run_id pid (ok (run_already_in_progress _)) holders = holders
joined run_id pid (err _) holders = holders

abbrev unchanged : Disk → Disk
unchanged d = d

-- A holder is one of the list, with the others around it.
pub data Among (h : Holder) : List Holder → List Holder → Type 0 where
  here : (others : List Holder) → Among h (h ∷ others) others
  later :
      (k : Holder) {all others : List Holder} → Among h all others → Among h (k ∷ all) (k ∷ others)

-- Nobody else acts during a step, and the check of a process finds the holders alive.
pub data LockStep (s : Shared) : Shared → Type 0 where
  acquire :
      (by : Surroundings) (run_id : String)
      → IsAlone by
      → ((h : Holder) (others : List Holder) → Among h s.holders others → IsAlive by h.pid)
      → (answer : Result CollectorLockResult) (after : Disk)
      → acquire_global_collector_lock by run_id s.disk ≡ (answer, after)
      → LockStep s (record { disk = after; holders = joined run_id by.pid answer s.holders })
  beat :
      (h : Holder) (others : List Holder)
      → Among h s.holders others
      → (now ttl : ℕ) (opens : Bool)
      → LockStep s (record s { disk = (heartbeat (held_by h) now ttl opens true s.disk).1 })
  leave :
      (h : Holder) (others : List Holder)
      → Among h s.holders others
      → (renames restores removes : Bool)
      → LockStep s (record {
        disk = (release (held_by h) unchanged renames restores removes s.disk).2;
        holders = others;
      })
  end :
      (h : Holder) (others : List Holder)
      → Among h s.holders others
      → LockStep s (record s { holders = others })

pub data LockReach : Shared → Type 0 where
  start : (disk : Disk) → LockReach (record { disk = disk; holders = [] })
  step : {s t : Shared} → LockReach s → LockStep s t → LockReach t

-- The lock as a mutex: it is free, or has an owner.
pub data MutexStep : Option Holder → Option Holder → Type 0 where
  stay : (o : Option Holder) → MutexStep o o
  lock : (h : Holder) → MutexStep none (some h)
  unlock : (h : Holder) → MutexStep (some h) none

-- What the processes and the disk show of the mutex: if it is free, nobody holds the lock; if it has
-- an owner, that is the one holder, and the lock's file holds its valid metadata.
pub data Shows (s : Shared) : Option Holder → Type 0 where
  free : s.holders ≡ [] → Shows s none
  owned :
      (h : Holder) (m : CollectorLockMetadata)
      → s.holders ≡ h ∷ []
      → s.disk ≡ some (written m)
      → IsLockOf h.run_id h.pid m
      → Shows s (some h)

pub data MutexReach : Option Holder → Type 0 where
  start : MutexReach none
  next : {o o' : Option Holder} → MutexReach o → MutexStep o o' → MutexReach o'
