-- ===== src/Automation/Lock/Exclusion.antt =====
-- At any time at most one process holds the collector's lock
-- (tools/data-poc/src/automation/globalCollectorLock.ts).
use crypto_edge_ai.Common.{
  ℕ, ◌+◌, ◌≡◌, refl, sym, ◌∙◌, ap, String, Bool, true, Option, none, some, List, [], ◌∷◌, arith,
  Result, ok, err, Result-cases, Bool-cases, inl, inr, ok_injective, bind-eq-ok, eq_iff,
}
use crypto_edge_ai.Date.{to_iso_string, parse-to_iso_string}
use crypto_edge_ai.Automation.Lock.{
  CollectorLockMetadata, written, Disk, is_collector_lock_metadata, is_iso_date,
}
use crypto_edge_ai.Automation.Lock.Acquire.{
  CollectorLockResult, acquired, run_already_in_progress, Surroundings,
  acquire_global_collector_lock,
}
use crypto_edge_ai.Automation.Lock.Held.{heartbeat, beaten, replace, require_owned_lock, owned_by}
use crypto_edge_ai.Automation.Lock.Metadata.{IsLockOf, found_written}
use crypto_edge_ai.Automation.Lock.Created.{acquire-IsCreated}
use crypto_edge_ai.Automation.Lock.Living.{IsAlone, IsAlive, acquire-living}
use crypto_edge_ai.Automation.Lock.Shared.{
  Holder, Shared, held_by, joined, Among, here, later, LockStep, acquire, beat, leave, end,
  LockReach, start, step, MutexStep, stay, lock, unlock, Shows, free, owned, MutexReach, next,
}

only :
    {h k : Holder} {others : List Holder} {all : List Holder}
    → Among h all others
    → all ≡ k ∷ []
    → (h ≡ k) × (others ≡ [])
only (here others) e = (cc, cc)
only (later k (here others)) e = cc
only (later k (later j a)) e = cc

among : {k : Holder} {all : List Holder} → all ≡ k ∷ [] → Among k all []
among e = rw e (here [])

nobody : {h : Holder} {all others : List Holder} → Among h all others → all ≡ [] → ⊥
nobody (here others) e = cc
nobody (later k a) e = cc

require_owned_lock-ok :
    (h : Holder) (m : CollectorLockMetadata)
    → IsLockOf h.run_id h.pid m
    → require_owned_lock h.run_id (some (written m)) ≡ ok m
unfolding require_owned_lock owned_by
require_owned_lock-ok h m l = rw (found_written m l.valid, (eq_iff m.run_id h.run_id).1 l.owned)

beaten-IsLockOf :
    (h : Holder) (m : CollectorLockMetadata) (now ttl : ℕ) {m' : CollectorLockMetadata}
    → IsLockOf h.run_id h.pid m
    → beaten m now ttl ≡ ok m'
    → IsLockOf h.run_id h.pid m'
unfolding beaten is_collector_lock_metadata is_iso_date
beaten-IsLockOf h m now ttl l e =
    let (at, began, rest) = bind-eq-ok (to_iso_string now) _ e in
    let (until, ends, rest') = bind-eq-ok (to_iso_string (now + ttl)) _ rest in
    let here = ok_injective rest' in
    let dated = parse-to_iso_string now began in
    let dated' = parse-to_iso_string (now + ttl) ends in
    let made : IsLockOf h.run_id h.pid (record m { heartbeat_at = at; expires_at = until }) =
      record { valid = ground (arith, l.valid); owned = l.owned; running = l.running } in
    rw (← here) made

-- A heartbeat of the owner leaves valid metadata of the owner.
heartbeat-IsLockOf :
    (h : Holder) (m : CollectorLockMetadata) (now ttl : ℕ) (opens : Bool)
    → IsLockOf h.run_id h.pid m
    → (m' : CollectorLockMetadata) × ((heartbeat
          (held_by h)
          now
          ttl
          opens
          true
          (some (written m))).1
        ≡ some (written m'))
      × IsLockOf h.run_id h.pid m'
unfolding heartbeat replace
heartbeat-IsLockOf h m now ttl opens l = elim (Result-cases (beaten m now ttl)) [
  | inr (code, bad) ↦ (m, rw (require_owned_lock-ok h m l, bad), l)
  | inl (m', good) ↦ elim (Bool-cases opens) [
    | inl opened ↦
        (m', rw (require_owned_lock-ok h m l, good, opened), beaten-IsLockOf h m now ttl l good)
    | inr shut ↦ (m, rw (require_owned_lock-ok h m l, good, shut), l)
  ]
]

-- An acquisition while the owner lives leaves the owner.
acquire-Shows :
    (by : Surroundings) (run_id : String) (s : Shared) (k : Holder) (m : CollectorLockMetadata)
    (answer : Result CollectorLockResult) (after : Disk)
    → s.holders ≡ k ∷ []
    → s.disk ≡ some (written m)
    → IsLockOf k.run_id k.pid m
    → IsAlone by
    → IsAlive by k.pid
    → acquire_global_collector_lock by run_id s.disk ≡ (answer, after)
    → Shows (record { disk = after; holders = joined run_id by.pid answer s.holders }) (some k)
acquire-Shows by run_id s k m answer after e f l alone live done =
    let done' : acquire_global_collector_lock by run_id (some (written m)) ≡ (answer, after) =
      ap (acquire_global_collector_lock by run_id) (sym f) ∙ done in
    let (same, said) = acquire-living by run_id m l.valid alone (rw l.running live) in
    let kept : after ≡ some (written m) = sym (ap (λ p. p.1) done') ∙ same in
    elim said [
      | inl (code, failed') ↦
          let told : answer ≡ err code = sym (ap (λ p. p.0) done') ∙ failed' in
          owned k m (rw told e) kept l
      | inr busy ↦
          let told : answer ≡ ok (run_already_in_progress m) = sym (ap (λ p. p.0) done') ∙ busy in
          owned k m (rw told e) kept l
    ]

LockStep-simulated :
    {s t : Shared} {o : Option Holder}
    → Shows s o
    → LockStep s t
    → (o' : Option Holder) × MutexStep o o' × Shows t o'
LockStep-simulated {s} (free e) (acquire by run_id alone live (ok (acquired m)) after done) =
    let (ttl, before, _, _, it) = acquire-IsCreated by run_id s.disk m after done in
    let h : Holder = record { run_id = run_id; pid = by.pid } in
    (some h, lock h, owned h m (ap (λ others. h ∷ others) e) it.kept it.lock)
LockStep-simulated (free e)
      (acquire by run_id alone live (ok (run_already_in_progress m)) after done) =
    (none, stay none, free e)
LockStep-simulated (free e) (acquire by run_id alone live (err code) after done) =
    (none, stay none, free e)
LockStep-simulated (free e) (beat h others a now ttl opens) = absurd (nobody a e)
LockStep-simulated (free e) (leave h others a renames restores removes) = absurd (nobody a e)
LockStep-simulated (free e) (end h others a) = absurd (nobody a e)
LockStep-simulated {s} (owned k m e f l) (acquire by run_id alone live answer after done) = (
  some k,
  stay (some k),
  acquire-Shows by run_id s k m answer after e f l alone (live k [] (among e)) done,
)
LockStep-simulated {s} (owned k m e f l) (beat h others a now ttl opens) =
    let (same, _) = only a e in
    let (m', wrote, l') = heartbeat-IsLockOf k m now ttl opens l in
    (some k, stay (some k), owned k m' e (rw (same, f) wrote) l')
LockStep-simulated (owned k m e f l) (leave h others a renames restores removes) =
    let (_, left) = only a e in (none, unlock k, free left)
LockStep-simulated (owned k m e f l) (end h others a) =
    let (_, left) = only a e in (none, unlock k, free left)

-- Every state that the processes reach from a disk without holders shows a state of the mutex that
-- it reaches from being free: at most one process holds the lock, and while one does the lock's file
-- holds the valid metadata of its run and process. The operations are taken one after another,
-- nobody else acts during one, the check of processes finds the holders alive, and a heartbeat that
-- opens the file writes it.
pub LockReach-refines : {s : Shared} → LockReach s → (o : Option Holder) × MutexReach o × Shows s o
LockReach-refines (start disk) = (none, MutexReach.start, free refl)
LockReach-refines (step r t) =
    let (o, reached, shows) = LockReach-refines r in
    let (o', moved, shows') = LockStep-simulated shows t in (o', next reached moved, shows')
