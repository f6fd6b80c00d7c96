-- ===== src/Automation/Store/Laws.antt =====
-- What the reading and the writing of the state's file promise
-- (tools/data-poc/src/automation/automationState.ts).
use crypto_edge_ai.Common.{
  ◌≡◌, ◌⊎◌, refl, sym, ◌∙◌, Bool, true, false, ◌&&◌, String, Result, ok, err, arith, inl, inr,
  ok_injective,
}
use crypto_edge_ai.Number.{Number}
use crypto_edge_ai.Json.{obj}
use crypto_edge_ai.Automation.State.{AutomationState, create_initial_automation_state}
use crypto_edge_ai.Automation.State.Coherence.{initial-IsCoherent}
use crypto_edge_ai.Automation.Store.Values.{Format}
use crypto_edge_ai.Automation.Store.Normalize.{normalize_automation_state}
use crypto_edge_ai.Automation.Store.File.{
  StoredFile, missing, unreadable, malformed, holds, WriteSteps, fields_of, read_automation_state,
  write_automation_state_atomic, put_normalized, put_state,
}
use crypto_edge_ai.Automation.Store.Valid.{IsStorable}
use crypto_edge_ai.Automation.Store.Roundtrip.{normalize_written}
use crypto_edge_ai.Automation.Store.Accepted.{normalize-IsStorable}

abbrev pub is_done : WriteSteps → Bool
is_done steps = steps.made && steps.written && steps.renamed

module _ {n : Number} (f : Format n) where
  -- A state that the file may hold is written if every step of the write succeeds, and the next
  -- reading gives that state, with every field as it was, whatever the file held before.
  pub read-write :
      (s : AutomationState) (steps : WriteSteps) (file : StoredFile n)
      → IsStorable f s
      → is_done steps ≡ true
      → let (result, after) = write_automation_state_atomic f steps s file in
        (result ≡ ok tt) × (read_automation_state f after ≡ ok s)
  unfolding write_automation_state_atomic read_automation_state put_normalized put_state
  read-write s steps file h done =
      rw (normalize_written f s h, done) (refl, normalize_written f s h)

  initial-IsStorable : IsStorable f create_initial_automation_state
  unfolding create_initial_automation_state
  initial-IsStorable = record {
    coherent = initial-IsCoherent;
    suspension = (tt, tt);
    attempt = (tt, tt, tt, tt, tt, tt, tt, tt, refl, refl, refl);
    cycle = ground arith;
    schedule = ground arith;
  }

  -- Whatever the file holds, a state that is read from it is one that the file may hold: its
  -- suspension is coherent, its dates are valid, its ids are safe texts, its counts are safe integers
  -- and the keys of its records are safe. So it can be written again.
  pub read-IsStorable :
      (file : StoredFile n) (s : AutomationState)
      → read_automation_state f file ≡ ok s
      → IsStorable f s
  unfolding read_automation_state
  read-IsStorable missing s e = let here = ok_injective e in rw (← here) initial-IsStorable
  read-IsStorable unreadable s e = cc
  read-IsStorable malformed s e = cc
  read-IsStorable (holds value) s e = normalize-IsStorable f value e

  -- What a write did, by its result and the file after it.
  abbrev pub IsAtomic :
      AutomationState → StoredFile n → Bool → Result (Unit {0}) × StoredFile n → Type 0
  IsAtomic s file done (result, after) =
      ((result ≡ ok tt)
        × (done ≡ true)
        × ((s' : AutomationState) × (read_automation_state f after ≡ ok s') × IsStorable f s'))
      ⊎ ((((IsStorable f s → ⊥) × ((code : String) × (result ≡ err code)))
            ⊎ ((result ≡ err "AUTOMATION_STATE_WRITE_FAILED") × (done ≡ false)))
          × (after ≡ file))

  put_normalized-IsAtomic :
      (s : AutomationState) (done : Bool) (file : StoredFile n) (r : Result AutomationState)
      → normalize_automation_state f (obj (fields_of f s)) ≡ r
      → IsAtomic s file done (put_normalized f done r file)
  unfolding put_normalized put_state read_automation_state
  put_normalized-IsAtomic s done file (err code) e =
      inr (inl (λ h. let both = sym (normalize_written f s h) ∙ e in cc, (code, refl)), refl)
  put_normalized-IsAtomic s true file (ok s') e =
      let h = normalize-IsStorable f (obj (fields_of f s)) e in
      inl (refl, refl, (s', normalize_written f s' h, h))
  put_normalized-IsAtomic s false file (ok s') e = inr (inr (refl, refl), refl)

  -- A write either succeeds, and then every step has succeeded and the file is read as a state that
  -- the file may hold, or it throws, and then the file is as it was: the state is one that the file
  -- may not hold, or a step has failed.
  pub write-IsAtomic :
      (steps : WriteSteps) (s : AutomationState) (file : StoredFile n)
      → IsAtomic s file (is_done steps) (write_automation_state_atomic f steps s file)
  unfolding write_automation_state_atomic
  write-IsAtomic steps s file =
      put_normalized-IsAtomic s (is_done steps) file
        (normalize_automation_state f (obj (fields_of f s))) refl
