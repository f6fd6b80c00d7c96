-- ===== src/Automation/Cadence/Laws.antt =====
-- When the plan of tools/data-poc/src/automation/sourceCadence.ts asks for a run.
use crypto_edge_ai.Common.{
  ℕ, ◌+◌, ◌-◌, ◌≤◌, ◌≡◌, ◌↔◌, ◌⊎◌, refl, Bool, true, false, not, ◌&&◌, ◌||◌, Option, none, some, [],
  arith, ok, bind-eq-ok, ok_injective, inl, inr, Option-cases, length,
}
use mathlib.Core.List.{Memᴰ}
use crypto_edge_ai.Date.{
  DateText, iso, max_time, parse, to_iso_string, parse-iso, to_iso_string-eq-ok,
}
use crypto_edge_ai.Automation.Cadence.{
  CadenceSourceId, SourceCadenceStatus, SourceCadencePlan, LastSuccess, dexscreener_ms,
  alternative_me_ms, defillama_ms, scheduled_status, status_for_next, plan_of, plan_source_cadence,
}

-- A source is due when it never succeeded or its interval has passed since it did.
abbrev pub IsDue : ℕ → ℕ → Option DateText → Type 0
IsDue now interval none = Unit {0}
IsDue now interval (some last) = (t : ℕ) × (parse last ≡ some t) × (t + interval ≤ now)

-- The last success is absent or a date whose next run is one too.
abbrev pub IsUsable : ℕ → Option DateText → Type 0
IsUsable interval none = Unit {0}
IsUsable interval (some last) = (t : ℕ) × (parse last ≡ some t) × (t + interval ≤ max_time)

scheduled_status_total :
    (id : CadenceSourceId) (interval : ℕ) (last : Option DateText) (now : ℕ)
    → IsUsable interval last
    → (s : SourceCadenceStatus) × (scheduled_status id interval last now ≡ ok s)
unfolding scheduled_status to_iso_string
scheduled_status_total id interval none now h = (_, refl)
scheduled_status_total id interval (some last) now (t, e, h) =
    (status_for_next id (some last) (some (iso (t + interval))) now, ground arith)

-- The next run comes one interval after the last success, and the delay is how far it is past.
abbrev pub HasTiming : ℕ → ℕ → Option DateText → SourceCadenceStatus → Type 0
HasTiming now interval none s = (s.next_run_at ≡ none) × (s.delay_ms ≡ 0)
HasTiming now interval (some last) s =
    (t : ℕ) × (parse last ≡ some t)
    × (s.next_run_at ≡ some (iso (t + interval)))
    × (s.delay_ms ≡ now - (t + interval))

-- The status of a source whose last success is `last`.
pub record IsStatus (id : CadenceSourceId) (interval : ℕ) (last : Option DateText) (now : ℕ)
    (s : SourceCadenceStatus) : Type 0 where
  pub source : s.source_id ≡ id
  pub usable : IsUsable interval last
  pub due : (s.due ≡ true) ↔ IsDue now interval last
  pub timing : HasTiming now interval last s

timed-IsStatus :
    (id : CadenceSourceId) (interval : ℕ) (last : DateText) (now t : ℕ)
    → parse last ≡ some t
    → t + interval ≤ max_time
    → IsStatus id interval
        (some last)
        now
        (status_for_next id (some last) (some (iso (t + interval))) now)
timed-IsStatus id interval last now t p h =
    let again : parse (iso (t + interval)) ≡ some (t + interval) = parse-iso (t + interval) h in
    rw again (record {
      source = refl;
      usable = (t, p, h);
      due = (λ d. (t, p, ground arith), λ d. ground (arith, d.1, d.2));
      timing = (t, p, refl, ground arith);
    })

scheduled_status-IsStatus :
    (id : CadenceSourceId) (interval : ℕ) (last : Option DateText) (now : ℕ)
    (s : SourceCadenceStatus)
    → scheduled_status id interval last now ≡ ok s
    → IsStatus id interval last now s
unfolding scheduled_status to_iso_string
scheduled_status-IsStatus id interval none now s e = record {
  source = ground arith;
  usable = tt;
  due = (λ _. tt, λ _. ground arith);
  timing = ground arith;
}
scheduled_status-IsStatus id interval (some last) now s e = elim (Option-cases (parse last)) [
  | inl bad ↦ absurd (ground arith)
  | inr (t, p) ↦
      let h : t + interval ≤ max_time = ground arith in
      let same : status_for_next id (some last) (some (iso (t + interval))) now ≡ s =
        ground arith in
      rw (← same) (timed-IsStatus id interval last now t p h)
]

-- What a plan is made of.
pub record IsPlan (now : ℕ) (last : LastSuccess) (p : SourceCadencePlan) : Type 0 where
  pub dexscreener :
      IsStatus CadenceSourceId.dexscreener dexscreener_ms last.dexscreener now p.dexscreener
  pub alternative_me_fng :
      IsStatus CadenceSourceId.alternative_me_fng alternative_me_ms last.alternative_me_fng now
        p.alternative_me_fng
  pub defillama_api :
      IsStatus CadenceSourceId.defillama_api defillama_ms last.defillama_api now p.defillama_api
  pub checked : (now ≤ max_time) × (p.checked_at ≡ iso now)
  pub assembled : p ≡ plan_of p.checked_at p.dexscreener p.alternative_me_fng p.defillama_api

plan_source_cadence-IsPlan :
    (now : ℕ) (last : LastSuccess) (p : SourceCadencePlan)
    → plan_source_cadence (some now) last ≡ ok p
    → IsPlan now last p
unfolding plan_source_cadence
plan_source_cadence-IsPlan now last p e =
    let (dex, e₁, e₁') =
      bind-eq-ok (scheduled_status CadenceSourceId.dexscreener dexscreener_ms last.dexscreener now)
        _ e in
    let (alt, e₂, e₂') =
      bind-eq-ok
        (scheduled_status CadenceSourceId.alternative_me_fng alternative_me_ms
          last.alternative_me_fng now)
        _ e₁' in
    let (defi, e₃, e₃') =
      bind-eq-ok
        (scheduled_status CadenceSourceId.defillama_api defillama_ms last.defillama_api now) _
        e₂' in
    let (at, e₄, e₄') = bind-eq-ok (to_iso_string now) _ e₃' in
    rw (← ok_injective e₄') (record {
      dexscreener = scheduled_status-IsStatus _ _ _ _ _ e₁;
      alternative_me_fng = scheduled_status-IsStatus _ _ _ _ _ e₂;
      defillama_api = scheduled_status-IsStatus _ _ _ _ _ e₃;
      checked = to_iso_string-eq-ok now e₄;
      assembled = refl;
    })

only_iff :
    (a b c : Bool) {A B C : Type 0}
    → (a ≡ true) ↔ A
    → (b ≡ true) ↔ B
    → (c ≡ true) ↔ C
    → ((not a && (b || c)) ≡ true) ↔ ((¬ A) × (B ⊎ C))
only_iff true b c f g h = (λ e. cc, λ (na, _). absurd (na (f.0 refl)))
only_iff false true c f g h = (λ e. ((λ a. cc (f.1 a)), inl (g.0 refl)), λ _. refl)
only_iff false false true f g h = (λ e. ((λ a. cc (f.1 a)), inr (h.0 refl)), λ _. refl)
only_iff false false false f g h = (λ e. cc, λ (_, d). elim d [ inl b ↦ g.1 b | inr c ↦ h.1 c ])

lists_of :
    (dex alt defi : SourceCadenceStatus) (at : DateText)
    → let p = plan_of at dex alt defi in
      (length p.due_sources + length p.not_due_sources ≡ 5)
      × Memᴰ CadenceSourceId.goplus_security p.not_due_sources
      × Memᴰ CadenceSourceId.honeypot_is p.not_due_sources
      × ((p.due_sources ≡ [])
          ↔ ((p.requires_scanner_and_context ≡ false) × (p.requires_context_only ≡ false)))
lists_of dex alt defi at = (
  ground arith,
  grind (arith, Memᴰ.head, Memᴰ.tail),
  grind (arith, Memᴰ.head, Memᴰ.tail),
  (λ e. ground arith, λ e. ground arith),
)

-- A plan asks for the scanner exactly when the scanner's source is due, and for the context alone
-- exactly when that is not due and one of the two context sources is; so it never asks for both.
-- Each of the three sources is due when it never succeeded or its interval has passed.
pub plan_source_cadence_iff :
    (now : ℕ) (last : LastSuccess) (p : SourceCadencePlan)
    → plan_source_cadence (some now) last ≡ ok p
    → ((p.requires_scanner_and_context ≡ true) ↔ IsDue now dexscreener_ms last.dexscreener)
      × ((p.requires_context_only ≡ true) ↔ (
          (¬ IsDue now dexscreener_ms last.dexscreener)
          × (IsDue now alternative_me_ms last.alternative_me_fng
              ⊎ IsDue now defillama_ms last.defillama_api)))
plan_source_cadence_iff now last p e =
    let plan = plan_source_cadence-IsPlan now last p e in
    rw plan.assembled (
      plan.dexscreener.due,
      only_iff _ _ _ plan.dexscreener.due plan.alternative_me_fng.due plan.defillama_api.due,
    )

-- Every source is either on the list of those that are due or on the list of those that are not,
-- and the two candidate-scoped and manual sources are never due by themselves.
pub plan_source_cadence-lists :
    (now : ℕ) (last : LastSuccess) (p : SourceCadencePlan)
    → plan_source_cadence (some now) last ≡ ok p
    → (length p.due_sources + length p.not_due_sources ≡ 5)
      × Memᴰ CadenceSourceId.goplus_security p.not_due_sources
      × Memᴰ CadenceSourceId.honeypot_is p.not_due_sources
      × ((p.due_sources ≡ [])
          ↔ ((p.requires_scanner_and_context ≡ false) × (p.requires_context_only ≡ false)))
plan_source_cadence-lists now last p e =
    let plan = plan_source_cadence-IsPlan now last p e in
    rw plan.assembled (lists_of p.dexscreener p.alternative_me_fng p.defillama_api p.checked_at)

-- A plan is made exactly when there is a date, it is within the range of dates, and every last
-- success is absent or a date that has a next run.
pub plan_source_cadence_total :
    (now : Option ℕ) (last : LastSuccess)
    → ((p : SourceCadencePlan) × (plan_source_cadence now last ≡ ok p)) ↔ (
        ((t : ℕ) × (now ≡ some t) × (t ≤ max_time))
        × IsUsable dexscreener_ms last.dexscreener
        × IsUsable alternative_me_ms last.alternative_me_fng
        × IsUsable defillama_ms last.defillama_api)
unfolding plan_source_cadence to_iso_string
plan_source_cadence_total none last = (λ (p, e). cc, λ ((t, h, _), _, _, _). cc)
plan_source_cadence_total (some now) last = (
  λ (p, e).
      let plan = plan_source_cadence-IsPlan now last p e in
      (
        (now, refl, plan.checked.0),
        plan.dexscreener.usable,
        plan.alternative_me_fng.usable,
        plan.defillama_api.usable,
      ),
  λ ((t, e, h'), a, b, c).
      let h : now ≤ max_time = ground arith in
      let (dex, e₁) =
        scheduled_status_total CadenceSourceId.dexscreener dexscreener_ms last.dexscreener now a in
      let (alt, e₂) =
        scheduled_status_total CadenceSourceId.alternative_me_fng alternative_me_ms
          last.alternative_me_fng now b in
      let (defi, e₃) =
        scheduled_status_total CadenceSourceId.defillama_api defillama_ms last.defillama_api now
          c in
      (plan_of (iso now) dex alt defi, rw (e₁, e₂, e₃) (ground arith)),
)
