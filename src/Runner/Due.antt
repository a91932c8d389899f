-- ===== src/Runner/Due.antt =====
-- When a device is due.
use jconfig.Prelude.{
  Bool, true, false, not, ◌&&◌, List, [], ◌∷◌, ◌≡◌, ◌≢◌, ◌↔◌, ◌⊎◌, inl, inr, refl, Option, none,
  some, arith, keep, nat_equality, list_equality, Bool-cases,
}
use mathlib.Core.Path.{subst}
use jconfig.Prelude.Int.{◌+ℤ◌, ◌≤ℤ◌}
use jconfig.Prelude.Dict.{Dict, get}
use jconfig.Prelude.Time.{Time, Duration, after}
use jconfig.Strings.Basic.{Text}
use mathlib.Core.List.{Mem}
use jconfig.Prelude.Keep.{mem-keep}
use jconfig.Config.Types.{Device, is_enabled, bool_or}
use jconfig.Device.Result.{Outcome, Fetched, ok, failed}
use jconfig.Prelude.Answer.{Answer, good, bad}
use jconfig.Store.Api.{CommitResult, StoreApi}
use jconfig.Runner.Types.{State, Runner, Readings}
use jconfig.Runner.Table.{state_due, retry_delay, due_in, due_devices}
use jconfig.Runner.Backup.{succeed, begin, backup}
use jconfig.Runner.Backup.Health.{self_entry}
use jconfig.Runner.Backup.Branches.{
  begun, begin-Touches, backup-Touches, answer_in, step_of, commit_step,
}

-- The delay until the next run: a failure waits for the retry interval, a success for the interval.
abbrev pub delay_after : Duration → Duration → (Fetched → Answer CommitResult) → Outcome → Duration
delay_after retry interval answer (failed e) = retry
delay_after retry interval answer (ok f) = elim (answer f) [ bad e ↦ retry | good c ↦ interval ]

step-due :
    (delay : Duration) (d : Device) (t : Readings) (answer : Fetched → Answer CommitResult)
    (fetched : Outcome) (st : State) (u : Time)
    → state_due u (some (record (step_of delay d t answer fetched st) { running = false }))
      ≡ not (after (t.now +ℤ delay_after delay d.interval answer fetched) u)
unfolding succeed
step-due delay d t answer (failed e) st u = refl
step-due delay d t answer (ok f) st u = by_answer (answer f)
  where
    by_answer :
        (a : Answer CommitResult)
        → state_due u (some (record (commit_step delay d t f a st) { running = false }))
          ≡ not (after (t.now +ℤ elim a [ bad e ↦ delay | good c ↦ d.interval ]) u)
    by_answer (bad e) = refl
    by_answer (good c) = refl

module _ {S : Type 0} (api : StoreApi S) (format_time : Time → Text) (d : Device)
    (t : Readings) where
  -- A device whose backup is running is not due at any time.
  pub begin-not_due :
      (r : Runner S) (st : State) (u : Time)
      → get d.name r.states ≡ some st
      → state_due u (get d.name (begin api format_time d t r).states) ≡ false
  begin-not_due r st u h = rw (self_entry st (begin-Touches api format_time d t r) h) refl

  -- A device whose backup has ended is due from the end plus the delay on, and not before: the
  -- delay is the interval after a success, and the retry delay after a failure of the fetch or of
  -- the commit.
  pub backup-due :
      (fetched : Outcome) (r : Runner S) (st : State) (u : Time)
      → get d.name r.states ≡ some st
      → state_due u (get d.name (backup api format_time d fetched t r).1.states)
        ≡ not (
            after
              (t.now
                +ℤ delay_after
                    (retry_delay d r)
                    d.interval
                    (answer_in api format_time r d t)
                    fetched)
              u)
  backup-due fetched r st u h =
      rw (self_entry st (backup-Touches api format_time d t fetched r) h)
        (step-due (retry_delay d r) d t (answer_in api format_time r d t) fetched (begun t st) u)

-- A device that is not disabled, and has an entry that is not running and has no next run or one
-- that is not in the future.
pub record IsDue (now : Time) (states : Dict Text State) (d : Device) : Type 0 where
  pub not_disabled : d.enabled ≢ some false
  pub entry : State
  pub known : get d.name states ≡ some entry
  pub idle : entry.running ≡ false
  pub reached : (entry.next_run ≡ none) ⊎ ((t : Time) × (entry.next_run ≡ some t) × (t ≤ℤ now))

not_disabled : (o : Option Bool) → bool_or true o ≡ true → o ≢ some false
not_disabled none h k = cc
not_disabled (some true) h k = cc
not_disabled (some false) h k = absurd cc

enabled_of : (o : Option Bool) → o ≢ some false → bool_or true o ≡ true
enabled_of none h = refl
enabled_of (some true) h = refl
enabled_of (some false) h = absurd (h refl)

IsReached : Time → Option Time → Type 0
IsReached now o = (o ≡ none) ⊎ ((t : Time) × (o ≡ some t) × (t ≤ℤ now))

IsReached-of :
    (now : Time) (o : Option Time)
    → elim o [ none ↦ true | some t ↦ not (after t now) ] ≡ true
    → IsReached now o
unfolding IsReached
IsReached-of now none h = inl refl
IsReached-of now (some t) h = inr (t, refl, ground arith)

time_of :
    (now : Time) (o : Option Time)
    → IsReached now o
    → elim o [ none ↦ true | some t ↦ not (after t now) ] ≡ true
unfolding IsReached
time_of now none h = refl
time_of now (some t) (inl e) = absurd cc
time_of now (some t) (inr (u, e, le)) =
    let same : u ≡ t = cc in let le' : t ≤ℤ now = subst (λ x. x ≤ℤ now) same le in ground arith

IsDue-of :
    (now : Time) (states : Dict Text State) (d : Device) (o : Option State)
    → get d.name states ≡ o
    → is_enabled d ≡ true
    → state_due now o ≡ true
    → IsDue now states d
unfolding is_enabled IsReached
IsDue-of now states d none e h k = absurd cc
IsDue-of now states d (some st) e h k = elim (Bool-cases st.running) [
  | inl busy ↦ absurd (let clash : false ≡ true = rw busy at k in cc)
  | inr idle ↦ record {
    not_disabled = not_disabled d.enabled h;
    entry = st;
    known = e;
    idle = idle;
    reached = IsReached-of now st.next_run (rw idle at k);
  }
]

due-of :
    (now : Time) (states : Dict Text State) (d : Device)
    → IsDue now states d
    → (is_enabled d ≡ true) × (state_due now (get d.name states) ≡ true)
unfolding is_enabled IsReached
due-of now states d due = (
  enabled_of d.enabled due.not_disabled,
  rw due.known (rw due.idle (time_of now due.entry.next_run due.reached)),
)

due_in-keep :
    (now : Time) (states : Dict Text State) (ds : List Device)
    → due_in now states ds ≡ keep (λ d. is_enabled d && state_due now (get d.name states)) ds
unfolding due_in keep
due_in-keep now states [] = refl
due_in-keep now states (d ∷ ds) = ground (arith, due_in-keep now states ds)

both_true : (a b : Bool) → (a && b) ≡ true → (a ≡ true) × (b ≡ true)
both_true a b h = ground arith

and_true : (a b : Bool) → (a ≡ true) × (b ≡ true) → (a && b) ≡ true
and_true a b h = ground arith

-- The scheduler starts exactly the devices of the inventory that are not disabled, and have an entry
-- that is not running and has no next run or one that is not in the future.
pub due_devices-mem :
    {S : Type 0} (now : Time) (r : Runner S) (d : Device)
    → Mem d (due_devices now r) ↔ (Mem d r.cfg.devices × IsDue now r.states d)
unfolding due_devices
due_devices-mem now r d =
    let iff = mem-keep (λ e. is_enabled e && state_due now (get e.name r.states)) r.cfg.devices d in
    rw (due_in-keep now r.states r.cfg.devices) (
      λ m.
          let (enabled, due) = both_true _ _ (iff.0 m).1 in
          ((iff.0 m).0, IsDue-of now r.states d (get d.name r.states) refl enabled due),
      λ m. iff.1 (m.0, and_true _ _ (due-of now r.states d m.1)),
    )
