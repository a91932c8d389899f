-- ===== src/Runner/Slots/Safety.antt =====
-- internal/runner/runner.go: what holds at every moment of a run.
use jconfig.Prelude.{
  ℕ, ◌+◌, ◌*◌, ◌≤◌, List, [], ◌∷◌, ◌≡◌, arith, length, nat_equality, list_equality,
}
use jconfig.Strings.Basic.{Text}
use jconfig.Runner.Slots.{
  Phase, waiting, working, recorded, leaving, gone, Goroutine, Moves, here, there, Pool, Step,
  acquire, give_up, note, release, done, cancel, launched, Reach, start, later,
}

-- The sum of a weight of the goroutines' phases.
unfoldable pub total : (Phase → ℕ) → List Goroutine → ℕ
total w [] = 0
total w (g ∷ gs) = w g.phase + total w gs

pub Moves-total :
    (w : Phase → ℕ) {d : Text} {p q : Phase} {xs ys : List Goroutine}
    → Moves d p q xs ys
    → total w xs + w q ≡ total w ys + w p
unfolding total
Moves-total w here = omega arith
Moves-total w (there m) = omega (arith, Moves-total w m)

-- A slot is held from backup to its release.
unfoldable pub holds : Phase → ℕ
holds waiting = 0
holds working = 1
holds recorded = 1
holds (leaving b) = 0
holds (gone b) = 0

unfoldable pub in_backup : Phase → ℕ
in_backup waiting = 0
in_backup working = 1
in_backup recorded = 0
in_backup (leaving b) = 0
in_backup (gone b) = 0

unfoldable pub live : Phase → ℕ
live waiting = 1
live working = 1
live recorded = 1
live (leaving b) = 1
live (gone b) = 0

-- What the run's counters are, by the goroutines' phases.
pub record IsCounted (capacity : ℕ) (s : Pool) : Type 0 where
  pub slots : s.in_use ≡ total holds s.goroutines
  pub bounded : s.in_use ≤ capacity
  pub waited_for : s.unfinished ≡ total live s.goroutines

Step-IsCounted :
    {capacity : ℕ} {s t : Pool} → Step capacity s t → IsCounted capacity s → IsCounted capacity t
unfolding holds live
Step-IsCounted (acquire lt m) c = record {
  slots = omega (arith, Moves-total holds m, c.slots);
  bounded = omega arith;
  waited_for = omega (arith, Moves-total live m, c.waited_for);
}
Step-IsCounted (give_up e m) c = record {
  slots = omega (arith, Moves-total holds m, c.slots);
  bounded = c.bounded;
  waited_for = omega (arith, Moves-total live m, c.waited_for);
}
Step-IsCounted (note m) c = record {
  slots = omega (arith, Moves-total holds m, c.slots);
  bounded = c.bounded;
  waited_for = omega (arith, Moves-total live m, c.waited_for);
}
Step-IsCounted (release m) c = record {
  slots = omega (arith, Moves-total holds m, c.slots);
  bounded = omega (arith, c.bounded);
  waited_for = omega (arith, Moves-total live m, c.waited_for);
}
Step-IsCounted (done m) c = record {
  slots = omega (arith, Moves-total holds m, c.slots);
  bounded = c.bounded;
  waited_for = omega (arith, Moves-total live m, c.waited_for);
}
Step-IsCounted (cancel e) c = record {
  slots = c.slots;
  bounded = c.bounded;
  waited_for = c.waited_for;
}

pub total-launched :
    (w : Phase → ℕ) (devices : List Text) → total w (launched devices) ≡ length devices * w waiting
unfolding total
total-launched w [] = omega arith
total-launched w (d ∷ ds) = grind (arith, total-launched w ds)

pub Reach-IsCounted :
    {capacity : ℕ} {devices : List Text} {n : ℕ} {s : Pool}
    → Reach capacity devices n s
    → IsCounted capacity s
unfolding holds live
Reach-IsCounted {devices} start = record {
  slots = omega (arith, total-launched holds devices);
  bounded = omega arith;
  waited_for = omega (arith, total-launched live devices);
}
Reach-IsCounted (later r st) = Step-IsCounted st (Reach-IsCounted r)

backup_slot : (p : Phase) → in_backup p ≤ holds p
unfolding in_backup holds
backup_slot waiting = omega arith
backup_slot working = omega arith
backup_slot recorded = omega arith
backup_slot (leaving b) = omega arith
backup_slot (gone b) = omega arith

in_backup-holds : (gs : List Goroutine) → total in_backup gs ≤ total holds gs
unfolding total in_backup holds
in_backup-holds [] = omega arith
in_backup-holds (g ∷ gs) = omega (arith, in_backup-holds gs, backup_slot g.phase)

-- At every moment of a run, at most as many devices are being backed up as the configured
-- concurrency, however the goroutines are scheduled and whenever the context ends.
pub slots-bounded :
    {capacity : ℕ} {devices : List Text} {n : ℕ} {s : Pool}
    → Reach capacity devices n s
    → total in_backup s.goroutines ≤ capacity
slots-bounded {s} r =
    let c = Reach-IsCounted r in omega (arith, in_backup-holds s.goroutines, c.slots, c.bounded)
