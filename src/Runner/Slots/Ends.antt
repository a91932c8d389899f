-- ===== src/Runner/Slots/Ends.antt =====
-- internal/runner/runner.go: the end of a run.
use jconfig.Prelude.{
  ℕ, ◌+◌, ◌*◌, ◌≤◌, ◌<◌, Bool, true, false, List, [], ◌∷◌, ◌≡◌, ◌⊎◌, inl, inr, refl, arith, length,
  nat_equality, list_equality,
}
use jconfig.Strings.Basic.{Text}
use jconfig.Runner.Slots.{
  Phase, waiting, working, recorded, leaving, gone, Goroutine, Moves, here, there, Pool, Step,
  acquire, give_up, note, release, done, cancel, Reach, start, later,
}
use jconfig.Runner.Slots.Safety.{total, Moves-total, holds, live, IsCounted, total-launched}

-- The steps that a goroutine has left, at most.
unfoldable steps_left : Phase → ℕ
steps_left waiting = 4
steps_left working = 3
steps_left recorded = 2
steps_left (leaving b) = 1
steps_left (gone b) = 0

unfoldable end_left : Bool → ℕ
end_left true = 0
end_left false = 1

unfoldable pub measure : Pool → ℕ
unfolding total steps_left end_left
measure s = total steps_left s.goroutines + end_left s.ended

Step-measure : {capacity : ℕ} {s t : Pool} → Step capacity s t → measure t < measure s
unfolding measure
Step-measure (acquire lt m) = omega (arith, Moves-total steps_left m)
Step-measure (give_up e m) = omega (arith, Moves-total steps_left m)
Step-measure (note m) = omega (arith, Moves-total steps_left m)
Step-measure (release m) = omega (arith, Moves-total steps_left m)
Step-measure (done m) = omega (arith, Moves-total steps_left m)
Step-measure (cancel e) = rw e (omega arith)

pub Reach-measure :
    {capacity : ℕ} {devices : List Text} {n : ℕ} {s : Pool}
    → Reach capacity devices n s
    → n + measure s ≤ 4 * length devices + 1
unfolding measure
Reach-measure {devices} start = omega (arith, total-launched steps_left devices)
Reach-measure (later r st) = omega (arith, Reach-measure r, Step-measure st)

-- What some goroutine can do next.
data Chance (gs : List Goroutine) : Type 0 where
  can_note : (d : Text) (ys : List Goroutine) → Moves d working recorded gs ys → Chance gs
  can_release : (d : Text) (ys : List Goroutine) → Moves d recorded (leaving true) gs ys → Chance gs
  can_finish :
      (d : Text) (b : Bool) (ys : List Goroutine) → Moves d (leaving b) (gone b) gs ys → Chance gs
  can_acquire :
      (d : Text) (ys : List Goroutine)
      → total holds gs ≡ 0
      → Moves d waiting working gs ys
      → Chance gs
  all_gone : total holds gs ≡ 0 → total live gs ≡ 0 → Chance gs

Chance-gone :
    (d : Text) (b : Bool) (gs : List Goroutine)
    → Chance gs
    → Chance (record { device = d; phase = gone b } ∷ gs)
unfolding total holds live
Chance-gone d b gs (can_note e ys m) = can_note e _ (there m)
Chance-gone d b gs (can_release e ys m) = can_release e _ (there m)
Chance-gone d b gs (can_finish e c ys m) = can_finish e c _ (there m)
Chance-gone d b gs (can_acquire e ys h m) = can_acquire e _ (omega arith) (there m)
Chance-gone d b gs (all_gone h l) = all_gone (omega arith) (omega arith)

Chance-waiting :
    (d : Text) (gs : List Goroutine)
    → Chance gs
    → Chance (record { device = d; phase = waiting } ∷ gs)
unfolding total holds live
Chance-waiting d gs (can_note e ys m) = can_note e _ (there m)
Chance-waiting d gs (can_release e ys m) = can_release e _ (there m)
Chance-waiting d gs (can_finish e c ys m) = can_finish e c _ (there m)
Chance-waiting d gs (can_acquire e ys h m) = can_acquire d _ (omega arith) here
Chance-waiting d gs (all_gone h l) = can_acquire d _ (omega arith) here

Chance-cons :
    (d : Text) (p : Phase) (gs : List Goroutine)
    → Chance gs
    → Chance (record { device = d; phase = p } ∷ gs)
Chance-cons d waiting gs c = Chance-waiting d gs c
Chance-cons d working gs c = can_note d _ here
Chance-cons d recorded gs c = can_release d _ here
Chance-cons d (leaving b) gs c = can_finish d b _ here
Chance-cons d (gone b) gs c = Chance-gone d b gs c

chance : (gs : List Goroutine) → Chance gs
unfolding total
chance [] = all_gone refl refl
chance (g ∷ gs) = Chance-cons g.device g.phase gs (chance gs)

-- A run that still waits for a goroutine can go on, by a step of a goroutine.
pub goes_on :
    {capacity : ℕ} (s : Pool)
    → 0 < capacity
    → IsCounted capacity s
    → (s.unfinished ≡ 0) ⊎ ((t : Pool) × Step capacity s t × (t.ended ≡ s.ended))
goes_on s room c = elim (chance s.goroutines) [
  | can_note d ys m ↦ inr (_, note m, refl)
  | can_release d ys m ↦ inr (_, release m, refl)
  | can_finish d b ys m ↦ inr (_, done m, refl)
  | can_acquire d ys h m ↦ inr (_, acquire (omega (arith, c.slots)) m, refl)
  | all_gone h l ↦ inl (omega (arith, c.waited_for))
]
