-- ===== src/Tests/SlotsTests.antt =====
-- internal/runner: two devices and one slot.
use jconfig.Prelude.{
  ◌+◌, ◌*◌, ◌≤◌, true, false, [], ◌∷◌, ◌≡◌, ◌⊎◌, arith, length, nat_equality, list_equality,
}
use jconfig.Strings.Basic.{Text, codes}
use jconfig.Runner.Slots.{
  Phase, working, leaving, Goroutine, here, there, Pool, Step, acquire, note, release, Reach, start,
  later,
}
use jconfig.Runner.Slots.Safety.{total, in_backup, slots-bounded}
use jconfig.Runner.Slots.Results.{IsAccountedFor, run-ends}

abbrev first : Text
first = codes "mx1"

abbrev second : Text
second = codes "mx2"

abbrev at : Text → Phase → Goroutine
at d p = record { device = d; phase = p }

-- The first device has given its slot back, the second one is in backup.
abbrev halfway : Pool
halfway = record {
  goroutines = at first (leaving true) ∷ at second working ∷ [];
  in_use = 1;
  unfinished = 2;
  results = first ∷ [];
  ended = false;
}

reached : Reach 1 (first ∷ second ∷ []) 4 halfway
reached =
    later (later (later (later start (acquire (omega arith) here)) (note here)) (release here))
      (acquire (omega arith) (there here))

slots-bounded_example : total in_backup halfway.goroutines ≤ 1
slots-bounded_example = slots-bounded reached

run-ends_example :
    (4 ≤ 4 * length (first ∷ second ∷ []) + 1)
    × ((halfway.unfinished ≡ 0) ⊎ ((t : Pool) × Step 1 halfway t × (t.ended ≡ halfway.ended)))
    × (halfway.unfinished ≡ 0 → IsAccountedFor (first ∷ second ∷ []) halfway)
run-ends_example = run-ends (omega arith) reached
