-- ===== src/Runner/Slots.antt =====
-- internal/runner/runner.go: the goroutines of one run. They share a semaphore with room for the
-- configured concurrency, the list of results and the group that the run waits for; the context may
-- end at any time. A step is one of these operations by one goroutine.
pub mod Safety
pub mod Ends
pub mod Results
use jconfig.Prelude.{
  ℕ, zero, suc, ◌+◌, ◌-◌, ◌*◌, ◌/◌, ◌%◌, ◌≤◌, ◌<◌, Bool, true, false, not, ◌&&◌, ◌||◌, List, [],
  ◌∷◌, ◌++◌, map, ◌≡◌, ◌≢◌, ◌↔◌, ◌⊎◌, inl, inr, refl, sym, ap, ◌∙◌, Option, none, some, is_some,
  arith, keep, any, all, All, all-append, All-append, All-map, length, drop, length-append,
  Equality, ◌==◌, nat_equality, list_equality, list_beq, text_eq, nat_beq, ltb, leb, Bool-cases,
  Option-cases, if◌then◌else◌,
}
use jconfig.Strings.Basic.{Text}

-- Where a goroutine is: before it has a slot, in backup, with its result noted, with its slot given
-- back or the context's end seen, and counted as done. The last two tell whether it has a result.
pub data Phase : Type 0 where
  waiting working recorded : Phase
  leaving gone : Bool → Phase

pub record Goroutine : Type 0 where
  pub device : Text
  pub phase : Phase

-- One goroutine, for the device `d`, goes from one phase to another.
pub data Moves (d : Text) (p q : Phase) : List Goroutine → List Goroutine → Type 0 where
  here :
      {rest : List Goroutine}
      → Moves d p q
          (record { device = d; phase = p } ∷ rest)
          (record { device = d; phase = q } ∷ rest)
  there :
      {g : Goroutine} {xs ys : List Goroutine} → Moves d p q xs ys → Moves d p q (g ∷ xs) (g ∷ ys)

-- The run's state: the slots taken, the count of the WaitGroup, the devices of the results, and
-- whether the context has ended.
pub record Pool : Type 0 where
  pub goroutines : List Goroutine
  pub in_use : ℕ
  pub unfinished : ℕ
  pub results : List Text
  pub ended : Bool

pub data Step (capacity : ℕ) (s : Pool) : Pool → Type 0 where
  -- case sem <- struct{}{}
  acquire :
      {d : Text} {gs : List Goroutine}
      → s.in_use < capacity
      → Moves d waiting working s.goroutines gs
      → Step capacity s (record s { goroutines = gs; in_use = s.in_use + 1 })
  -- case <-ctx.Done()
  give_up :
      {d : Text} {gs : List Goroutine}
      → s.ended ≡ true
      → Moves d waiting (leaving false) s.goroutines gs
      → Step capacity s (record s { goroutines = gs })
  -- results = append(results, res), under the lock
  note :
      {d : Text} {gs : List Goroutine}
      → Moves d working recorded s.goroutines gs
      → Step capacity s (record s { goroutines = gs; results = s.results ++ (d ∷ []) })
  -- the deferred <-sem
  release :
      {d : Text} {gs : List Goroutine}
      → Moves d recorded (leaving true) s.goroutines gs
      → Step capacity s (record s { goroutines = gs; in_use = s.in_use - 1 })
  -- the deferred wg.Done()
  done :
      {d : Text} {b : Bool} {gs : List Goroutine}
      → Moves d (leaving b) (gone b) s.goroutines gs
      → Step capacity s (record s { goroutines = gs; unfinished = s.unfinished - 1 })
  -- the context ends
  cancel : s.ended ≡ false → Step capacity s (record s { ended = true })

abbrev pub launched : List Text → List Goroutine
launched [] = []
launched (d ∷ ds) = record { device = d; phase = waiting } ∷ launched ds

-- The run's state once every goroutine is started.
abbrev pub launch : List Text → Pool
launch devices = record {
  goroutines = launched devices;
  in_use = 0;
  unfinished = length devices;
  results = [];
  ended = false;
}

-- What can be reached in `n` steps.
pub data Reach (capacity : ℕ) (devices : List Text) : ℕ → Pool → Type 0 where
  start : Reach capacity devices 0 (launch devices)
  later :
      {n : ℕ} {s t : Pool}
      → Reach capacity devices n s
      → Step capacity s t
      → Reach capacity devices (suc n) t
