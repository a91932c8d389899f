-- ===== src/Daemon/Pass.antt =====
-- main.go: when a single pass exits without a failure.
use jconfig.Prelude.{
  Bool, true, false, List, [], ◌≡◌, ◌↔◌, ◌⊎◌, inl, inr, refl, Option, none, some, arith, ◌==◌,
  nat_equality, list_equality, text_eq, if◌then◌else◌,
}
use jconfig.Prelude.Time.{Time}
use jconfig.Strings.Basic.{Text}
use jconfig.Config.Types.{Device}
use jconfig.Store.Api.{StoreApi}
use jconfig.Runner.Types.{Runner, RunSummary}
use jconfig.Runner.Run.{RunTimes, Job, RunAnswer, busy_error, unknown_device, summary, run_all}
use jconfig.Daemon.Main.{exit_of, after_write, after_pass, run_once}

-- The run went through, no device failed, the push did not fail, and the metrics file was written
-- if one is named.
pub record IsClean (file : Text) (write : Option Text) (answer : RunAnswer) : Type 0 where
  pub report : RunSummary
  pub answered : answer ≡ summary report
  pub none_failed : report.failed ≡ 0
  pub pushed : report.push_error ≡ []
  pub written : (file ≡ []) ⊎ (write ≡ none)

exit_of-none :
    (sum : RunSummary) → (exit_of sum ≡ none) ↔ ((sum.failed ≡ 0) × (sum.push_error ≡ []))
unfolding exit_of
exit_of-none sum = ground (arith, text_eq sum.push_error [])

IsClean-of :
    (file : Text) (write : Option Text) (answer : RunAnswer)
    → after_pass file write answer ≡ none
    → IsClean file write answer
IsClean-of file write busy_error h = absurd cc
IsClean-of file write (unknown_device name) h = absurd cc
IsClean-of file write (summary sum) h = go (file == []) write refl refl h
  where
    clean : (exit_of sum ≡ none) → (file ≡ []) ⊎ (write ≡ none) → IsClean file write (summary sum)
    clean e w =
        let (none_failed, pushed) = (exit_of-none sum).0 e in
        record {
          report = sum;
          answered = refl;
          none_failed = none_failed;
          pushed = pushed;
          written = w;
        }

    go :
        (b : Bool) (w : Option Text)
        → (file == []) ≡ b
        → write ≡ w
        → (if b then exit_of sum else after_write w sum) ≡ none
        → IsClean file write (summary sum)
    go true w e k h = clean h (inl ((text_eq file []).0 e))
    go false (some x) e k h = absurd cc
    go false none e k h = clean h (inr k)

of_IsClean :
    (file : Text) (write : Option Text) (answer : RunAnswer)
    → IsClean file write answer
    → after_pass file write answer ≡ none
of_IsClean file write answer h = rw h.answered (by_file (file == []) refl h.written)
  where
    passed : exit_of h.report ≡ none
    passed = (exit_of-none h.report).1 (h.none_failed, h.pushed)

    by_file :
        (b : Bool)
        → (file == []) ≡ b
        → (file ≡ []) ⊎ (write ≡ none)
        → (if b then exit_of h.report else after_write write h.report) ≡ none
    by_file true e w = passed
    by_file false e (inl k) = absurd (let named = (text_eq file []).1 k in cc)
    by_file false e (inr k) = rw k passed

module _ {S : Type 0} (api : StoreApi S) (format_time : Time → Text) where
  -- A single pass exits without a failure exactly if the run went through, no device failed, the
  -- push did not fail, and the metrics file was written if one is named.
  pub run_once-IsClean :
      (times : RunTimes) (fates : List Device → List Job) (file : Text) (write : Option Text)
      (r : Runner S)
      → ((run_once api format_time times fates file write r).0 ≡ none)
        ↔ IsClean file write (run_all api format_time times fates r).0
  unfolding run_once
  run_once-IsClean times fates file write r =
      let answer = (run_all api format_time times fates r).0 in
      (IsClean-of file write answer, of_IsClean file write answer)
