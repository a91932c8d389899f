-- ===== src/Runner/Backup/Gauges.antt =====
-- The observations of a backup beside the health series.
use jconfig.Prelude.{Bool, true, false, [], ◌∷◌, refl, nat_equality, list_equality, if◌then◌else◌}
use jconfig.Prelude.Dict.{Dict}
use jconfig.Prelude.Time.{Time}
use jconfig.Strings.Basic.{Text}
use jconfig.Config.Types.{Device}
use jconfig.Device.Result.{Fetched}
use jconfig.Metrics.{Metrics, observe_attempt, observe_git}
use jconfig.Metrics.Health.{SameFor, SameFor-refl, SameFor-trans}
use jconfig.Runner.Backup.{size_gauges, change_metrics, info_metrics}

pub observe_attempt-SameFor :
    (d n : Text) (at : Time) (m : Metrics) → SameFor n m (observe_attempt d at m)
unfolding observe_attempt
observe_attempt-SameFor d n at m = record { count = refl; success = refl; errors = λ rest. refl }

pub observe_git-SameFor :
    (op n : Text) (b : Bool) (at : Time) (m : Metrics) → SameFor n m (observe_git op b at m)
unfolding observe_git
observe_git-SameFor op n true at m = record { count = refl; success = refl; errors = λ rest. refl }
observe_git-SameFor op n false at m = record { count = refl; success = refl; errors = λ rest. refl }

pub size_gauges-SameFor :
    (d n : Text) (configs : Dict Text Text) (m : Metrics) → SameFor n m (size_gauges d configs m)
unfolding size_gauges
size_gauges-SameFor d n [] m = SameFor-refl n m
size_gauges-SameFor d n ((format, content) ∷ rest) m =
    SameFor-trans (record { count = refl; success = refl; errors = λ r. refl })
      (size_gauges-SameFor d n rest _)

pub change_metrics-SameFor :
    (b : Bool) (d n : Text) (at : Time) (m : Metrics)
    → SameFor n m (if b then change_metrics d at m else m)
unfolding change_metrics
change_metrics-SameFor true d n at m = record { count = refl; success = refl; errors = λ r. refl }
change_metrics-SameFor false d n at m = SameFor-refl n m

pub info_metrics-SameFor :
    (d : Device) (f : Fetched) (n : Text) (m : Metrics) → SameFor n m (info_metrics d f m)
unfolding info_metrics
info_metrics-SameFor d f n m = record { count = refl; success = refl; errors = λ r. refl }
