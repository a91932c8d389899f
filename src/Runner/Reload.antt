-- ===== src/Runner/Reload.antt =====
-- What Reload makes of the table: the entry of each name.
pub mod Entry
pub mod Forgotten
pub mod Agreement
use jconfig.Prelude.{
  Bool, true, false, List, [], ◌∷◌, ◌≡◌, inl, inr, refl, sym, ap, ◌∙◌, Option, none, some, is_some,
  arith, ◌==◌, nat_equality, list_equality, text_eq, Bool-cases, if◌then◌else◌,
}
use mathlib.Core.Path.{subst}
use jconfig.Prelude.Dict.{Dict, get, put, get-put}
use jconfig.Prelude.Time.{Time, Duration}
use jconfig.Strings.Basic.{Text}
use jconfig.Config.Types.{Config, Device}
use jconfig.Metrics.{Metrics, forget_device}
use jconfig.Metrics.Laws.{IsForgotten, forget_device-IsForgotten, IsForgotten-forget}
use jconfig.Metrics.Health.{SameFor, SameFor-refl, SameFor-trans, forget_device-SameFor}
use jconfig.Runner.Types.{State, Runner}
use jconfig.Runner.Table.{
  new_state, refreshed, state_or, reload_states, forget_removed, config_gauges, reload,
}
use jconfig.Runner.Backup.Health.{Agrees, Agrees-SameFor, TableAgrees}

-- The device of that name in the inventory, the last one if there are several.
unfoldable pub named : Text → List Device → Option Device
named n [] = none
named n (d ∷ ds) =
    let later = named n ds in
    elim later [ some e ↦ some e | none ↦ (if d.name == n then some d else none) ]

module _ (draws : Text → Duration → Duration) (now : Time) (cfg : Config)
    (old : Dict Text State) where
  -- The entry that Reload makes for a device of the inventory.
  abbrev pub entry_of : Device → State
  entry_of d = refreshed d (state_or (new_state (draws d.name) now cfg d) (get d.name old))

  abbrev pub entry_or : Option State → Option Device → Option State
  entry_or o none = o
  entry_or o (some d) = some (entry_of d)

  reload_states-get :
      (ds : List Device) (states : Dict Text State) (n : Text)
      → get n (reload_states draws now cfg old ds states) ≡ entry_or (get n states) (named n ds)
  unfolding reload_states named
  reload_states-get [] states n = refl
  reload_states-get (d ∷ ds) states n =
      reload_states-get ds (put d.name (entry_of d) states) n ∙ by_later (named n ds)
    where
      by_test :
          (b : Bool)
          → (if b then some (entry_of d) else get n states)
            ≡ entry_or (get n states) (if b then some d else none)
      by_test b = ground arith

      by_later :
          (later : Option Device)
          → entry_or (get n (put d.name (entry_of d) states)) later
            ≡ entry_or
                (get n states)
                (elim later [ some e ↦ some e | none ↦ (if d.name == n then some d else none) ])
      by_later (some e) = refl
      by_later none = get-put d.name n (entry_of d) states ∙ by_test (d.name == n)

module _ {S : Type 0} (draws : Text → Duration → Duration) (now : Time) (cfg : Config)
    (r : Runner S) where
  pub reload-get :
      (n : Text)
      → get n (reload draws now cfg r).states
        ≡ entry_or draws now cfg r.states none (named n cfg.devices)
  unfolding reload
  reload-get n = reload_states-get draws now cfg r.states cfg.devices [] n ∙ (unfold get in refl)
