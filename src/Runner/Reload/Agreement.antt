-- ===== src/Runner/Reload/Agreement.antt =====
-- Reload and the agreement of the table with the collectors.
use jconfig.Prelude.{
  Bool, true, false, List, [], ◌∷◌, ◌≡◌, inl, inr, refl, sym, ap, ◌∙◌, Option, none, some, is_some,
  arith, ◌==◌, nat_equality, list_equality, text_eq, Bool-cases, if◌then◌else◌,
}
use mathlib.Core.Path.{subst}
use jconfig.Prelude.Dict.{Dict, get}
use jconfig.Prelude.Time.{Time, Duration}
use jconfig.Strings.Basic.{Text}
use jconfig.Config.Types.{Config, Device}
use jconfig.Metrics.{Metrics, forget_device}
use jconfig.Metrics.Health.{SameFor, SameFor-refl, SameFor-trans, forget_device-SameFor}
use jconfig.Runner.Types.{State, Runner}
use jconfig.Runner.Table.{new_state, refreshed, state_or, forget_removed, config_gauges, reload}
use jconfig.Runner.Backup.Health.{Agrees, Agrees-SameFor, TableAgrees}
use jconfig.Runner.Reload.{named, entry_of, reload-get}

forget_removed-SameFor :
    (states old : Dict Text State) (m : Metrics) (n : Text)
    → is_some (get n states) ≡ true
    → SameFor n m (forget_removed states old m)
unfolding forget_removed
forget_removed-SameFor states [] m n h = SameFor-refl n m
forget_removed-SameFor states ((name, st) ∷ old) m n h =
    elim (Bool-cases (is_some (get name states))) [
      | inl e ↦ rw e (forget_removed-SameFor states old m n h)
      | inr e ↦ rw e (
          SameFor-trans (forget_device-SameFor name n m (differ e))
            (forget_removed-SameFor states old (forget_device name m) n h))
    ]
  where
    differ : is_some (get name states) ≡ false → (name == n) ≡ false
    differ e = elim (Bool-cases (name == n)) [
      | inl same ↦
          absurd
            (let k = (text_eq name n).0 same in let k' = ap (λ x. is_some (get x states)) k in cc)
      | inr d ↦ d
    ]

config_gauges-SameFor : (cfg : Config) (m : Metrics) (n : Text) → SameFor n m (config_gauges cfg m)
unfolding config_gauges
config_gauges-SameFor cfg m n = record { count = refl; success = refl; errors = λ rest. refl }

named-name : (n : Text) (ds : List Device) (d : Device) → named n ds ≡ some d → d.name ≡ n
unfolding named
named-name n [] d h = absurd (cc)
named-name n (e ∷ ds) d h = by_later (named n ds) (named-name n ds d) h
  where
    by_later :
        (later : Option Device)
        → (later ≡ some d → d.name ≡ n)
        → elim later [ some x ↦ some x | none ↦ (if e.name == n then some e else none) ] ≡ some d
        → d.name ≡ n
    by_later (some x) ih k = ih k
    by_later none ih k = ground (arith, text_eq e.name n)

-- A device that is in neither table keeps its series.
pub forget_removed_absent :
    (states old : Dict Text State) (m : Metrics) (n : Text)
    → get n old ≡ none
    → SameFor n m (forget_removed states old m)
unfolding forget_removed get
forget_removed_absent states [] m n h = SameFor-refl n m
forget_removed_absent states ((name, st) ∷ old) m n h = elim (Bool-cases (name == n)) [
  | inl e ↦ absurd (let k : some st ≡ none = rw e at h in cc)
  | inr e ↦
      SameFor-trans (by_test e (is_some (get name states)))
        (forget_removed_absent states old _ n (rw e at h))
]
  where
    by_test : (name == n) ≡ false → (b : Bool) → SameFor n m (if b then m else forget_device name m)
    by_test e true = SameFor-refl n m
    by_test e false = forget_device-SameFor name n m e

refreshed-Agrees :
    (m : Metrics) (n : Text) (d : Device) (st : State) → Agrees m n st → Agrees m n (refreshed d st)
refreshed-Agrees m n d st a = record { failing = a.failing; healthy = a.healthy }

some_inj : {x y : State} → some x ≡ some y → x ≡ y
some_inj k = cc

new-Agrees :
    (draw : Duration → Duration) (now : Time) (cfg : Config) (m : Metrics) (n : Text) (d : Device)
    → Agrees m n (refreshed d (new_state draw now cfg d))
unfolding new_state
new-Agrees draw now cfg m n d = record {
  failing = λ h. absurd (omega arith);
  healthy = λ h k. absurd (k refl);
}

module _ {S : Type 0} (draws : Text → Duration → Duration) (now : Time) (cfg : Config)
    (r : Runner S) where
  pub reload-SameFor_absent :
      (n : Text) → get n r.states ≡ none → SameFor n r.metrics (reload draws now cfg r).metrics
  unfolding reload
  reload-SameFor_absent n h =
      SameFor-trans (forget_removed_absent _ r.states r.metrics n h) (config_gauges-SameFor cfg _ n)

  reload-SameFor_kept :
      (n : Text) (st : State)
      → get n (reload draws now cfg r).states ≡ some st
      → SameFor n r.metrics (reload draws now cfg r).metrics
  unfolding reload
  reload-SameFor_kept n st h =
      SameFor-trans (forget_removed-SameFor _ r.states r.metrics n (rw h refl))
        (config_gauges-SameFor cfg _ n)

  entry-Agrees :
      (m : Metrics) (d : Device)
      → ((st : State) → get d.name r.states ≡ some st → Agrees m d.name st)
      → Agrees m d.name (entry_of draws now cfg r.states d)
  entry-Agrees m d agrees = by_old (get d.name r.states) agrees
    where
      by_old :
          (o : Option State)
          → ((st : State) → o ≡ some st → Agrees m d.name st)
          → Agrees m d.name (refreshed d (state_or (new_state (draws d.name) now cfg d) o))
      by_old none f = new-Agrees (draws d.name) now cfg m d.name d
      by_old (some st) f = refreshed-Agrees m d.name d st (f st refl)

  -- A reload keeps the agreement of the table and the collectors.
  pub reload-TableAgrees : TableAgrees r → TableAgrees (reload draws now cfg r)
  reload-TableAgrees agrees n st h = by_named (named n cfg.devices) refl
    where
      by_named :
          (o : Option Device)
          → named n cfg.devices ≡ o
          → Agrees (reload draws now cfg r).metrics n st
      by_named none e =
          absurd (let k = sym h ∙ reload-get draws now cfg r n ∙ (rw e refl) in impossible k)
        where
          impossible : some st ≡ none → ⊥
          impossible k = cc
      by_named (some d) e =
          let image : entry_of draws now cfg r.states d ≡ st =
            some_inj (sym (reload-get draws now cfg r n ∙ (rw e refl)) ∙ h) in
          subst (Agrees (reload draws now cfg r).metrics n) image (
            subst
              (λ x. Agrees (reload draws now cfg r).metrics x (entry_of draws now cfg r.states d))
              (named-name n cfg.devices d e)
              (entry-Agrees (reload draws now cfg r).metrics d (λ st' found.
                Agrees-SameFor
                  (subst (λ x. SameFor x r.metrics (reload draws now cfg r).metrics)
                    (sym (named-name n cfg.devices d e)) (reload-SameFor_kept n st h))
                  (agrees d.name st' found))))
