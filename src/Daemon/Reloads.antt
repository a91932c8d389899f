-- ===== src/Daemon/Reloads.antt =====
-- main.go: what a reload leaves on each way out, and when a pass exits without a failure.
use jconfig.Prelude.{
  true, false, [], ◌∷◌, ◌≡◌, ◌⊎◌, inl, inr, refl, Option, none, some, nat_equality, list_equality,
  Bool-cases,
}
use jconfig.Prelude.Int.{pos}
use jconfig.Prelude.Dict.{get, get-put_self}
use jconfig.Prelude.Answer.{Answer, good, bad, is_bad}
use jconfig.Prelude.Time.{Time, Duration}
use jconfig.Strings.Basic.{Text}
use jconfig.Config.Host.{Host}
use jconfig.Config.Types.{Config}
use jconfig.Metrics.{observe_git, op_open}
use jconfig.Runner.Types.{Runner}
use jconfig.Runner.Table.{reload, set_store}
use jconfig.Daemon.Main.{same_repo, load_file, mark_failed, after_open, with_config, reload_config}

module _ {S : Type 0} where
  -- The configuration, the table and the repository are the old ones, and the gauge of the file
  -- says that it failed to load.
  pub record IsKept (path : Text) (r r' : Runner S) : Type 0 where
    pub cfg_kept : r'.cfg ≡ r.cfg
    pub states_kept : r'.states ≡ r.states
    pub store_kept : r'.store ≡ r.store
    pub flagged : get (path ∷ []) r'.metrics.config_load ≡ some (pos 0)

  -- The configuration is a new one that loads, and the repository is the one that its settings
  -- name: the old one if they are the same, else one that was opened for them.
  pub record IsReplaced (host : Host) (document : Option Config) (opened : Answer S)
      (r r' : Runner S) : Type 0 where
    pub new_cfg : load_file host document ≡ some r'.cfg
    pub new_store :
        ((same_repo r.cfg.repo r'.cfg.repo ≡ true) × (r'.store ≡ r.store))
        ⊎ ((same_repo r.cfg.repo r'.cfg.repo ≡ false) × (opened ≡ good r'.store))

  mark_failed-IsKept : (path : Text) (r : Runner S) → IsKept path r (mark_failed path r)
  unfolding mark_failed
  mark_failed-IsKept path r = record {
    cfg_kept = refl;
    states_kept = refl;
    store_kept = refl;
    flagged = get-put_self (path ∷ []) (pos 0) r.metrics.config_load;
  }

  -- A reload either keeps everything and says so in the gauge, or takes a configuration that loads
  -- together with the repository that it names; nothing in between.
  pub reload_config-all_or_nothing :
      (host : Host) (path : Text) (draws : Text → Duration → Duration) (now : Time)
      (document : Option Config) (opened : Answer S) (r : Runner S)
      → IsKept path r (reload_config host path draws now document opened r)
        ⊎ IsReplaced host document opened r (reload_config host path draws now document opened r)
  unfolding reload_config
  reload_config-all_or_nothing host path draws now document opened r =
      go (load_file host document) refl
    where
      on_open :
          (cfg : Config)
          → load_file host document ≡ some cfg
          → same_repo r.cfg.repo cfg.repo ≡ false
          → (a : Answer S) → opened ≡ a
          → IsKept path r (
              after_open path
                (reload draws now)
                cfg
                (record r { metrics = observe_git op_open (is_bad opened) now r.metrics })
                a)
            ⊎ IsReplaced host document opened r (
                after_open path
                  (reload draws now)
                  cfg
                  (record r { metrics = observe_git op_open (is_bad opened) now r.metrics })
                  a)
      on_open cfg e other (bad x) k =
          let kept =
            mark_failed-IsKept path
              (record r { metrics = observe_git op_open (is_bad opened) now r.metrics }) in
          inl (record {
            cfg_kept = kept.cfg_kept;
            states_kept = kept.states_kept;
            store_kept = kept.store_kept;
            flagged = kept.flagged;
          })
      on_open cfg e other (good st) k =
          inr (unfold reload set_store in record { new_cfg = e; new_store = inr (other, k) })

      go :
          (o : Option Config)
          → load_file host document ≡ o
          → IsKept path r (with_config path (reload draws now) opened now r o)
            ⊎ IsReplaced host document opened r (with_config path (reload draws now) opened now r o)
      go none e = inl (mark_failed-IsKept path r)
      go (some cfg) e = elim (Bool-cases (same_repo r.cfg.repo cfg.repo)) [
        | inl same ↦
            rw same (inr (unfold reload in record { new_cfg = e; new_store = inl (same, refl) }))
        | inr other ↦ rw other (on_open cfg e other opened refl)
      ]
