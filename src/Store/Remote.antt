-- ===== src/Store/Remote.antt =====
-- internal/store/git.go: ensureRemote and Push. The lock makes each a single step.
pub mod RefSpec
pub mod Pushed
use jconfig.Prelude.{
  ℕ, zero, suc, ◌+◌, ◌-◌, ◌*◌, ◌/◌, ◌%◌, ◌≤◌, ◌<◌, Bool, true, false, not, ◌&&◌, ◌||◌, List, [],
  ◌∷◌, ◌++◌, map, ◌≡◌, ◌≢◌, ◌↔◌, ◌⊎◌, inl, inr, refl, sym, ap, ◌∙◌, Option, none, some, is_some,
  arith, keep, any, all, All, all-append, All-append, All-map, length, take, drop, length-append,
  Equality, ◌==◌, nat_equality, list_equality, list_beq, text_eq, nat_beq, ltb, leb, Bool-cases,
  Option-cases, if◌then◌else◌,
}
use jconfig.Prelude.Answer.{Answer, good, bad}
use jconfig.Strings.Format.{explain}
use jconfig.Strings.Basic.{Text, codes}
use jconfig.Config.Types.{Repo}
use jconfig.Config.Host.{Host}
use jconfig.Store.Git.{
  GitError, Got, found, missed, Auth, PushOptions, Git, is_remote_not_found, is_up_to_date,
}
use jconfig.Store.Auth.{remote_auth}

-- rem.Config().URLs[0] is the configured one.
abbrev pub points_at : Text → List Text → Bool
points_at url [] = false
points_at url (u ∷ urls) = u == url

module _ {S : Type 0} (host : Host) (git : Git S) (cfg : Repo) where
  abbrev pub create : S → Option Text × S
  create s = git.create_remote s cfg.push.remote cfg.push.url

  abbrev pub recreate : Option Text × S → Option Text × S
  recreate (some e, s) = (some (explain (codes "update remote " ++ cfg.push.remote) e), s)
  recreate (none, s) = create s

  abbrev pub known_remote : S → Got (List Text) → Option Text × S
  known_remote s (missed e) =
      if is_remote_not_found e.kind
      then create s
      else (some (explain (codes "read remote " ++ cfg.push.remote) e.text), s)
  known_remote s (found urls) =
      if points_at cfg.push.url urls
      then (none, s)
      else recreate (git.delete_remote s cfg.push.remote)

  -- ensureRemote
  unfoldable pub ensure_remote : S → Option Text × S
  ensure_remote s = known_remote s (git.remote s cfg.push.remote)

  abbrev pub ref_spec : Text
  ref_spec =
      (if cfg.push.force then codes "+" else [])
      ++ (git.branch_ref cfg.branch ++ (b':' ∷ git.branch_ref cfg.push.branch))

  abbrev pub push_options : Auth → PushOptions
  push_options auth = record {
    remote_name = cfg.push.remote;
    ref_spec = ref_spec;
    auth = auth;
    force = cfg.push.force;
    timeout = cfg.push.timeout;
  }

  abbrev pub pushed : Option GitError × S → Answer Bool × S
  pushed (none, s) = (good true, s)
  pushed (some e, s) =
      if is_up_to_date e.kind
      then (good false, s)
      else (bad (explain (codes "push to " ++ cfg.push.remote) e.text), s)

  abbrev pub push_with : S → Answer Auth → Answer Bool × S
  push_with s (bad e) = (bad e, s)
  push_with s (good auth) = pushed (git.push_refs s (push_options auth))

  abbrev pub push_to : Option Text × S → Answer Bool × S
  push_to (some e, s) = (bad e, s)
  push_to (none, s) = push_with s (remote_auth host git.transports cfg.push)

  -- Push
  unfoldable pub push : S → Answer Bool × S
  unfolding ensure_remote remote_auth
  push s = if cfg.push.enabled then push_to (ensure_remote s) else (good false, s)
