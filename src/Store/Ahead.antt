-- ===== src/Store/Ahead.antt =====
-- internal/store/git.go: Unpushed and countFrom, which count commits up to the remote's, and what is
-- read of the repository for the metrics, HeadCommit and Dirty.
pub mod Count
use jconfig.Prelude.{
  ℕ, zero, suc, ◌+◌, ◌-◌, ◌*◌, ◌/◌, ◌%◌, ◌≤◌, ◌<◌, Bool, true, false, not, ◌&&◌, ◌||◌, List, [],
  ◌∷◌, ◌++◌, map, ◌≡◌, ◌≢◌, ◌↔◌, ◌⊎◌, inl, inr, refl, sym, ap, ◌∙◌, Option, none, some, is_some,
  arith, keep, any, all, All, all-append, All-append, All-map, length, take, drop, length-append,
  Equality, ◌==◌, nat_equality, list_equality, list_beq, text_eq, nat_beq, ltb, leb, Bool-cases,
  Option-cases, if◌then◌else◌,
}
use jconfig.Prelude.Answer.{Answer, good, bad}
use jconfig.Prelude.Time.{Time, zero_time}
use jconfig.Strings.Format.{explain}
use jconfig.Strings.Basic.{Text, codes}
use jconfig.Config.Types.{Repo}
use jconfig.Config.Host.{Host}
use jconfig.Store.Api.{StoreApi}
use jconfig.Store.Commit.{commit}
use jconfig.Store.Git.{
  GitError, Got, found, missed, Ref, Auth, CommitObject, Walk, walk_end, walk_fault, commit_then,
  Git, is_reference_not_found, is_empty_remote,
}
use jconfig.Store.Auth.{remote_auth}
use jconfig.Store.Remote.{ensure_remote, push}

abbrev pub max_ahead_walk : ℕ
max_ahead_walk = 100_000

-- The loop of countFrom, with the commits counted so far.
unfoldable pub count_commits : Text → ℕ → Walk → Answer ℕ
count_commits stop n walk_end = good n
count_commits stop n (walk_fault e) = bad (explain (codes "walk history") e)
count_commits stop n (commit_then hash walk) =
    let rest = count_commits stop (n + 1) walk in
    if hash == stop then good n else if leb max_ahead_walk (n + 1) then good (n + 1) else rest

abbrev pub counted : Text → Answer Walk → Answer ℕ
counted stop (bad e) = bad (explain (codes "walk history") e)
counted stop (good walk) = count_commits stop 0 walk

-- The loop over the remote's references: the hash of the first one with the branch's name.
unfoldable pub hash_of : Text → Text → List Ref → Text
hash_of zero_hash target [] = zero_hash
hash_of zero_hash target (r ∷ refs) =
    if r.name == target then r.hash else hash_of zero_hash target refs

module _ {S : Type 0} (host : Host) (git : Git S) (cfg : Repo) where
  -- countFrom
  unfoldable pub count_from : S → Text → Text → Answer ℕ
  unfolding count_commits
  count_from s start stop = counted stop (git.log_from s start)

  abbrev pub ahead_of : S → Text → Got (List Ref) → Answer ℕ
  ahead_of s local (missed e) =
      if is_empty_remote e.kind
      then count_from s local git.zero_hash
      else bad (explain (codes "list remote " ++ cfg.push.remote) e.text)
  ahead_of s local (found refs) =
      let remote_hash = hash_of git.zero_hash (git.branch_ref cfg.push.branch) refs in
      if remote_hash == local then good 0 else count_from s local remote_hash

  abbrev pub listed : S → Text → Answer Auth → Answer ℕ
  listed s local (bad e) = bad e
  listed s local (good auth) =
      ahead_of s local (git.list_refs s cfg.push.remote auth cfg.push.timeout)

  abbrev pub on_remote : Text → Option Text × S → Answer ℕ × S
  on_remote local (some e, s) = (bad e, s)
  on_remote local (none, s) = (listed s local (remote_auth host git.transports cfg.push), s)

  abbrev pub on_local : S → Got Text → Answer ℕ × S
  on_local s (missed e) =
      if is_reference_not_found e.kind
      then (good 0, s)
      else (bad (explain (codes "read local branch") e.text), s)
  on_local s (found local) = on_remote local (ensure_remote host git cfg s)

  -- Unpushed
  unfoldable pub unpushed : S → Answer ℕ × S
  unfolding ensure_remote remote_auth count_from hash_of
  unpushed s =
      if cfg.push.enabled
      then on_local s (git.reference s (git.branch_ref cfg.branch))
      else (good 0, s)

  abbrev pub commit_of : Answer CommitObject → Answer (Time × Text)
  commit_of (bad e) = bad (explain (codes "read commit") e)
  commit_of (good c) = good (c.when, c.hash)

  abbrev pub head_of : S → Got Ref → Answer (Time × Text)
  head_of s (missed e) =
      if is_reference_not_found e.kind
      then good (zero_time, [])
      else bad (explain (codes "read HEAD") e.text)
  head_of s (found head) = commit_of (git.commit_object s head.hash)

  -- HeadCommit
  unfoldable pub head_commit : S → Answer (Time × Text)
  head_commit s = head_of s (git.head s)

  abbrev pub clean_negated : Answer Bool → Answer Bool
  clean_negated (bad e) = bad (explain (codes "git status") e)
  clean_negated (good clean) = good (not clean)

  abbrev pub on_open : S → Option Text → Answer Bool
  on_open s (some e) = bad (explain (codes "worktree") e)
  on_open s none = clean_negated (git.status_clean s)

  -- Dirty
  unfoldable pub dirty : S → Answer Bool
  dirty s = on_open s (git.worktree.open_error s)

  -- The repository as the runner uses it.
  unfoldable pub git_store : StoreApi S
  unfolding commit head_commit dirty push unpushed
  git_store = record {
    commit = commit git.worktree cfg;
    head_commit = head_commit;
    dirty = dirty;
    push = push host git cfg;
    unpushed = unpushed;
  }
