-- ===== src/Tests/GitTests.antt =====
-- internal/store: a repository whose state is the remote's url, and a remote one commit behind.
use jconfig.Prelude.{
  Bool, true, false, List, [], ◌∷◌, ◌++◌, ◌≡◌, inl, refl, ap, Option, none, some, any, all, length,
  nat_equality, list_equality, list_beq,
}
use jconfig.Prelude.Int.{pos}
use jconfig.Prelude.Answer.{good, bad}
use jconfig.Strings.Basic.{Text, codes}
use jconfig.Config.Types.{Repo, clone_on_init}
use jconfig.Store.Commit.{absent, Worktree}
use jconfig.Store.Git.{
  GitError, remote_not_found, unclassified, repository_not_exists, Got, found, missed, Auth,
  basic_auth, Transports, Walk, walk_end, commit_then, Git,
}
use jconfig.Store.Auth.{remote_auth}
use jconfig.Store.Open.{open_store}
use jconfig.Store.Open.Careful.{with_other, open_store-careful}
use jconfig.Store.Remote.{ensure_remote, push}
use jconfig.Store.Remote.Pushed.{IsPointed, IsPushed, push-IsPushed}
use jconfig.Store.Remote.RefSpec.{spec_forced}
use jconfig.Store.Ahead.{max_ahead_walk, hash_of, unpushed}
use jconfig.Store.Ahead.Count.{IsWalked, at_most, remote_tip, intact, unpushed-at_most}
use jconfig.Tests.Samples.{repo}
use jconfig.Tests.ConfigTests.{host}

-- The url of the push remote, and whether a branch was pushed.
record Remote : Type 0 where
  url : Option Text
  sent : Bool

abbrev worktree : Worktree Remote
worktree = record {
  open_error = λ s. none;
  make_dirs = λ s path. (none, s);
  read_file = λ s path. absent;
  write_file = λ s path content. (none, s);
  add = λ s rel. (none, s);
  staged = λ s. good (λ rel. false);
  git_commit = λ s message signature. (bad (codes "read-only"), s);
  now = λ s. pos 0;
}

abbrev failure : Text → GitError
failure text = record { kind = unclassified; text = text }

abbrev urls_of : Option Text → Got (List Text)
urls_of none = missed (record { kind = remote_not_found; text = codes "remote not found" })
urls_of (some url) = found (url ∷ [])

abbrev transports : Transports
transports = record {
  new_endpoint = λ url. good (record { protocol = codes "https"; user = [] });
  new_public_keys = λ user pem pass. none;
  new_public_keys_from_file = λ user path pass. none;
  new_known_hosts_callback = λ path. none;
}

abbrev branch_ref : Text → Text
branch_ref name = codes "refs/heads/" ++ name

-- The branch is two commits long; the remote has the older one.
abbrev history : Walk
history = commit_then (codes "new") (commit_then (codes "old") walk_end)

abbrev git : Git Remote
git = record {
  worktree = worktree;
  transports = transports;
  branch_ref = branch_ref;
  read_dir = λ s path. good (codes "lost+found" ∷ codes "notes" ∷ []);
  remove_all = λ s path. (none, s);
  plain_open =
      λ s path. some (record { kind = repository_not_exists; text = codes "no repository" });
  plain_init = λ s path branch. (none, s);
  plain_clone = λ s path options. (none, s);
  head = λ s. found (record { name = branch_ref repo.branch; hash = codes "new" });
  reference = λ s name. found (codes "new");
  point_head = λ s branch. (none, s);
  checkout = λ s options. (none, s);
  remote = λ s name. urls_of s.url;
  create_remote = λ s name url. (none, record s { url = some url });
  delete_remote = λ s name. (none, record s { url = none });
  push_refs = λ s options. (none, record s { sent = true });
  list_refs = λ s name auth timeout.
      found (record { name = branch_ref repo.push.branch; hash = codes "old" } ∷ []);
  log_from = λ s hash. good history;
  commit_object = λ s hash. good (record { when = pos 0; hash = hash });
  status_clean = λ s. good true;
  zero_hash = codes "0000";
}

abbrev mirrored : Repo
mirrored = record repo {
  push = record repo.push {
    enabled = true;
    url = codes "https://git/backups";
    password = codes "token";
  };
}

abbrev stale : Remote
stale = record { url = some (codes "https://old/backups"); sent = false }

abbrev pointed : Remote
pointed = record { url = some (codes "https://git/backups"); sent = false }

abbrev basic : Auth
basic = basic_auth (codes "git") (codes "token")

ensure_remote_runs : ensure_remote host git mirrored stale ≡ (none, pointed)
unfolding ensure_remote codes list_beq
ensure_remote_runs = refl

remote_auth_runs : remote_auth host transports mirrored.push ≡ good basic
unfolding remote_auth codes list_beq
remote_auth_runs = refl

unpushed_runs : unpushed host git mirrored stale ≡ (good 1, pointed)
unfolding codes list_beq hash_of unpushed ensure_remote remote_auth
unpushed_runs = refl

unpushed-at_most_example :
    (hashes : List Text) × IsWalked
      (remote_tip host git mirrored
        (record { name = branch_ref repo.push.branch; hash = codes "old" } ∷ []))
      history
      hashes
    × (unpushed host git mirrored stale ≡ (good (at_most max_ahead_walk (length hashes)), pointed))
unpushed-at_most_example =
    unpushed-at_most host git mirrored stale pointed (codes "new") basic
      (record { name = branch_ref repo.push.branch; hash = codes "old" } ∷ []) history refl refl
      ensure_remote_runs remote_auth_runs (inl refl) refl (commit_then (codes "old") walk_end, refl)
      (unfold intact codes list_beq hash_of in refl)

push_runs : push host git mirrored stale ≡ (good true, record pointed { sent = true })
unfolding push ensure_remote remote_auth codes list_beq
push_runs = refl

push-IsPushed_example :
    (p : IsPushed host git mirrored stale (record pointed { sent = true }) true) × IsPointed host
      git mirrored p.ready
push-IsPushed_example =
    push-IsPushed host git mirrored stale (record pointed { sent = true }) true
      (λ s s' name url h. rw (← (ap (λ r. r.1) h)) refl)
      (record { no_colon = unfold all codes in refl; no_plus = unfold spec_forced codes in refl })
      refl push_runs

open_store-careful_example :
    open_store host git mirrored stale
    ≡ open_store host
        (with_other git
          (λ s path options. (some (failure (codes "no")), pointed))
          (λ s path. (none, pointed)))
        mirrored
        stale
open_store-careful_example =
    open_store-careful host git mirrored (λ s path options. (some (failure (codes "no")), pointed))
      (λ s path. (none, pointed)) stale (codes "lost+found" ∷ codes "notes" ∷ []) refl
      (unfold any codes list_beq in refl)

-- The directory of another program is refused.
open_runs : open_store host git mirrored stale ≡ (
  some (repo.path ++ codes " is not empty and is not a git repository; refusing to clone over it"),
  stale,
)
unfolding open_store clone_on_init codes list_beq
open_runs = refl
