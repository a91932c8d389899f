-- ===== src/Store/Open.antt =====
-- internal/store/git.go: Open, which opens the repository, or clones or initialises it first.
pub mod Careful
use jconfig.Prelude.{
  ℕ, zero, suc, ◌+◌, ◌-◌, ◌*◌, ◌/◌, ◌%◌, ◌≤◌, ◌<◌, Bool, true, false, not, ◌&&◌, ◌||◌, List, [],
  ◌∷◌, ◌++◌, map, ◌≡◌, ◌≢◌, ◌↔◌, ◌⊎◌, inl, inr, refl, sym, ap, ◌∙◌, Option, none, some, is_some,
  arith, keep, any, all, All, all-append, All-append, All-map, length, take, drop, length-append,
  Equality, ◌==◌, nat_equality, list_equality, list_beq, text_eq, nat_beq, ltb, leb, Bool-cases,
  Option-cases, if◌then◌else◌,
}
use jconfig.Prelude.Answer.{Answer, good, bad}
use jconfig.Prelude.Int.{ℤ, pos, leb_ℤ}
use jconfig.Strings.Format.{explain}
use jconfig.Strings.Basic.{Text, codes, contains}
use jconfig.Strings.Clean.{join_path}
use jconfig.Config.Types.{Duration, second, Push, Repo, clone_on_init}
use jconfig.Config.Host.{Host}
use jconfig.Store.Git.{
  GitErrorKind, reference_not_found, empty_remote, no_matching_ref_spec, GitError, Got, found,
  missed, Ref, Auth, CloneOptions, CheckoutOptions, Git, is_reference_not_found,
  is_repository_not_exists,
}
use jconfig.Store.Auth.{remote_auth}

-- An operation's error, if it failed, and the state it left.
abbrev pub Done : Type 0 → Type 0
Done S = Option Text × S

abbrev pub explained : Text → Text → Option Text
explained what e = some (explain what e)

-- The classes that isRemoteEmpty accepts.
abbrev pub empty_kind : GitErrorKind → Bool
empty_kind empty_remote = true
empty_kind reference_not_found = true
empty_kind no_matching_ref_spec = true
empty_kind _ = false

-- isRemoteEmpty
unfoldable pub is_remote_empty : GitError → Bool
unfolding contains
is_remote_empty e =
    empty_kind e.kind
    || contains (codes "remote repository is empty") e.text
    || contains (codes "couldn't find remote ref") e.text

abbrev pub lost_found : Text
lost_found = codes "lost+found"

-- The loop of requireEmptyDir: its error for the first entry that is not lost+found.
unfoldable pub only_lost_found : Text → List Text → Option Text
only_lost_found path [] = none
only_lost_found path (e ∷ entries) =
    if e == lost_found
    then only_lost_found path entries
    else some (path ++ codes " is not empty and is not a git repository; refusing to clone over it")

abbrev pub clone_timeout : Push → Duration
clone_timeout p = if leb_ℤ p.timeout (pos 0) then pos (120 * second) else p.timeout

module _ {S : Type 0} (host : Host) (git : Git S) (cfg : Repo) where
  abbrev pub directory_empty : Text → Answer (List Text) → Option Text
  directory_empty path (bad e) = explained (codes "read " ++ path) e
  directory_empty path (good entries) = only_lost_found path entries

  -- requireEmptyDir
  unfoldable pub require_empty_dir : S → Text → Option Text
  unfolding only_lost_found
  require_empty_dir s path = directory_empty path (git.read_dir s path)

  -- The loop of clearDir.
  unfoldable pub clear_entries : Text → List Text → S → Done S
  unfolding join_path
  clear_entries path [] s = (none, s)
  clear_entries path (e ∷ entries) s = elim (e == lost_found) [
    | true ↦ clear_entries path entries s
    | false ↦ elim (git.remove_all s (join_path (path ∷ e ∷ []))).0 [
      | some x ↦
          (explained (codes "clean " ++ path) x, (git.remove_all s (join_path (path ∷ e ∷ []))).1)
      | none ↦ clear_entries path entries (git.remove_all s (join_path (path ∷ e ∷ []))).1
    ]
  ]

  abbrev pub clear_listed : Text → S → Answer (List Text) → Done S
  clear_listed path s (bad e) = (explained (codes "read " ++ path) e, s)
  clear_listed path s (good entries) = clear_entries path entries s

  -- clearDir
  unfoldable pub clear_dir : S → Text → Done S
  unfolding clear_entries
  clear_dir s path = clear_listed path s (git.read_dir s path)

  abbrev pub after_init : Done S → Done S
  after_init (some e, s) = (explained (codes "init repo " ++ cfg.path) e, s)
  after_init (none, s) = (none, s)

  abbrev pub init_fresh : Text → S → Done S
  init_fresh branch s = after_init (git.plain_init s cfg.path branch)

  abbrev pub init_cleared : Text → Done S → Done S
  init_cleared branch (some e, s) = (some e, s)
  init_cleared branch (none, s) = init_fresh branch s

  -- What becomes of the clone.
  abbrev pub after_clone : Text → Option GitError × S → Done S
  after_clone branch (none, s) = (none, s)
  after_clone branch (some e, s) =
      if is_remote_empty e then init_cleared branch (clear_dir s cfg.path) else (
        some (
            codes "clone "
            ++ (cfg.push.url
                ++ (codes ": "
                    ++ (e.text
                        ++ codes
                            " (set repo.clone_on_init: false to start a local repository instead)")))),
        s,
      )

  abbrev pub clone_options : Auth → CloneOptions
  clone_options auth = record {
    url = cfg.push.url;
    auth = auth;
    remote_name = cfg.push.remote;
    reference_name = git.branch_ref cfg.push.branch;
    timeout = clone_timeout cfg.push;
  }

  abbrev pub clone_with : Text → S → Answer Auth → Done S
  clone_with branch s (bad e) = (some e, s)
  clone_with branch s (good auth) =
      after_clone branch (git.plain_clone s cfg.path (clone_options auth))

  abbrev pub clone_into : Text → S → Option Text → Done S
  clone_into branch s (some e) = (some e, s)
  clone_into branch s none = clone_with branch s (remote_auth host git.transports cfg.push)

  -- createRepo
  unfoldable pub create_repo : Text → S → Done S
  unfolding clone_on_init require_empty_dir remote_auth is_remote_empty clear_dir
  create_repo branch s =
      if not (clone_on_init cfg) || cfg.push.url == []
      then init_fresh branch s
      else clone_into branch s (require_empty_dir s cfg.path)

  abbrev pub after_checkout : Done S → Done S
  after_checkout (some e, s) = (explained (codes "checkout " ++ cfg.branch) e, s)
  after_checkout (none, s) = (none, s)

  -- The branch is created if looking it up says that there is none.
  abbrev pub creates : Got Text → Bool
  creates (found hash) = false
  creates (missed e) = is_reference_not_found e.kind

  abbrev pub on_worktree : Text → S → Option Text → Done S
  on_worktree branch s (some e) = (explained (codes "worktree") e, s)
  on_worktree branch s none = after_checkout (
      git.checkout s (record {
        branch = branch;
        create = creates (git.reference s branch);
        keep_changes = true;
      }))

  abbrev pub on_head : Text → S → Got Ref → Done S
  on_head branch s (missed e) =
      if is_reference_not_found e.kind
      then git.point_head s branch
      else (explained (codes "read HEAD") e.text, s)
  on_head branch s (found head) =
      if head.name == branch then (none, s) else on_worktree branch s (git.worktree.open_error s)

  -- ensureBranch
  unfoldable pub ensure_branch : Text → S → Done S
  ensure_branch branch s = on_head branch s (git.head s)

  abbrev pub created : Text → Done S → Done S
  created branch (some e, s) = (some e, s)
  created branch (none, s) = ensure_branch branch s

  abbrev pub opened : Text → S → Option GitError → Done S
  opened branch s none = ensure_branch branch s
  opened branch s (some e) =
      if is_repository_not_exists e.kind
      then created branch (create_repo branch s)
      else (explained (codes "open repo " ++ cfg.path) e.text, s)

  abbrev pub made_dirs : Done S → Done S
  made_dirs (some e, s) = (explained (codes "create repo dir") e, s)
  made_dirs (none, s) = opened (git.branch_ref cfg.branch) s (git.plain_open s cfg.path)

  -- Open
  unfoldable pub open_store : S → Done S
  unfolding create_repo ensure_branch
  open_store s =
      if cfg.path == []
      then (some (codes "repo.path is empty"), s)
      else made_dirs (git.worktree.make_dirs s cfg.path)
