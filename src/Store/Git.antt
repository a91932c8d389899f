-- ===== src/Store/Git.antt =====
-- internal/store/git.go: what the store asks of go-git, of the disk and of the credentials' library.
-- They are parameters, as operations on a state; the errors that the code tells apart are data.
use jconfig.Prelude.{Bool, true, false, List, Option, nat_equality, list_equality}
use jconfig.Prelude.Answer.{Answer}
use jconfig.Prelude.Time.{Time, Duration}
use jconfig.Strings.Basic.{Text}
use jconfig.Store.Commit.{Worktree}

-- The errors that errors.Is looks for, and all the others.
pub data GitErrorKind : Type 0 where
  repository_not_exists reference_not_found remote_not_found : GitErrorKind
  empty_remote no_matching_ref_spec already_up_to_date : GitErrorKind
  unclassified : GitErrorKind

pub record GitError : Type 0 where
  pub kind : GitErrorKind
  pub text : Text

-- A result of go-git with its error.
pub data Got {ℓ} (A : Type ℓ) : Type ℓ where
  found : A → Got A
  missed : GitError → Got A

pub record Ref : Type 0 where
  pub name : Text
  pub hash : Text

-- How the server's host key is checked.
pub data HostKeyCheck : Type 0 where
  default_check ignore_host_key : HostKeyCheck
  known_hosts_file : Text → HostKeyCheck

-- The credentials of a push: none, or how they were made.
pub data Auth : Type 0 where
  no_auth : Auth
  basic_auth : Text → Text → Auth
  key_auth : Text → Text → Text → HostKeyCheck → Auth
  key_file_auth : Text → Text → Text → HostKeyCheck → Auth

pub record Endpoint : Type 0 where
  pub protocol : Text
  pub user : Text

-- go-git's transports. An operation that only fails or succeeds returns its error's text.
pub record Transports : Type 0 where
  pub new_endpoint : Text → Answer Endpoint
  pub new_public_keys : Text → Text → Text → Option Text
  pub new_public_keys_from_file : Text → Text → Text → Option Text
  pub new_known_hosts_callback : Text → Option Text

pub record CloneOptions : Type 0 where
  pub url : Text
  pub auth : Auth
  pub remote_name : Text
  pub reference_name : Text
  pub timeout : Duration

pub record CheckoutOptions : Type 0 where
  pub branch : Text
  pub create : Bool
  pub keep_changes : Bool

pub record PushOptions : Type 0 where
  pub remote_name : Text
  pub ref_spec : Text
  pub auth : Auth
  pub force : Bool
  pub timeout : Duration

pub record CommitObject : Type 0 where
  pub when : Time
  pub hash : Text

-- The history from a commit on, as ForEach goes through it.
pub data Walk : Type 0 where
  walk_end : Walk
  walk_fault : Text → Walk
  commit_then : Text → Walk → Walk

pub record Git (S : Type 0) : Type 0 where
  pub worktree : Worktree S
  pub transports : Transports
  pub branch_ref : Text → Text
  pub read_dir : S → Text → Answer (List Text)
  pub remove_all : S → Text → Option Text × S
  pub plain_open : S → Text → Option GitError
  pub plain_init : S → Text → Text → Option Text × S
  pub plain_clone : S → Text → CloneOptions → Option GitError × S
  pub head : S → Got Ref
  pub reference : S → Text → Got Text
  pub point_head : S → Text → Option Text × S
  pub checkout : S → CheckoutOptions → Option Text × S
  pub remote : S → Text → Got (List Text)
  pub create_remote : S → Text → Text → Option Text × S
  pub delete_remote : S → Text → Option Text × S
  pub push_refs : S → PushOptions → Option GitError × S
  pub list_refs : S → Text → Auth → Duration → Got (List Ref)
  pub log_from : S → Text → Answer Walk
  pub commit_object : S → Text → Answer CommitObject
  pub status_clean : S → Answer Bool
  pub zero_hash : Text

abbrev pub is_reference_not_found : GitErrorKind → Bool
is_reference_not_found reference_not_found = true
is_reference_not_found _ = false

abbrev pub is_repository_not_exists : GitErrorKind → Bool
is_repository_not_exists repository_not_exists = true
is_repository_not_exists _ = false

abbrev pub is_remote_not_found : GitErrorKind → Bool
is_remote_not_found remote_not_found = true
is_remote_not_found _ = false

abbrev pub is_empty_remote : GitErrorKind → Bool
is_empty_remote empty_remote = true
is_empty_remote _ = false

abbrev pub is_up_to_date : GitErrorKind → Bool
is_up_to_date already_up_to_date = true
is_up_to_date _ = false
