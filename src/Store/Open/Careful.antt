-- ===== src/Store/Open/Careful.antt =====
-- internal/store/git.go: Open on a directory that holds something else than a repository.
use jconfig.Prelude.{
  true, not, List, [], ◌∷◌, ◌≡◌, inl, inr, refl, Option, none, some, any, ◌==◌, nat_equality,
  list_equality, Bool-cases,
}
use jconfig.Prelude.Answer.{good}
use jconfig.Strings.Basic.{Text}
use jconfig.Config.Types.{Repo}
use jconfig.Config.Host.{Host}
use jconfig.Store.Git.{GitError, CloneOptions, Git, is_repository_not_exists}
use jconfig.Store.Open.{
  Done, lost_found, only_lost_found, require_empty_dir, create_repo, opened, created, ensure_branch,
  made_dirs, open_store,
}

-- Some entry of the directory is not lost+found.
abbrev pub HasFiles : List Text → Type 0
HasFiles entries = any (λ e. not (e == lost_found)) entries ≡ true

only_lost_found-HasFiles :
    (path : Text) (entries : List Text)
    → HasFiles entries
    → (e : Text) × (only_lost_found path entries ≡ some e)
unfolding only_lost_found any
only_lost_found-HasFiles path [] h = absurd cc
only_lost_found-HasFiles path (e ∷ entries) h = elim (Bool-cases (e == lost_found)) [
  | inl same ↦ rw same (only_lost_found-HasFiles path entries (rw same at h))
  | inr other ↦ rw other (_, refl)
]

-- The same git with any other way of cloning and of removing.
abbrev pub with_other :
    {S : Type 0}
    → Git S
    → (S → Text → CloneOptions → Option GitError × S)
    → (S → Text → Option Text × S)
    → Git S
with_other git clone remove = record git { plain_clone = clone; remove_all = remove }

module _ {S : Type 0} (host : Host) (git : Git S) (cfg : Repo)
    (clone : S → Text → CloneOptions → Option GitError × S)
    (remove : S → Text → Option Text × S) where
  create_repo-alike :
      (branch : Text) (s : S) (entries : List Text)
      → git.read_dir s cfg.path ≡ good entries
      → HasFiles entries
      → create_repo host git cfg branch s
        ≡ create_repo host (with_other git clone remove) cfg branch s
  unfolding create_repo require_empty_dir
  create_repo-alike branch s entries listed h =
      let (e, refused) = only_lost_found-HasFiles cfg.path entries h in rw (listed, refused) refl

  created-alike :
      (branch : Text) (o : Done S)
      → created host git cfg branch o ≡ created host (with_other git clone remove) cfg branch o
  unfolding ensure_branch
  created-alike branch (some e, s) = refl
  created-alike branch (none, s) = refl

  opened-alike :
      (branch : Text) (s : S) (entries : List Text) (o : Option GitError)
      → git.read_dir s cfg.path ≡ good entries
      → HasFiles entries
      → opened host git cfg branch s o ≡ opened host (with_other git clone remove) cfg branch s o
  unfolding ensure_branch
  opened-alike branch s entries none listed h = refl
  opened-alike branch s entries (some e) listed h =
      elim (Bool-cases (is_repository_not_exists e.kind)) [
        | inl new ↦ rw (new, create_repo-alike branch s entries listed h) (created-alike branch _)
        | inr old ↦ rw old refl
      ]

  made_dirs-alike :
      (o : Done S) (entries : List Text)
      → git.read_dir o.1 cfg.path ≡ good entries
      → HasFiles entries
      → made_dirs host git cfg o ≡ made_dirs host (with_other git clone remove) cfg o
  made_dirs-alike (some e, s) entries listed h = refl
  made_dirs-alike (none, s) entries listed h =
      opened-alike (git.branch_ref cfg.branch) s entries (git.plain_open s cfg.path) listed h

  -- If the repository's directory holds anything but lost+found once it is made, then Open does and
  -- returns the same whatever cloning and removing files would do: it uses neither of them.
  pub open_store-careful :
      (s : S) (entries : List Text)
      → git.read_dir (git.worktree.make_dirs s cfg.path).1 cfg.path ≡ good entries
      → HasFiles entries
      → open_store host git cfg s ≡ open_store host (with_other git clone remove) cfg s
  unfolding open_store
  open_store-careful s entries listed h = elim (Bool-cases (cfg.path == [])) [
    | inl empty ↦ rw empty refl
    | inr named ↦ rw named (made_dirs-alike (git.worktree.make_dirs s cfg.path) entries listed h)
  ]
