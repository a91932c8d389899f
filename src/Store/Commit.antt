-- ===== src/Store/Commit.antt =====
-- internal/store/git.go: Commit. The file system and go-git's worktree are a record of operations on
-- a state; the lock makes a commit one step.
use jconfig.Prelude.{
  Bool, true, false, not, ◌&&◌, List, [], ◌∷◌, ◌++◌, Option, none, some, reverse_onto, ◌==◌,
  nat_equality, list_equality, if◌then◌else◌,
}
use jconfig.Prelude.Dict.{Dict}
use jconfig.Prelude.Answer.{Answer, good, bad}
use jconfig.Prelude.Time.{Time, is_zero}
use jconfig.Strings.Basic.{Text, codes}
use jconfig.Strings.Clean.{clean, join_path}
use jconfig.Config.Types.{Repo}
use jconfig.Store.Api.{CommitRequest, CommitResult}

-- What os.ReadFile finds.
pub data FileRead : Type 0 where
  absent : FileRead
  file : Text → FileRead
  unreadable : Text → FileRead

pub record Signature : Type 0 where
  pub name : Text
  pub email : Text
  pub at_time : Time

-- An operation that can fail returns its error's text. `staged` tells, by path, whether the
-- worktree's status has a staged change.
pub record Worktree (S : Type 0) : Type 0 where
  pub open_error : S → Option Text
  pub make_dirs : S → Text → Option Text × S
  pub read_file : S → Text → FileRead
  pub write_file : S → Text → Text → Option Text × S
  pub add : S → Text → Option Text × S
  pub staged : S → Answer (Text → Bool)
  pub git_commit : S → Text → Signature → Answer Text × S
  pub now : S → Time

-- filepath.Dir: what stands before the last slash, cleaned
abbrev pub drop_name : Text → Text
drop_name [] = []
drop_name (c ∷ s) = if c == b'/' then c ∷ s else drop_name s

unfoldable pub dir : Text → Text
unfolding clean
dir p = clean (reverse_onto (drop_name (reverse_onto p [])) [])

abbrev pub note_file : Bool → Text → List Text → List Text
note_file true rel files = files ++ (rel ∷ [])
note_file false rel files = files

-- stagedClean
unfoldable pub staged_clean : (Text → Bool) → Dict Text Text → Bool
staged_clean staged [] = true
staged_clean staged ((rel, content) ∷ files) = not (staged rel) && staged_clean staged files

module _ {S : Type 0} (git : Worktree S) (cfg : Repo) where
  abbrev pub after_write : Text → Option Text × S → Answer Bool × S
  after_write path (some e, s) = (bad (codes "write " ++ (path ++ (codes ": " ++ e))), s)
  after_write path (none, s) = (good true, s)

  abbrev pub compared : Text → Text → FileRead → S → Answer Bool × S
  compared path content (file old) s =
      if old == content then (good false, s) else after_write path (git.write_file s path content)
  compared path content absent s = after_write path (git.write_file s path content)
  compared path content (unreadable e) s = (bad (codes "read " ++ (path ++ (codes ": " ++ e))), s)

  abbrev pub after_dirs : Text → Text → Option Text × S → Answer Bool × S
  after_dirs path content (some e, s) =
      (bad (codes "create dir for " ++ (path ++ (codes ": " ++ e))), s)
  after_dirs path content (none, s) = compared path content (git.read_file s path) s

  unfoldable pub write_if_changed : Text → Text → S → Answer Bool × S
  unfolding dir
  write_if_changed path content s = after_dirs path content (git.make_dirs s (dir path))

  -- One round of the loop: the file is written if it changed and added in any case.
  abbrev pub after_add : Text → Bool → List Text → Option Text × S → Answer (List Text) × S
  after_add rel changed files (some e, s) =
      (bad (codes "git add " ++ (rel ++ (codes ": " ++ e))), s)
  after_add rel changed files (none, s) = (good (note_file changed rel files), s)

  abbrev pub added : Text → List Text → Answer Bool × S → Answer (List Text) × S
  added rel files (bad e, s) = (bad e, s)
  added rel files (good changed, s) = after_add rel changed files (git.add s rel)

  unfoldable pub put_file : Text → Text → List Text → S → Answer (List Text) × S
  unfolding write_if_changed join_path
  put_file rel content files s =
      added rel files (write_if_changed (join_path (cfg.path ∷ rel ∷ [])) content s)

  -- The loop over the request's files, with the files that changed so far.
  unfoldable pub put_files : Dict Text Text → List Text → S → Answer (List Text) × S
  unfolding put_file
  put_files [] files s = (good files, s)
  put_files ((rel, content) ∷ rest) files s = elim (put_file rel content files s).0 [
    | bad e ↦ (bad e, (put_file rel content files s).1)
    | good files' ↦ put_files rest files' (put_file rel content files s).1
  ]

  abbrev pub result : Bool → Text → List Text → CommitResult
  result changed hash files = record { changed = changed; hash = hash; files = files }

  abbrev pub after_commit : List Text → Answer Text × S → Answer CommitResult × S
  after_commit files (bad e, s) = (bad (codes "git commit: " ++ e), s)
  after_commit files (good hash, s) = (good (result true hash files), s)

  abbrev pub signature : CommitRequest → S → Signature
  signature req s = record {
    name = cfg.author_name;
    email = cfg.author_email;
    at_time = (if is_zero req.at_time then git.now s else req.at_time);
  }

  abbrev pub after_status :
      CommitRequest → List Text → S → Answer (Text → Bool) → Answer CommitResult × S
  after_status req files s (bad e) = (bad (codes "git status: " ++ e), s)
  after_status req files s (good staged) =
      if staged_clean staged req.files
      then (good (result false [] files), s)
      else after_commit files (git.git_commit s req.text (signature req s))

  abbrev pub after_files : CommitRequest → Answer (List Text) × S → Answer CommitResult × S
  after_files req (bad e, s) = (bad e, s)
  after_files req (good files, s) = after_status req files s (git.staged s)

  abbrev pub on_worktree : CommitRequest → S → Option Text → Answer CommitResult × S
  on_worktree req s (some e) = (bad (codes "worktree: " ++ e), s)
  on_worktree req s none = after_files req (put_files req.files [] s)

  -- Commit
  unfoldable pub commit : S → CommitRequest → Answer CommitResult × S
  unfolding put_files staged_clean
  commit s req = on_worktree req s (git.open_error s)
