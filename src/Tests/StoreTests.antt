-- ===== src/Tests/StoreTests.antt =====
-- internal/store: two commits of the same files, and the theorem at the first.
use jconfig.Prelude.{
  ℕ, ◌+◌, true, false, not, [], ◌∷◌, ◌++◌, ◌≡◌, refl, Option, none, some, ◌==◌, nat_equality,
  list_equality, list_beq,
}
use jconfig.Prelude.Dict.{Dict, get, put}
use jconfig.Prelude.Int.{pos}
use jconfig.Prelude.Answer.{good}
use jconfig.Strings.Basic.{Text, codes}
use jconfig.Store.Api.{CommitRequest, CommitResult}
use jconfig.Store.Commit.{FileRead, absent, file, Worktree, commit}
use jconfig.Store.Outcome.{IsCommitted, commit-IsCommitted}
use jconfig.Tests.Samples.{repo}

-- Files by their paths, and what is staged and committed by paths in the repository.
record Disk : Type 0 where
  files : Dict Text Text
  staged : Dict Text Text
  head : Dict Text Text
  commits : ℕ

abbrev text_of : Option Text → Text
text_of none = []
text_of (some s) = s

abbrev read_of : Option Text → FileRead
read_of none = absent
read_of (some s) = file s

abbrev git : Worktree Disk
git = record {
  open_error = λ s. none;
  make_dirs = λ s path. (none, s);
  read_file = λ s path. read_of (get path s.files);
  write_file = λ s path content. (none, record s { files = put path content s.files });
  add = λ s rel. (
    none,
    record s {
      staged = put rel (text_of (get (repo.path ++ (codes "/" ++ rel)) s.files)) s.staged;
    },
  );
  staged = λ s. good (λ rel. not (text_of (get rel s.staged) == text_of (get rel s.head)));
  git_commit = λ s message signature.
      (good (codes "abc"), record s { head = s.staged; commits = s.commits + 1 });
  now = λ s. pos 0;
}

abbrev request : CommitRequest
request = record {
  device = codes "mx1";
  files = (codes "mx1.conf", codes "system {\n}\n") ∷ [];
  text = codes "mx1: configuration changed";
  at_time = pos 7;
}

abbrev empty : Disk
empty = record { files = []; staged = []; head = []; commits = 0 }

abbrev report : CommitResult
report = record { changed = true; hash = codes "abc"; files = codes "mx1.conf" ∷ [] }

abbrev first : Disk
first = (commit git repo empty request).1

commit_runs : commit git repo empty request ≡ (good report, first)
unfolding commit get put codes list_beq
commit_runs = refl

commits_once :
    (first.commits ≡ 1)
    × ((commit git repo first request).0 ≡ good (record { changed = false; hash = []; files = [] }))
    × ((commit git repo first request).1.commits ≡ 1)
unfolding commit get put codes list_beq
commits_once = (refl, refl, refl)

commit-IsCommitted_example : IsCommitted git repo request empty first report
commit-IsCommitted_example = commit-IsCommitted git repo request empty first report commit_runs
