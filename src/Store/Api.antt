-- ===== src/Store/Api.antt =====
-- internal/store/git.go: the requests and results of the repository, and its operations as the
-- runner calls them.
use jconfig.Prelude.{ℕ, Bool, List}
use jconfig.Prelude.Answer.{Answer}
use jconfig.Prelude.Dict.{Dict}
use jconfig.Prelude.Time.{Time}
use jconfig.Strings.Basic.{Text}

-- `files` maps a path in the repository to a content.
pub record CommitRequest : Type 0 where
  pub device : Text
  pub files : Dict Text Text
  pub text : Text
  pub at_time : Time

pub record CommitResult : Type 0 where
  pub changed : Bool
  pub hash : Text
  pub files : List Text

-- The repository's operations over its state. Push and Unpushed contact the remote.
pub record StoreApi (S : Type 0) : Type 0 where
  pub commit : S → CommitRequest → Answer CommitResult × S
  pub head_commit : S → Answer (Time × Text)
  pub dirty : S → Answer Bool
  pub push : S → Answer Bool × S
  pub unpushed : S → Answer ℕ × S
