-- ===== src/Store/Outcome.antt =====
-- internal/store/git.go: what a Commit that succeeds has done.
use jconfig.Prelude.{
  Bool, true, false, List, [], ◌∷◌, ◌≡◌, ◌≢◌, ◌⊎◌, inl, inr, refl, sym, Option, none, some, arith,
  any, All, nat_equality, list_equality, Bool-cases,
}
use mathlib.Core.Path.{subst}
use jconfig.Prelude.Answer.{Answer, good, bad}
use jconfig.Prelude.Int.{int_beq_iff, int_equality}
use jconfig.Prelude.Time.{Time, zero_time, is_zero}
use jconfig.Strings.Basic.{Text}
use jconfig.Config.Types.{Repo}
use jconfig.Store.Api.{CommitRequest, CommitResult}
use jconfig.Store.Commit
use jconfig.Store.Commit.{
  Signature, Worktree, staged_clean, put_files, result, after_commit, signature, after_status,
  on_worktree, commit,
}
use jconfig.Store.Placed.{PutAll, AllResult, put_files-AllResult}

staged_clean-All :
    (staged : Text → Bool) (files : List (Text × Text))
    → staged_clean staged files ≡ true
    → All (λ e. staged e.0 ≡ false) files
unfolding staged_clean
staged_clean-All staged [] h = tt
staged_clean-All staged ((rel, content) ∷ files) h =
    (ground arith, staged_clean-All staged files (ground arith))

staged_clean-any :
    (staged : Text → Bool) (files : List (Text × Text))
    → staged_clean staged files ≡ false
    → any (λ e. staged e.0) files ≡ true
unfolding staged_clean any
staged_clean-any staged [] h = absurd cc
staged_clean-any staged ((rel, content) ∷ files) h = ground (arith, staged_clean-any staged files)

-- The configured author, at the time of the request, or at `now` if the request has none.
pub record IsSigned (cfg : Repo) (req : CommitRequest) (now : Time) (sig : Signature) : Type 0 where
  pub name : sig.name ≡ cfg.author_name
  pub email : sig.email ≡ cfg.author_email
  pub stamped : req.at_time ≢ zero_time → sig.at_time ≡ req.at_time
  pub unstamped : req.at_time ≡ zero_time → sig.at_time ≡ now

module _ {S : Type 0} (git : Worktree S) (cfg : Repo) where
  -- All files were put in place and added, up to the state `after_files`. Then either the path of none
  -- is staged, and nothing else was done, or that of one is, and git made the commit whose hash is
  -- reported.
  pub record IsCommitted (req : CommitRequest) (before s' : S) (res : CommitResult) : Type 0 where
    pub after_files : S
    pub placed : PutAll git cfg req.files before res.files after_files
    pub staged : Text → Bool
    pub status : git.staged after_files ≡ good staged
    pub outcome :
        ((res.changed ≡ false)
          × (s' ≡ after_files)
          × (res.hash ≡ [])
          × All (λ e. staged e.0 ≡ false) req.files)
        ⊎ ((res.changed ≡ true)
            × (any (λ e. staged e.0) req.files ≡ true)
            × ((sig : Signature) × IsSigned cfg req (git.now after_files) sig
                × (git.git_commit after_files req.text sig ≡ (good res.hash, s'))))

  Done : CommitRequest → S → Answer CommitResult × S → Type 0
  Done req before (bad e, s') = Unit
  Done req before (good res, s') = IsCommitted req before s' res

  signature-IsSigned :
      (req : CommitRequest) (s : S) → IsSigned cfg req (git.now s) (signature git cfg req s)
  unfolding is_zero
  signature-IsSigned req s = record {
    name = refl;
    email = refl;
    stamped = λ h. elim (Bool-cases (is_zero req.at_time)) [
      | inl zero_at ↦ absurd (h ((int_beq_iff req.at_time zero_time).0 zero_at))
      | inr other ↦ rw other refl
    ];
    unstamped = λ e. rw ((int_beq_iff req.at_time zero_time).1 e) refl;
  }

  of_commit :
      (req : CommitRequest) (before s : S) (files : List Text) (staged : Text → Bool)
      → PutAll git cfg req.files before files s
      → git.staged s ≡ good staged
      → staged_clean staged req.files ≡ false
      → (o : Answer Text × S) → git.git_commit s req.text (signature git cfg req s) ≡ o
      → Done req before (after_commit git cfg files o)
  unfolding Done
  of_commit req before s files staged p q n (bad e, s') h = tt
  of_commit req before s files staged p q n (good hash, s') h = record {
    after_files = s;
    placed = p;
    staged = staged;
    status = q;
    outcome = inr (
      refl,
      staged_clean-any staged req.files n,
      (signature git cfg req s, signature-IsSigned req s, h),
    );
  }

  of_status :
      (req : CommitRequest) (before s : S) (files : List Text)
      → PutAll git cfg req.files before files s
      → (o : Answer (Text → Bool)) → git.staged s ≡ o
      → Done req before (after_status git cfg req files s o)
  unfolding Done
  of_status req before s files p (bad e) q = tt
  of_status req before s files p (good staged) q =
      elim (Bool-cases (staged_clean staged req.files)) [
        | inl c ↦ rw c (record {
          after_files = s;
          placed = p;
          staged = staged;
          status = q;
          outcome = inl (refl, refl, refl, staged_clean-All staged req.files c);
        })
        | inr n ↦ rw n (
            of_commit req before s files staged p q n
              (git.git_commit s req.text (signature git cfg req s)) refl)
      ]

  of_files :
      (req : CommitRequest) (before : S) (o : Answer (List Text) × S)
      → AllResult git cfg req.files [] before o
      → Done req before (Commit.after_files git cfg req o)
  unfolding Done
  of_files req before (bad e, s) p = tt
  of_files req before (good files, s) (names, same, placed) =
      of_status req before s files
        (subst (λ x. PutAll git cfg req.files before x s) (sym same) placed) (git.staged s) refl

  of_worktree :
      (req : CommitRequest) (before : S) (o : Option Text)
      → Done req before (on_worktree git cfg req before o)
  unfolding Done
  of_worktree req before (some e) = tt
  of_worktree req before none =
      of_files req before (put_files git cfg req.files [] before)
        (put_files-AllResult git cfg req.files [] before)

  IsCommitted-of :
      (req : CommitRequest) (before s' : S) (res : CommitResult) (o : Answer CommitResult × S)
      → Done req before o
      → o ≡ (good res, s')
      → IsCommitted req before s' res
  unfolding Done
  IsCommitted-of req before s' res o d h = rw h at d

  -- If Commit succeeds, then for every file of the request, in order, its directory was made, it was
  -- written unless it had the requested content already, and it was added; the written ones are
  -- reported. Then either the path of no file was staged, nothing else was done and no change is
  -- reported, or that of one was, and git made a commit with the request's message and the
  -- configured author, at the request's time or now, and its hash is reported.
  pub commit-IsCommitted :
      (req : CommitRequest) (before s' : S) (res : CommitResult)
      → commit git cfg before req ≡ (good res, s')
      → IsCommitted req before s' res
  unfolding commit
  commit-IsCommitted req before s' res h =
      IsCommitted-of req before s' res (on_worktree git cfg req before (git.open_error before))
        (of_worktree req before (git.open_error before)) h
