-- ===== src/Store/Placed.antt =====
-- internal/store/git.go: the loop of Commit over the files, as a relation between states.
use jconfig.Prelude.{
  Bool, true, false, List, [], ◌∷◌, ◌++◌, ◌≡◌, ◌≢◌, ◌⊎◌, inl, inr, refl, sym, ap, ◌∙◌, Option, none,
  some, all, ◌==◌, nat_equality, list_equality, text_eq, Bool-cases,
}
use mathlib.Core.List.{append_assoc, append-nil}
use jconfig.Prelude.Answer.{Answer, good, bad}
use jconfig.Prelude.Dict.{Dict}
use jconfig.Strings.Basic.{Text}
use jconfig.Strings.Clean.{join_path}
use jconfig.Config.Types.{Repo}
use jconfig.Store.Commit.{
  FileRead, absent, file, unreadable, Worktree, dir, note_file, after_write, compared, after_dirs,
  write_if_changed, after_add, added, put_file, put_files,
}

abbrev pub path_of : Repo → Text → Text
path_of cfg rel = join_path (cfg.path ∷ rel ∷ [])

-- What stands at a path before it is written: nothing, or something else.
abbrev pub Differs : FileRead → Text → Type 0
Differs found content = (found ≡ absent) ⊎ ((old : Text) × (found ≡ file old) × (old ≢ content))

-- One file was put in place and added; the flag tells whether it was written.
pub data Put {S : Type 0} (git : Worktree S) (cfg : Repo) (rel content : Text) (s : S)
    : Bool → S → Type 0 where
  unwritten :
      {s1 s2 : S}
      → git.make_dirs s (dir (path_of cfg rel)) ≡ (none, s1)
      → git.read_file s1 (path_of cfg rel) ≡ file content
      → git.add s1 rel ≡ (none, s2)
      → Put git cfg rel content s false s2
  written :
      {s1 s2 s3 : S}
      → git.make_dirs s (dir (path_of cfg rel)) ≡ (none, s1)
      → Differs (git.read_file s1 (path_of cfg rel)) content
      → git.write_file s1 (path_of cfg rel) content ≡ (none, s2)
      → git.add s2 rel ≡ (none, s3)
      → Put git cfg rel content s true s3

-- All files were put in place, one after the other; the list is of those that were written.
pub data PutAll {S : Type 0} (git : Worktree S) (cfg : Repo)
    : Dict Text Text → S → List Text → S → Type 0 where
  nothing : {s : S} → PutAll git cfg [] s [] s
  kept :
      {rel content : Text} {rest : Dict Text Text} {s s1 s2 : S} {names : List Text}
      → Put git cfg rel content s false s1
      → PutAll git cfg rest s1 names s2
      → PutAll git cfg ((rel, content) ∷ rest) s names s2
  changed :
      {rel content : Text} {rest : Dict Text Text} {s s1 s2 : S} {names : List Text}
      → Put git cfg rel content s true s1
      → PutAll git cfg rest s1 names s2
      → PutAll git cfg ((rel, content) ∷ rest) s (rel ∷ names) s2

module _ {S : Type 0} (git : Worktree S) (cfg : Repo) where
  -- A round that succeeds has put its file.
  abbrev PutResult : Text → Text → List Text → S → Answer (List Text) × S → Type 0
  PutResult rel content files s (bad e, s') = Unit
  PutResult rel content files s (good files', s') =
      (b : Bool) × (files' ≡ note_file b rel files) × Put git cfg rel content s b s'

  -- A loop that succeeds has put all files.
  abbrev pub AllResult : Dict Text Text → List Text → S → Answer (List Text) × S → Type 0
  AllResult fs files s (bad e, s') = Unit
  AllResult fs files s (good files', s') =
      (names : List Text) × (files' ≡ files ++ names) × PutAll git cfg fs s names s'

  module _ (rel content : Text) (files : List Text) (s : S) where
    of_add :
        (b : Bool) (s1 : S)
        → ((s2 : S) → git.add s1 rel ≡ (none, s2) → Put git cfg rel content s b s2)
        → (o : Option Text × S) → git.add s1 rel ≡ o
        → PutResult rel content files s (after_add git cfg rel b files o)
    of_add b s1 puts (some e, s2) q = tt
    of_add b s1 puts (none, s2) q = (b, refl, puts s2 q)

    of_write :
        (s1 : S)
        → git.make_dirs s (dir (path_of cfg rel)) ≡ (none, s1)
        → Differs (git.read_file s1 (path_of cfg rel)) content
        → (o : Option Text × S) → git.write_file s1 (path_of cfg rel) content ≡ o
        → PutResult rel content files s
            (added git cfg rel files (after_write git cfg (path_of cfg rel) o))
    of_write s1 dirs new (some e, s2) q = tt
    of_write s1 dirs new (none, s2) q =
        of_add true s2 (λ s3 a. written dirs new q a) (git.add s2 rel) refl

    of_read :
        (s1 : S)
        → git.make_dirs s (dir (path_of cfg rel)) ≡ (none, s1)
        → (o : FileRead) → git.read_file s1 (path_of cfg rel) ≡ o
        → PutResult rel content files s
            (added git cfg rel files (compared git cfg (path_of cfg rel) content o s1))
    of_read s1 dirs absent q =
        of_write s1 dirs (inl q) (git.write_file s1 (path_of cfg rel) content) refl
    of_read s1 dirs (unreadable e) q = tt
    of_read s1 dirs (file old) q = elim (Bool-cases (old == content)) [
      | inl same ↦ rw same (
          of_add false s1 (λ s2 a. unwritten dirs (q ∙ ap file ((text_eq old content).0 same)) a)
            (git.add s1 rel) refl)
      | inr other ↦ rw other (
          of_write s1 dirs
            (inr (
              old,
              q,
              λ e.
                  let same = (text_eq old content).1 e in
                  let clash : true ≡ false = sym same ∙ other in cc,
            ))
            (git.write_file s1 (path_of cfg rel) content) refl)
    ]

    of_dirs :
        (o : Option Text × S)
        → git.make_dirs s (dir (path_of cfg rel)) ≡ o
        → PutResult rel content files s
            (added git cfg rel files (after_dirs git cfg (path_of cfg rel) content o))
    of_dirs (some e, s1) q = tt
    of_dirs (none, s1) q = of_read s1 q (git.read_file s1 (path_of cfg rel)) refl

    put_file-PutResult : PutResult rel content files s (put_file git cfg rel content files s)
    unfolding put_file write_if_changed
    put_file-PutResult = of_dirs (git.make_dirs s (dir (path_of cfg rel))) refl

  AllResult-cons :
      (rel content : Text) (rest : Dict Text Text) (files files' : List Text) (s s1 : S) (b : Bool)
      → files' ≡ note_file b rel files
      → Put git cfg rel content s b s1
      → (o : Answer (List Text) × S) → AllResult rest files' s1 o
      → AllResult ((rel, content) ∷ rest) files s o
  AllResult-cons rel content rest files files' s s1 b e put (bad x, s2) r = tt
  AllResult-cons rel content rest files files' s s1 true e put (good out, s2) (names, same, all) = (
    rel ∷ names,
    same ∙ ap (λ fs. fs ++ names) e ∙ append_assoc files (rel ∷ []) names,
    changed put all,
  )
  AllResult-cons rel content rest files files' s s1 false e put (good out, s2) (names, same, all) =
      (names, same ∙ ap (λ fs. fs ++ names) e, kept put all)

  pub put_files-AllResult :
      (fs : Dict Text Text) (files : List Text) (s : S)
      → AllResult fs files s (put_files git cfg fs files s)
  unfolding put_files
  put_files-AllResult [] files s = ([], sym (append-nil files), nothing)
  put_files-AllResult ((rel, content) ∷ rest) files s =
      go (put_file git cfg rel content files s) (put_file-PutResult rel content files s)
        (λ files' s1. put_files-AllResult rest files' s1)
    where
      go :
          (o : Answer (List Text) × S)
          → PutResult rel content files s o
          → ((files' : List Text) (s1 : S)
              → AllResult rest files' s1 (put_files git cfg rest files' s1))
          → AllResult
              ((rel, content) ∷ rest)
              files
              s
              (elim o.0 [ bad e ↦ (bad e, o.1) | good files' ↦ put_files git cfg rest files' o.1 ])
      go (bad e, s1) r later = tt
      go (good files', s1) (b, e, put) later =
          AllResult-cons rel content rest files files' s s1 b e put _ (later files' s1)
