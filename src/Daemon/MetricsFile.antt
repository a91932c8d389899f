-- ===== src/Daemon/MetricsFile.antt =====
-- main.go: writeMetricsFile, which replaces a file in one step. The registry and the file system
-- are parameters.
use jconfig.Prelude.{
  false, List, [], ◌∷◌, ◌++◌, ◌≡◌, refl, ◌∙◌, Option, none, some, ◌==◌, nat_equality, list_equality,
}
use mathlib.Core.Path.{subst}
use jconfig.Prelude.Answer.{Answer, good, bad}
use jconfig.Strings.Basic.{Text, codes}
use jconfig.Strings.Format.{explain}

-- The operations on an open file and on names; the first four return their error's text.
pub record FileSystem (S : Type 0) : Type 0 where
  pub create_file : S → Text → Option Text × S
  pub encode : S → Text → Text → Option Text × S
  pub close_file : S → Text → Option Text × S
  pub rename_file : S → Text → Text → Option Text × S
  pub remove_file : S → Text → S

abbrev pub temporary : Text → Text
temporary path = path ++ codes ".tmp"

module _ {S : Type 0} (fs : FileSystem S) (path : Text) where
  abbrev pub encode_failed : Text → S → Option Text × S
  encode_failed e s = (
    some (explain (codes "encode metrics") e),
    fs.remove_file (fs.close_file s (temporary path)).1 (temporary path),
  )

  -- The loop over the families.
  unfoldable pub encode_all : List Text → S → Option Text × S
  encode_all [] s = (none, s)
  encode_all (family ∷ families) s = elim (fs.encode s (temporary path) family).0 [
    | some e ↦ encode_failed e (fs.encode s (temporary path) family).1
    | none ↦ encode_all families (fs.encode s (temporary path) family).1
  ]

  abbrev pub after_close : Option Text × S → Option Text × S
  after_close (some e, s) = (some e, fs.remove_file s (temporary path))
  after_close (none, s) = fs.rename_file s (temporary path) path

  abbrev pub encoded : Option Text × S → Option Text × S
  encoded (some e, s) = (some e, s)
  encoded (none, s) = after_close (fs.close_file s (temporary path))

  abbrev pub created_file : List Text → Option Text × S → Option Text × S
  created_file families (some e, s) = (some e, s)
  created_file families (none, s) = encoded (encode_all families s)

  abbrev pub gathered : Answer (List Text) → S → Option Text × S
  gathered (bad e) s = (some (explain (codes "gather metrics") e), s)
  gathered (good families) s = created_file families (fs.create_file s (temporary path))

  -- writeMetricsFile
  unfoldable pub write_metrics_file : Answer (List Text) → S → Option Text × S
  unfolding encode_all
  write_metrics_file families s = gathered families s

  -- What a file system promises, by the content under each name: all but renaming touch the
  -- temporary file only, and a renaming that fails changes nothing.
  pub record FileLaws (content : S → Text → Option Text) : Type 0 where
    pub creates :
        (s : S) (name : Text)
        → (name == temporary path) ≡ false
        → content (fs.create_file s (temporary path)).1 name ≡ content s name
    pub encodes :
        (s : S) (name family : Text)
        → (name == temporary path) ≡ false
        → content (fs.encode s (temporary path) family).1 name ≡ content s name
    pub closes :
        (s : S) (name : Text)
        → (name == temporary path) ≡ false
        → content (fs.close_file s (temporary path)).1 name ≡ content s name
    pub removes :
        (s : S) (name : Text)
        → (name == temporary path) ≡ false
        → content (fs.remove_file s (temporary path)) name ≡ content s name
    pub rename_fails :
        (s : S) (name e : Text)
        → (fs.rename_file s (temporary path) path).0 ≡ some e
        → content (fs.rename_file s (temporary path) path).1 name ≡ content s name

  module _ (content : S → Text → Option Text) (laws : FileLaws content) (name : Text)
      (other : (name == temporary path) ≡ false) where
    -- After an error the content under the name is that of `s`; `before` stands without one too.
    abbrev SameOnError : Option Text → S → S → Type 0
    SameOnError none s s' = Unit
    SameOnError (some e) s s' = content s' name ≡ content s name

    closed_same : (o : Option Text × S) → SameOnError (after_close o).0 o.1 (after_close o).1
    closed_same (some e, s) = laws.removes s name other
    closed_same (none, s) = renamed (fs.rename_file s (temporary path) path).0 refl
      where
        renamed :
            (r : Option Text)
            → (fs.rename_file s (temporary path) path).0 ≡ r
            → SameOnError r s (fs.rename_file s (temporary path) path).1
        renamed none q = tt
        renamed (some e) q = laws.rename_fails s name e q

    encode_all_same :
        (families : List Text) (s : S) → content (encode_all families s).1 name ≡ content s name
    unfolding encode_all
    encode_all_same [] s = refl
    encode_all_same (family ∷ families) s =
        encoded_next (fs.encode s (temporary path) family).0 refl
          (encode_all_same families (fs.encode s (temporary path) family).1)
      where
        encoded_next :
            (o : Option Text)
            → (fs.encode s (temporary path) family).0 ≡ o
            → content (encode_all families (fs.encode s (temporary path) family).1).1 name
              ≡ content (fs.encode s (temporary path) family).1 name
            → content (encode_all (family ∷ families) s).1 name ≡ content s name
        encoded_next (some e) q h =
            rw (q, encode_all)
              (laws.removes _ name other
                ∙ laws.closes _ name other
                ∙ laws.encodes s name family other)
        encoded_next none q h = rw (q, encode_all) (h ∙ laws.encodes s name family other)

    back_to :
        (s s' s'' : S) (o : Option Text)
        → content s' name ≡ content s name
        → SameOnError o s' s''
        → SameOnError o s s''
    back_to s s' s'' none q h = tt
    back_to s s' s'' (some e) q h = h ∙ q

    encoded_same :
        (s : S) (o : Option Text × S)
        → content o.1 name ≡ content s name
        → SameOnError (encoded o).0 s (encoded o).1
    encoded_same s (some e, s') q = q
    encoded_same s (none, s') q =
        back_to s (fs.close_file s' (temporary path)).1 _ _ (laws.closes s' name other ∙ q)
          (closed_same (fs.close_file s' (temporary path)))

    created_same :
        (families : List Text) (s : S) (o : Option Text × S)
        → content o.1 name ≡ content s name
        → SameOnError (created_file families o).0 s (created_file families o).1
    created_same families s (some e, s') q = q
    created_same families s (none, s') q =
        encoded_same s (encode_all families s') (encode_all_same families s' ∙ q)

    gathered_same :
        (families : Answer (List Text)) (s : S)
        → SameOnError (gathered families s).0 s (gathered families s).1
    gathered_same (bad e) s = refl
    gathered_same (good families) s =
        created_same families s (fs.create_file s (temporary path)) (laws.creates s name other)

    -- If writing the metrics file fails, at any step, the file that was there before is unchanged,
    -- and so is every other file but the temporary one.
    pub write_metrics_file-unchanged :
        (families : Answer (List Text)) (s s' : S) (e : Text)
        → write_metrics_file families s ≡ (some e, s')
        → content s' name ≡ content s name
    unfolding write_metrics_file
    write_metrics_file-unchanged families s s' e h =
        subst (λ r. SameOnError r.0 s r.1) h (gathered_same families s)
