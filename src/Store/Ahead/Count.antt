-- ===== src/Store/Ahead/Count.antt =====
-- internal/store/git.go: what countFrom and Unpushed count.
use jconfig.Prelude.{
  ℕ, ◌+◌, ◌<◌, Bool, true, false, ◌||◌, List, [], ◌∷◌, ◌≡◌, ◌≢◌, ◌⊎◌, inl, inr, refl, sym, ap, ◌∙◌,
  none, arith, All, length, ◌==◌, nat_equality, list_equality, text_eq, leb, Bool-cases,
  if◌then◌else◌,
}
use jconfig.Prelude.Answer.{good}
use jconfig.Strings.Basic.{Text}
use jconfig.Config.Types.{Repo}
use jconfig.Config.Host.{Host}
use jconfig.Store.Git.{
  GitError, found, missed, Ref, Auth, Walk, walk_end, walk_fault, commit_then, Git, is_empty_remote,
}
use jconfig.Store.Auth.{remote_auth}
use jconfig.Store.Remote.{ensure_remote}
use jconfig.Store.Ahead.{max_ahead_walk, count_commits, hash_of, count_from, ahead_of, unpushed}

-- The commits of a walk before the one with hash `stop`, or all of them.
unfoldable pub commits_before : Text → Walk → ℕ
commits_before stop walk_end = 0
commits_before stop (walk_fault e) = 0
commits_before stop (commit_then hash walk) =
    let rest = commits_before stop walk in if hash == stop then 0 else 1 + rest

-- The walk does not fail before the commit with hash `stop`.
unfoldable pub intact : Text → Walk → Bool
intact stop walk_end = true
intact stop (walk_fault e) = false
intact stop (commit_then hash walk) = hash == stop || intact stop walk

-- A walk that meets these commits, and then goes on as `rest`.
abbrev pub commits_then : List Text → Walk → Walk
commits_then [] rest = rest
commits_then (hash ∷ hashes) rest = commit_then hash (commits_then hashes rest)

-- What a walk meets before the commit `stop`, or all that it meets if it ends without that commit.
pub data IsWalked (stop : Text) (walk : Walk) (hashes : List Text) : Type 0 where
  as_far_as :
      (rest : Walk)
      → walk ≡ commits_then hashes (commit_then stop rest)
      → All (λ hash. hash ≢ stop) hashes
      → IsWalked stop walk hashes
  to_the_end :
      walk ≡ commits_then hashes walk_end
      → All (λ hash. hash ≢ stop) hashes
      → IsWalked stop walk hashes

one_more :
    (stop hash : Text) (walk : Walk) (hashes : List Text)
    → hash ≢ stop
    → IsWalked stop walk hashes
    → IsWalked stop (commit_then hash walk) (hash ∷ hashes)
one_more stop hash walk hashes n (as_far_as rest e h) =
    as_far_as rest (ap (commit_then hash) e) (n, h)
one_more stop hash walk hashes n (to_the_end e h) = to_the_end (ap (commit_then hash) e) (n, h)

IsWalked-of :
    (stop : Text) (walk : Walk)
    → intact stop walk ≡ true
    → (hashes : List Text) × IsWalked stop walk hashes × (commits_before stop walk ≡ length hashes)
unfolding intact commits_before
IsWalked-of stop walk_end h = ([], to_the_end refl tt, refl)
IsWalked-of stop (walk_fault e) h = absurd cc
IsWalked-of stop (commit_then hash walk) h = elim (Bool-cases (hash == stop)) [
  | inl same ↦
      rw same
        ([], as_far_as walk (ap (λ x. commit_then x walk) ((text_eq hash stop).0 same)) tt, refl)
  | inr other ↦
      let still : intact stop walk ≡ true = ground arith in
      let (hashes, walked, counts) = IsWalked-of stop walk still in
      rw other (
        hash ∷ hashes,
        one_more stop hash walk hashes
            (λ e.
              let same = (text_eq hash stop).1 e in
              let clash : true ≡ false = sym same ∙ other in cc)
            walked,
        ground arith,
      )
]

abbrev pub at_most : ℕ → ℕ → ℕ
at_most m n = if leb m n then m else n

-- The first commit of the walk from a commit is that commit.
abbrev pub StartsAt : Text → Walk → Type 0
StartsAt hash walk = (rest : Walk) × (walk ≡ commit_then hash rest)

count_commits-at_most :
    (stop : Text) (n : ℕ) (walk : Walk)
    → n < max_ahead_walk
    → intact stop walk ≡ true
    → count_commits stop n walk ≡ good (at_most max_ahead_walk (n + commits_before stop walk))
unfolding count_commits commits_before intact
count_commits-at_most stop n walk_end small ok = ground arith
count_commits-at_most stop n (walk_fault e) small ok = absurd cc
count_commits-at_most stop n (commit_then hash walk) small ok = elim (Bool-cases (hash == stop)) [
  | inl same ↦ ground arith
  | inr other ↦ elim (Bool-cases (leb max_ahead_walk (n + 1))) [
    | inl full ↦ ground arith
    | inr room ↦
        let still : intact stop walk ≡ true = ground arith in
        let later = count_commits-at_most stop (n + 1) walk (ground arith) still in ground arith
  ]
]

count_all :
    (stop : Text) (walk : Walk)
    → intact stop walk ≡ true
    → count_commits stop 0 walk ≡ good (at_most max_ahead_walk (commits_before stop walk))
count_all stop walk ok = ground (arith, count_commits-at_most stop 0 walk (omega arith) ok)

module _ {S : Type 0} (host : Host) (git : Git S) (cfg : Repo) where
  -- What ListContext answers: the remote's references, none for an empty remote.
  abbrev pub Lists : S → Auth → List Ref → Type 0
  Lists s auth refs =
      let answer = git.list_refs s cfg.push.remote auth cfg.push.timeout in
      (answer ≡ found refs)
      ⊎ ((e : GitError) × (answer ≡ missed e) × (is_empty_remote e.kind ≡ true) × (refs ≡ []))

  abbrev pub remote_tip : List Ref → Text
  remote_tip refs = hash_of git.zero_hash (git.branch_ref cfg.push.branch) refs

  -- Walking the history from `local`, which starts there, gives the count.
  count_from-at_most :
      (s : S) (local stop : Text) (walk : Walk)
      → git.log_from s local ≡ good walk
      → intact stop walk ≡ true
      → count_from host git cfg s local stop
        ≡ good (at_most max_ahead_walk (commits_before stop walk))
  unfolding count_from
  count_from-at_most s local stop walk h ok = rw h (count_all stop walk ok)

  start_uncounted :
      (local : Text) (walk : Walk) → StartsAt local walk → commits_before local walk ≡ 0
  unfolding commits_before
  start_uncounted local walk (rest, e) = rw e (ground (arith, text_eq local local))

  ahead_of-at_most :
      (s : S) (local : Text) (auth : Auth) (refs : List Ref) (walk : Walk)
      → Lists s auth refs
      → git.log_from s local ≡ good walk
      → StartsAt local walk
      → intact (remote_tip refs) walk ≡ true
      → ahead_of host git cfg s local (git.list_refs s cfg.push.remote auth cfg.push.timeout)
        ≡ good (at_most max_ahead_walk (commits_before (remote_tip refs) walk))
  unfolding hash_of
  ahead_of-at_most s local auth refs walk (inl h) log starts ok =
      rw h (elim (Bool-cases (remote_tip refs == local)) [
        | inl same ↦
            let e = (text_eq (remote_tip refs) local).0 same in
            rw (same, e, start_uncounted local walk starts) refl
        | inr other ↦ rw other (count_from-at_most s local (remote_tip refs) walk log ok)
      ])
  ahead_of-at_most s local auth refs walk (inr (e, h, k, none_listed)) log starts ok =
      rw (h, k, none_listed)
        (count_from-at_most s local git.zero_hash walk log (rw none_listed at ok))

  unpushed-counts :
      (s s' : S) (local : Text) (auth : Auth) (refs : List Ref) (walk : Walk)
      → cfg.push.enabled ≡ true
      → git.reference s (git.branch_ref cfg.branch) ≡ found local
      → ensure_remote host git cfg s ≡ (none, s')
      → remote_auth host git.transports cfg.push ≡ good auth
      → Lists s' auth refs
      → git.log_from s' local ≡ good walk
      → StartsAt local walk
      → intact (remote_tip refs) walk ≡ true
      → unpushed host git cfg s
        ≡ (good (at_most max_ahead_walk (commits_before (remote_tip refs) walk)), s')
  unfolding unpushed
  unpushed-counts s s' local auth refs walk on has remote authed lists log starts ok =
      rw (on, has, remote, authed)
        (ap (λ n. (n, s')) (ahead_of-at_most s' local auth refs walk lists log starts ok))

  -- If pushing is enabled, the branch has a commit, the remote answers with its references, and the
  -- history from that commit starts with it and can be walked as far as the remote's commit, then
  -- Unpushed reports 100000, or if that is less: the number of commits that the walk meets before the
  -- remote's, or, if it does not meet the remote's commit, the number of all commits of the history,
  -- those that the remote has too among them.
  pub unpushed-at_most :
      (s s' : S) (local : Text) (auth : Auth) (refs : List Ref) (walk : Walk)
      → cfg.push.enabled ≡ true
      → git.reference s (git.branch_ref cfg.branch) ≡ found local
      → ensure_remote host git cfg s ≡ (none, s')
      → remote_auth host git.transports cfg.push ≡ good auth
      → Lists s' auth refs
      → git.log_from s' local ≡ good walk
      → StartsAt local walk
      → intact (remote_tip refs) walk ≡ true
      → (hashes : List Text) × IsWalked (remote_tip refs) walk hashes
        × (unpushed host git cfg s ≡ (good (at_most max_ahead_walk (length hashes)), s'))
  unpushed-at_most s s' local auth refs walk on has remote authed lists log starts ok =
      let (hashes, walked, counts) = IsWalked-of (remote_tip refs) walk ok in
      (
        hashes,
        walked,
        unpushed-counts s s' local auth refs walk on has remote authed lists log starts ok
            ∙ ap (λ n. (good (at_most max_ahead_walk n), s')) counts,
      )
