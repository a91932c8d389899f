-- ===== src/Store/Remote/Pushed.antt =====
-- internal/store/git.go: what a push that returns without an error has done.
use jconfig.Prelude.{
  Bool, true, false, List, [], ◌∷◌, ◌≡◌, ◌≢◌, ◌⊎◌, inl, inr, refl, ap, Option, none, some,
  nat_equality, list_equality, text_eq, Bool-cases,
}
use jconfig.Prelude.Answer.{Answer, good, bad}
use jconfig.Strings.Basic.{Text}
use jconfig.Config.Types.{Repo}
use jconfig.Config.Host.{Host}
use jconfig.Store.Git.{
  GitError, Got, found, missed, Auth, PushOptions, Git, is_remote_not_found, is_up_to_date,
}
use jconfig.Store.Auth.{remote_auth}
use jconfig.Store.Remote.{
  points_at, create, recreate, known_remote, ensure_remote, push_options, pushed, push_with,
  push_to, push,
}
use jconfig.Store.Remote.RefSpec.{IsPlainRef, PushesOnto, ref_spec-PushesOnto}

failed≢done : {e : Text} → (some e) ≢ none
failed≢done h = cc

module _ {S : Type 0} (host : Host) (git : Git S) (cfg : Repo) where
  -- A remote that was created is there, with its url.
  abbrev pub Creates : Type 0
  Creates =
      (s s' : S) (name url : Text)
      → git.create_remote s name url ≡ (none, s')
      → git.remote s' name ≡ found (url ∷ [])

  -- The push remote is there and its first url is the configured one.
  abbrev pub IsPointed : S → Type 0
  IsPointed s =
      (urls : List Text) × (git.remote s cfg.push.remote ≡ found urls)
      × (points_at cfg.push.url urls ≡ true)

  of_create : Creates → (s s' : S) → create host git cfg s ≡ (none, s') → IsPointed s'
  of_create creates s s' h =
      let e = creates s s' cfg.push.remote cfg.push.url h in
      (cfg.push.url ∷ [], e, (text_eq cfg.push.url cfg.push.url).1 refl)

  of_recreate :
      Creates → (o : Option Text × S) (s' : S) → recreate host git cfg o ≡ (none, s') → IsPointed s'
  of_recreate creates (some e, s) s' h = absurd (failed≢done (ap (λ r. r.0) h))
  of_recreate creates (none, s) s' h = of_create creates s s' h

  of_known :
      Creates
      → (s s' : S) (o : Got (List Text)) → git.remote s cfg.push.remote ≡ o
      → known_remote host git cfg s o ≡ (none, s')
      → IsPointed s'
  of_known creates s s' (missed e) q h = elim (Bool-cases (is_remote_not_found e.kind)) [
    | inl new ↦ of_create creates s s' (rw new at h)
    | inr failed ↦ absurd (failed≢done (ap (λ r. r.0) (rw failed at h)))
  ]
  of_known creates s s' (found urls) q h = elim (Bool-cases (points_at cfg.push.url urls)) [
    | inl same ↦
        let stays : (none, s) ≡ (none, s') = rw same at h in
        rw (← (ap (λ r. r.1) stays)) (urls, q, same)
    | inr other ↦ of_recreate creates (git.delete_remote s cfg.push.remote) s' (rw other at h)
  ]

  -- Whatever the remote was before, ensureRemote leaves it with the configured url, if it succeeds.
  pub ensure_remote-IsPointed :
      Creates → (s s' : S) → ensure_remote host git cfg s ≡ (none, s') → IsPointed s'
  unfolding ensure_remote
  ensure_remote-IsPointed creates s s' h =
      of_known creates s s' (git.remote s cfg.push.remote) refl h

  -- What go-git is asked to push, and how: the configured branch, onto the configured branch of the
  -- configured remote.
  pub record IsRequested (given : Auth) (options : PushOptions) : Type 0 where
    pub remote_name : options.remote_name ≡ cfg.push.remote
    pub spec :
        PushesOnto
          (git.branch_ref cfg.branch)
          (git.branch_ref cfg.push.branch)
          cfg.push.force
          options.ref_spec
    pub auth : options.auth ≡ given
    pub force : options.force ≡ cfg.push.force
    pub timeout : options.timeout ≡ cfg.push.timeout

  -- What a push did that reported `sent`: the remote is set up, the credentials are made, and
  -- go-git pushes the one reference, or says that the remote has it already.
  pub record IsPushed (before s' : S) (sent : Bool) : Type 0 where
    pub ready : S
    pub remote_set : ensure_remote host git cfg before ≡ (none, ready)
    pub auth : Auth
    pub authed : remote_auth host git.transports cfg.push ≡ good auth
    pub answer : Option GitError
    pub options : PushOptions
    pub requested : IsRequested auth options
    pub asked : git.push_refs ready options ≡ (answer, s')
    pub reported :
        ((sent ≡ true) × (answer ≡ none))
        ⊎ ((sent ≡ false) × ((e : GitError) × (answer ≡ some e) × (is_up_to_date e.kind ≡ true)))

  Outcome : S → Answer Bool × S → Type 0
  Outcome before (bad e, s') = Unit
  Outcome before (good sent, s') = IsPushed before s' sent

  push_options-IsRequested :
      IsPlainRef (git.branch_ref cfg.branch)
      → (auth : Auth) → IsRequested auth (push_options host git cfg auth)
  push_options-IsRequested plain auth = record {
    remote_name = refl;
    spec =
        ref_spec-PushesOnto (git.branch_ref cfg.branch) (git.branch_ref cfg.push.branch)
          cfg.push.force plain;
    auth = refl;
    force = refl;
    timeout = refl;
  }

  of_pushed :
      IsPlainRef (git.branch_ref cfg.branch)
      → (before ready : S) (auth : Auth) (o : Option GitError × S)
      → ensure_remote host git cfg before ≡ (none, ready)
      → remote_auth host git.transports cfg.push ≡ good auth
      → git.push_refs ready (push_options host git cfg auth) ≡ o
      → Outcome before (pushed host git cfg o)
  unfolding Outcome
  of_pushed plain before ready auth (none, s') set authed asked = record {
    ready = ready;
    remote_set = set;
    auth = auth;
    authed = authed;
    answer = none;
    options = push_options host git cfg auth;
    requested = push_options-IsRequested plain auth;
    asked = asked;
    reported = inl (refl, refl);
  }
  of_pushed plain before ready auth (some e, s') set authed asked =
      elim (Bool-cases (is_up_to_date e.kind)) [
        | inl known ↦ rw known (record {
          ready = ready;
          remote_set = set;
          auth = auth;
          authed = authed;
          answer = some e;
          options = push_options host git cfg auth;
          requested = push_options-IsRequested plain auth;
          asked = asked;
          reported = inr (refl, (e, refl, known));
        })
        | inr other ↦ rw other tt
      ]

  of_auth :
      IsPlainRef (git.branch_ref cfg.branch)
      → (before ready : S) (o : Answer Auth) → ensure_remote host git cfg before ≡ (none, ready)
      → remote_auth host git.transports cfg.push ≡ o
      → Outcome before (push_with host git cfg ready o)
  unfolding Outcome
  of_auth plain before ready (bad e) set authed = tt
  of_auth plain before ready (good auth) set authed =
      of_pushed plain before ready auth (git.push_refs ready (push_options host git cfg auth)) set
        authed refl

  of_remote :
      IsPlainRef (git.branch_ref cfg.branch)
      → (before : S) (o : Option Text × S) → ensure_remote host git cfg before ≡ o
      → Outcome before (push_to host git cfg o)
  unfolding Outcome
  of_remote plain before (some e, s) set = tt
  of_remote plain before (none, s) set =
      of_auth plain before s (remote_auth host git.transports cfg.push) set refl

  IsPushed-of :
      (before s' : S) (sent : Bool) (o : Answer Bool × S)
      → Outcome before o
      → o ≡ (good sent, s')
      → IsPushed before s' sent
  unfolding Outcome
  IsPushed-of before s' sent o d h = rw h at d

  -- If pushing is enabled and a push returns without an error, and the reference of the local branch
  -- has no colon and no plus in front, then the remote's url is the configured one; go-git was asked to
  -- push, with the credentials of the configuration, the one reference of the local branch onto that
  -- of the configured branch of the remote, forced exactly if the configuration says so; and the push
  -- reports true exactly if go-git did not say that the remote was up to date.
  pub push-IsPushed :
      (before s' : S) (sent : Bool)
      → Creates
      → IsPlainRef (git.branch_ref cfg.branch)
      → cfg.push.enabled ≡ true
      → push host git cfg before ≡ (good sent, s')
      → (p : IsPushed before s' sent) × IsPointed p.ready
  unfolding push
  push-IsPushed before s' sent creates plain on h =
      let p =
        IsPushed-of before s' sent (push_to host git cfg (ensure_remote host git cfg before))
          (of_remote plain before (ensure_remote host git cfg before) refl) (rw on at h) in
      (p, ensure_remote-IsPointed creates before p.ready p.remote_set)
