-- ===== src/Daemon/Routes.antt =====
-- internal/httpapi/server.go: which requests can change anything.
use jconfig.Prelude.{
  Bool, true, false, ◌&&◌, List, [], ◌∷◌, ◌≡◌, ◌⊎◌, inl, inr, refl, sym, ◌∙◌, Option, none, some,
  arith, any, All, length, ◌==◌, nat_equality, list_equality, list_beq, text_eq, ltb, Bool-cases,
  if◌then◌else◌,
}
use jconfig.Strings.Basic.{Text, codes, has_suffix}
use jconfig.Prelude.Time.{Time}
use jconfig.Config.Types.{Device}
use jconfig.Store.Api.{StoreApi}
use jconfig.Runner.Types.{Runner}
use jconfig.Runner.Run.{RunTimes, Job}
use jconfig.Daemon.Mux.{
  Request, Handler, exposition, health, ready_probe, landing, devices, backup_trigger, index, Route,
  Dispatch, serve, method_not_allowed, no_route, get_method, post_method, fits_method, fits_path,
  longer, best_route, any_path, dispatch_to, dispatch, path_or_default, probe_routes, metrics_mux,
  management_mux,
}
use jconfig.Daemon.Http.{Handled, handle, served}

-- A route that fits a request.
abbrev pub Fits : Route → Request → Type 0
Fits a req = (fits_method a.method req.method ≡ true) × (fits_path a.path req.path ≡ true)

route_inj : {a b : Route} → some a ≡ some b → a ≡ b
route_inj h = cc

longer_either :
    (P : Route → Type 0) (a : Route) (o : Option Route)
    → P a
    → ((b : Route) → o ≡ some b → P b)
    → P (longer a o)
longer_either P a none h k = h
longer_either P a (some b) h k = elim (Bool-cases (ltb (length a.path) (length b.path))) [
  | inl e ↦ rw e (k b refl)
  | inr e ↦ rw e h
]

best_here :
    (a : Route) (rest : List Route) (req : Request)
    → (fits_method a.method req.method && fits_path a.path req.path) ≡ true
    → best_route (a ∷ rest) req ≡ some (longer a (best_route rest req))
unfolding best_route
best_here a rest req h = rw h refl

best_past :
    (a : Route) (rest : List Route) (req : Request)
    → (fits_method a.method req.method && fits_path a.path req.path) ≡ false
    → best_route (a ∷ rest) req ≡ best_route rest req
unfolding best_route
best_past a rest req h = rw h refl

no_best : (req : Request) (a : Route) → best_route [] req ≡ some a → ⊥
unfolding best_route
no_best req a h = cc

and_parts : (a b : Bool) → (a && b) ≡ true → (a ≡ true) × (b ≡ true)
and_parts a b h = ground arith

-- The route that is served is one of the list, and it fits.
served_route :
    (P : Route → Type 0) (routes : List Route) (req : Request)
    → All P routes
    → (a : Route) → best_route routes req ≡ some a
    → P a × Fits a req
served_route P [] req all_routes a h = absurd (no_best req a h)
served_route P (b ∷ rest) req all_routes a h =
    let later = served_route P rest req all_routes.1 in
    elim (Bool-cases (fits_method b.method req.method && fits_path b.path req.path)) [
      | inl e ↦ rw (← (route_inj (sym (best_here b rest req e) ∙ h))) (
          longer_either (λ x. P x × Fits x req) b (best_route rest req)
            (
              all_routes.0,
              and_parts (fits_method b.method req.method) (fits_path b.path req.path) e,
            )
            later)
      | inr n ↦ later a (sym (best_past b rest req n) ∙ h)
    ]

serve_inj : {g h : Handler} → serve g ≡ serve h → g ≡ h
serve_inj e = cc

-- What is served comes from a route of the list that fits.
served_by :
    (P : Route → Type 0) (routes : List Route) (req : Request)
    → All P routes
    → (h : Handler) → dispatch routes req ≡ serve h
    → (a : Route) × (a.handler ≡ h) × P a × Fits a req
unfolding dispatch
served_by P routes req all_routes h e = go (best_route routes req) refl (any_path routes req) e
  where
    go :
        (o : Option Route)
        → best_route routes req ≡ o
        → (known : Bool) → dispatch_to known o ≡ serve h
        → (a : Route) × (a.handler ≡ h) × P a × Fits a req
    go (some a) best known k =
        let (p, fits) = served_route P routes req all_routes a best in (a, serve_inj k, p, fits)
    go none best true k = absurd cc
    go none best false k = absurd cc

-- Only this route of the management socket starts a backup.
abbrev pub GuardsBackup : Route → Type 0
GuardsBackup a = a.handler ≡ backup_trigger → (a.method ≡ post_method) × (a.path ≡ codes "/backup")

management_guards : All GuardsBackup management_mux
unfolding management_mux
management_guards = (λ e. absurd cc, (λ e. (refl, refl), (λ e. absurd cc, (λ e. absurd cc, tt))))

post_only : (method : Text) → fits_method post_method method ≡ true → method ≡ post_method
unfolding codes list_beq
post_only method h = ground (arith, text_eq post_method method)

backup_only : (path : Text) → fits_path (codes "/backup") path ≡ true → path ≡ codes "/backup"
unfolding codes has_suffix list_beq
backup_only path h = ground (arith, text_eq (codes "/backup") path)

-- The metrics socket serves no handler that changes anything.
abbrev pub IsReadOnly : Handler → Type 0
IsReadOnly h = (h ≡ backup_trigger) → ⊥

metrics-IsReadOnly :
    (metrics_path : Text) (routes : List Route)
    → metrics_mux metrics_path ≡ some routes
    → All (λ a. IsReadOnly a.handler) routes
unfolding metrics_mux
metrics-IsReadOnly metrics_path routes h =
    go (any (λ a. a.path == path_or_default metrics_path) probe_routes) h
  where
    routes_inj : {a b : List Route} → some a ≡ some b → a ≡ b
    routes_inj e = cc

    go :
        (b : Bool)
        → (if b
            then none
            else some (
                record {
                  method = get_method;
                  path = path_or_default metrics_path;
                  handler = exposition;
                }
                ∷ probe_routes))
          ≡ some routes
        → All (λ a. IsReadOnly a.handler) routes
    go true e = absurd cc
    go false e = rw (← (routes_inj e)) (λ k. cc, (λ k. cc, (λ k. cc, (λ k. cc, tt))))

-- A request left the runner as it was and started nothing.
abbrev pub IsUntouched : {S : Type 0} → Runner S → Handled S → Type 0
IsUntouched r h = (h.runner ≡ r) × (h.background ≡ none)

module _ {S : Type 0} (api : StoreApi S) (format_time : Time → Text) (path : Text)
    (times : RunTimes) (fates : List Device → List Job) where
  read_only-IsUntouched :
      (h : Handler) (req : Request) (r : Runner S)
      → IsReadOnly h
      → IsUntouched r (handle api format_time path times fates h req r)
  unfolding handle
  read_only-IsUntouched exposition req r k = (refl, refl)
  read_only-IsUntouched health req r k = (refl, refl)
  read_only-IsUntouched ready_probe req r k = (refl, refl)
  read_only-IsUntouched landing req r k = (refl, refl)
  read_only-IsUntouched devices req r k = (refl, refl)
  read_only-IsUntouched index req r k = (refl, refl)
  read_only-IsUntouched backup_trigger req r k = absurd (k refl)

  -- No request to the metrics socket changes the runner or starts a backup.
  pub metrics-IsUntouched :
      (metrics_path : Text) (routes : List Route) (req : Request) (r : Runner S)
      → metrics_mux metrics_path ≡ some routes
      → IsUntouched r (served api format_time path times fates (dispatch routes req) req r)
  metrics-IsUntouched metrics_path routes req r h = go (dispatch routes req) refl
    where
      go :
          (d : Dispatch)
          → dispatch routes req ≡ d
          → IsUntouched r (served api format_time path times fates d req r)
      go (serve x) e =
          let (a, same, p, fits) =
            served_by (λ a. IsReadOnly a.handler) routes req
              (metrics-IsReadOnly metrics_path routes h) x e in
          read_only-IsUntouched x req r (λ k. p (same ∙ k))
      go method_not_allowed e = (refl, refl)
      go no_route e = (refl, refl)

  -- A request to the management socket changes the runner or starts a backup only if it is a POST
  -- of exactly "/backup".
  pub management-backup_only :
      (req : Request) (r : Runner S)
      → IsUntouched r (served api format_time path times fates (dispatch management_mux req) req r)
        ⊎ ((req.method ≡ post_method) × (req.path ≡ codes "/backup"))
  management-backup_only req r = go (dispatch management_mux req) refl
    where
      posted :
          (x : Handler)
          → dispatch management_mux req ≡ serve x
          → x ≡ backup_trigger
          → (req.method ≡ post_method) × (req.path ≡ codes "/backup")
      posted x e k =
          let (a, same, guards, fits) =
            served_by GuardsBackup management_mux req management_guards x e in
          let (by_post, at_backup) = guards (same ∙ k) in
          (
            post_only req.method (rw (← by_post) (fits.0)),
            backup_only req.path (rw (← at_backup) (fits.1)),
          )

      by_handler :
          (x : Handler)
          → dispatch management_mux req ≡ serve x
          → IsUntouched r (handle api format_time path times fates x req r)
            ⊎ ((req.method ≡ post_method) × (req.path ≡ codes "/backup"))
      by_handler backup_trigger e = inr (posted backup_trigger e refl)
      by_handler exposition e = inl (read_only-IsUntouched exposition req r (λ k. cc))
      by_handler health e = inl (read_only-IsUntouched health req r (λ k. cc))
      by_handler ready_probe e = inl (read_only-IsUntouched ready_probe req r (λ k. cc))
      by_handler landing e = inl (read_only-IsUntouched landing req r (λ k. cc))
      by_handler devices e = inl (read_only-IsUntouched devices req r (λ k. cc))
      by_handler index e = inl (read_only-IsUntouched index req r (λ k. cc))

      go :
          (d : Dispatch)
          → dispatch management_mux req ≡ d
          → IsUntouched r (served api format_time path times fates d req r)
            ⊎ ((req.method ≡ post_method) × (req.path ≡ codes "/backup"))
      go (serve x) e = by_handler x e
      go method_not_allowed e = inl (refl, refl)
      go no_route e = inl (refl, refl)
