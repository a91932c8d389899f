-- ===== src/Daemon/Mux.antt =====
-- internal/httpapi/server.go: the routes of the two sockets. net/http's ServeMux is taken as
-- documented: a pattern that ends in a slash takes what begins with it, the longest one that fits is
-- served, GET takes HEAD, and registering a pattern twice panics. It redirects a path that is not
-- clean; requests here have a clean one.
use jconfig.Prelude.{
  Bool, true, false, ◌&&◌, ◌||◌, List, [], ◌∷◌, Option, none, some, any, length, ◌==◌, nat_equality,
  list_equality, ltb, if◌then◌else◌,
}
use jconfig.Strings.Basic.{Text, codes, has_prefix, has_suffix}

-- `device` and `wait` are the values of the query, empty if they are missing.
pub record Request : Type 0 where
  pub method : Text
  pub path : Text
  pub device : Text
  pub wait : Text

pub data Handler : Type 0 where
  exposition : Handler
  health : Handler
  ready_probe : Handler
  landing : Handler
  devices : Handler
  backup_trigger : Handler
  index : Handler

pub record Route : Type 0 where
  pub method : Text
  pub path : Text
  pub handler : Handler

pub data Dispatch : Type 0 where
  serve : Handler → Dispatch
  method_not_allowed : Dispatch
  no_route : Dispatch

abbrev pub get_method : Text
get_method = codes "GET"

abbrev pub post_method : Text
post_method = codes "POST"

abbrev pub fits_method : Text → Text → Bool
fits_method pattern method = pattern == method || (pattern == get_method && method == codes "HEAD")

abbrev pub fits_path : Text → Text → Bool
fits_path pattern path =
    pattern == path || (has_suffix pattern (codes "/") && has_prefix pattern path)

-- The longer of two patterns that fit.
abbrev pub longer : Route → Option Route → Route
longer a none = a
longer a (some b) = if ltb (length a.path) (length b.path) then b else a

unfoldable pub best_route : List Route → Request → Option Route
unfolding has_suffix has_prefix
best_route [] req = none
best_route (a ∷ rest) req =
    let best = best_route rest req in
    if fits_method a.method req.method && fits_path a.path req.path
    then some (longer a best)
    else best

unfoldable pub any_path : List Route → Request → Bool
unfolding any has_suffix has_prefix
any_path routes req = any (λ a. fits_path a.path req.path) routes

abbrev pub dispatch_to : Bool → Option Route → Dispatch
dispatch_to known (some a) = serve a.handler
dispatch_to true none = method_not_allowed
dispatch_to false none = no_route

unfoldable pub dispatch : List Route → Request → Dispatch
unfolding best_route any_path
dispatch routes req = dispatch_to (any_path routes req) (best_route routes req)

abbrev pub path_or_default : Text → Text
path_or_default path = if path == [] then codes "/metrics" else path

abbrev pub probe_routes : List Route
probe_routes =
    record { method = get_method; path = codes "/healthz"; handler = health }
    ∷ record { method = get_method; path = codes "/ready"; handler = ready_probe }
    ∷ record { method = get_method; path = codes "/"; handler = landing }
    ∷ []

-- metricsMux, `none` for a panic: the path of the exposition is registered already.
unfoldable pub metrics_mux : Text → Option (List Route)
unfolding any
metrics_mux metrics_path =
    let path = path_or_default metrics_path in
    if any (λ a. a.path == path) probe_routes
    then none
    else some (record { method = get_method; path = path; handler = exposition } ∷ probe_routes)

-- managementMux
unfoldable pub management_mux : List Route
management_mux =
    record { method = get_method; path = codes "/devices"; handler = devices }
    ∷ record { method = post_method; path = codes "/backup"; handler = backup_trigger }
    ∷ record { method = get_method; path = codes "/healthz"; handler = health }
    ∷ record { method = get_method; path = codes "/"; handler = index }
    ∷ []
