-- ===== src/Rostest/Whole.antt =====
-- The driver on a connection to the stand-in device, which offers it the device's password and runs
-- each command in a session of its own.
use jconfig.Prelude.{
  zero, suc, Bool, true, false, not, ◌||◌, List, [], ◌∷◌, ◌++◌, ◌≡◌, refl, ap, ◌∙◌, Option, none,
  some, any, all, ◌==◌, nat_equality, list_equality, list_beq, text_eq, if◌then◌else◌,
}
use jconfig.Prelude.Dict.{Dict, get, put, get-put}
use jconfig.Strings.Basic.{Text, codes, contains}
use jconfig.Config.Types.{Device, sensitive_shown}
use jconfig.Config.Vendors.{supports, format_verbose, format_terse}
use jconfig.Device.Result.{Error, plain, staged, stage_auth, Fetched, ok}
use jconfig.Driver.Loop.{
  content, complete, Output, output, lost, Peer, fetch_formats, fetched_one, empty_result,
}
use jconfig.Routeros.Export.{login, export_command}
use jconfig.Routeros.Metadata.{apply_metadata}
use jconfig.Routeros.Fetch.{fetch_routeros, ask_export, answered, described, on_connection}
use jconfig.Rostest.Account.{account-login}
use jconfig.Rostest.Canned.{
  user_name, pass_word, export_body, sensitive_body, terse_body, verbose_body,
}
use jconfig.Rostest.Server.{
  Server, exec, Sent, reply, wrote, exited, channel_closed, handle_session, password_callback,
  account,
}

-- What the client makes of a session.
abbrev pub received : Text → List Sent → Output
received out [] = lost (plain (codes "exit status missing"))
received out (reply true ∷ sent) = received out sent
received out (reply false ∷ sent) = lost (plain (codes "command failed"))
received out (wrote more ∷ sent) = received (out ++ more) sent
received out (exited zero ∷ sent) = output out
received out (exited (suc n) ∷ sent) = lost (plain (codes "exited with a status"))
received out (channel_closed ∷ sent) = lost (plain (codes "exit status missing"))

abbrev pub let_in : Bool × Server → Option Error × Server
let_in (true, f) = (none, f)
let_in (false, f) = (some (staged stage_auth (plain (codes "denied"))), f)

abbrev pub device_peer : Peer Server
device_peer = record {
  dial = λ f d user. let_in (password_callback user d.password f);
  run = λ f cmd. (received [] (handle_session f (exec cmd ∷ [])), f);
  close = λ f. f;
}

-- A device on which nothing was set.
abbrev pub untouched : List Text → Server
untouched logins = record { fail_command = []; export_override = []; logins = logins }

-- The configuration that the device shows in a format, without the banner.
abbrev body_of : Bool → Bool → Bool → Text
body_of true t b = verbose_body
body_of false true b = terse_body
body_of false false true = sensitive_body
body_of false false false = export_body

unfoldable pub shown : Text → Bool → Text
shown format sensitive = body_of (format == format_verbose) (format == format_terse) sensitive

abbrev command_of : Bool → Bool → Bool → Text
command_of v t b =
    codes "/export"
    ++ ((if v then codes " verbose" else if t then codes " terse" else [])
        ++ (if b then codes " show-sensitive" else []))

command_of-body :
    (logins : List Text) (v t b : Bool)
    → answered (command_of v t b) (device_peer.run (untouched logins) (command_of v t b)).0
      ≡ content (body_of v t b)
unfolding handle_session codes list_beq jconfig.Routeros.Export.parse_export
command_of-body logins true t true = refl
command_of-body logins true t false = refl
command_of-body logins false true true = refl
command_of-body logins false true false = refl
command_of-body logins false false true = refl
command_of-body logins false false false = refl

ask_export-shown :
    (logins : List Text) (d : Device) (format : Text)
    → ask_export device_peer d (untouched logins) format
      ≡ (content (shown format (sensitive_shown d)), untouched logins)
unfolding ask_export shown
ask_export-shown logins d format =
    ap (λ a. (a, untouched logins))
      (command_of-body logins (format == format_verbose) (format == format_terse)
        (sensitive_shown d))

-- What the loop over the formats leaves.
abbrev pub shown_all : Bool → List Text → Dict Text Text → Dict Text Text
shown_all sensitive [] configs = configs
shown_all sensitive (f ∷ fs) configs = shown_all sensitive fs (put f (shown f sensitive) configs)

fetch_formats-shown :
    (logins : List Text) (d : Device) (fs : List Text) (configs : Dict Text Text)
    → fetch_formats (ask_export device_peer d) (untouched logins) fs configs
      ≡ (complete (shown_all (sensitive_shown d) fs configs), untouched logins)
unfolding fetch_formats
fetch_formats-shown logins d [] configs = refl
fetch_formats-shown logins d (f ∷ fs) configs =
    let c = shown f (sensitive_shown d) in
    let asked = ask_export-shown logins d f in
    fetched_one (ask_export device_peer d) (untouched logins) f c fs configs (ap (λ r. r.0) asked)
    ∙ ap (λ r. fetch_formats (ask_export device_peer d) r.1 fs (put f c configs)) asked
    ∙ fetch_formats-shown logins d fs (put f c configs)

abbrev pub or_else : Bool → Text → Option Text → Option Text
or_else true c o = some c
or_else false c o = o

shown_all-get :
    (b : Bool) (fs : List Text) (configs : Dict Text Text) (f : Text)
    → get f (shown_all b fs configs) ≡ or_else (supports fs f) (shown f b) (get f configs)
unfolding supports any
shown_all-get b [] configs f = refl
shown_all-get b (g ∷ fs) configs f =
    shown_all-get b fs (put g (shown g b) configs) f ∙ by_tests (supports fs f) (g == f) refl
  where
    by_tests :
        (later here : Bool)
        → (g == f) ≡ here
        → or_else later (shown f b) (get f (put g (shown g b) configs))
          ≡ or_else (here || later) (shown f b) (get f configs)
    by_tests true true e = refl
    by_tests true false e = refl
    by_tests false true e =
        get-put g f (shown g b) configs ∙ (rw e (ap (λ x. some (shown x b)) ((text_eq g f).0 e)))
    by_tests false false e = get-put g f (shown g b) configs ∙ (rw e refl)

-- The keys of the printed tables whose values move by themselves.
abbrev pub moving : List Text
moving =
    codes "uptime"
    ∷ codes "free-memory"
    ∷ codes "cpu-load"
    ∷ codes "free-hdd-space"
    ∷ codes "write-sect"
    ∷ codes "upgrade-firmware"
    ∷ []

abbrev pub mentions_none : List Text → List Text → Bool
mentions_none words blocks = all (λ w. all (λ b. not (contains w b)) blocks) words

-- All that a fetch from the device is to bring.
pub record IsWhole (d : Device) (res : Fetched) : Type 0 where
  pub formats :
      (f : Text)
      → get f res.configs ≡ or_else (supports d.formats f) (shown f (sensitive_shown d)) none
  pub hostname : res.hostname ≡ codes "gw1-ams"
  pub os_version : res.os_version ≡ codes "7.14.2 (stable)"
  pub model : res.model ≡ codes "RB5009UG+S+"
  pub still : mentions_none moving res.header_blocks ≡ true

apply_metadata-runs :
    (logins : List Text) (configs : Dict Text Text)
    → (res : Fetched) × (apply_metadata device_peer (untouched logins) (empty_result configs)
        ≡ (res, untouched logins))
      × (res.configs ≡ configs)
      × (res.hostname ≡ codes "gw1-ams")
      × (res.os_version ≡ codes "7.14.2 (stable)")
      × (res.model ≡ codes "RB5009UG+S+")
      × (mentions_none moving res.header_blocks ≡ true)
unfolding apply_metadata handle_session codes list_beq all get put
    jconfig.Routeros.Export.parse_export
apply_metadata-runs logins configs = (_, refl, refl, refl, refl, refl, refl)

-- The login goes through, and is put on record with the driver's flags.
dial-LetIn :
    (logins : List Text) (d : Device)
    → account d.username ≡ user_name
    → d.password ≡ pass_word
    → device_peer.dial (untouched logins) d (login d.username)
      ≡ (none, untouched (logins ++ (login d.username ∷ [])))
unfolding password_callback
dial-LetIn logins d h k = rw (account-login d.username, h, k) (unfold codes list_beq in refl)

-- A device of any name, with any formats, whose account and password are those that the stand-in
-- device knows, is backed up whole from it.
pub fetch_routeros-IsWhole :
    (logins : List Text) (d : Device)
    → account d.username ≡ user_name
    → d.password ≡ pass_word
    → (res : Fetched) × (fetch_routeros device_peer d (untouched logins)
        ≡ (ok res, untouched (logins ++ (login d.username ∷ []))))
      × IsWhole d res
unfolding fetch_routeros get
fetch_routeros-IsWhole logins d h k =
    let after = logins ++ (login d.username ∷ []) in
    let configs = shown_all (sensitive_shown d) d.formats [] in
    let (res, runs, same, hostname, os_version, model, still) = apply_metadata-runs after configs in
    (
      res,
      ap (on_connection device_peer d) (dial-LetIn logins d h k)
          ∙ ap (λ x. ((described device_peer x).0, (described device_peer x).1))
              (fetch_formats-shown after d d.formats [])
          ∙ ap (λ x. (ok x.0, x.1)) runs,
      record {
        formats = λ f. ap (get f) same ∙ shown_all-get (sensitive_shown d) d.formats [] f;
        hostname = hostname;
        os_version = os_version;
        model = model;
        still = still;
      },
    )
