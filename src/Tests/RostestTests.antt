-- ===== src/Tests/RostestTests.antt =====
-- internal/rostest: runs, and the theorem at a concrete device.
use jconfig.Prelude.{true, false, [], ◌∷◌, ◌≡◌, refl, some, nat_equality, list_equality, list_beq}
use jconfig.Strings.Basic.{codes}
use jconfig.Config.Types.{Device}
use jconfig.Config.Vendors.{vendor_routeros, format_export, format_verbose}
use jconfig.Device.Result.{Fetched, ok}
use jconfig.Routeros.Export.{login}
use jconfig.Routeros.Fetch.{fetch_routeros}
use jconfig.Rostest.Canned.{pass_word, terse_body, with_banner}
use jconfig.Rostest.Server.{
  exec, other, reply, wrote, exited, channel_closed, account, set_fail_command, set_export,
  run_command, handle_session, public_key_callback,
}
use jconfig.Rostest.Whole.{device_peer, untouched, IsWhole, fetch_routeros-IsWhole}
use jconfig.Tests.Samples.{device}

-- An operator who sets the console's flags already.
abbrev router : Device
router = record device {
  vendor = vendor_routeros;
  username = codes "backup+cte";
  password = pass_word;
  formats = format_export ∷ format_verbose ∷ [];
  show_sensitive = some true;
}

backup_account : account router.username ≡ codes "backup"
unfolding account codes
backup_account = refl

key_runs :
    public_key_callback (codes "admin+ct") (untouched [])
    ≡ (false, untouched (codes "admin+ct" ∷ []))
unfolding public_key_callback codes list_beq
key_runs = refl

-- A request that is not exec is refused, and the session goes on to the first one that is.
session_runs :
    handle_session (untouched []) (other ∷ exec (codes " /export terse ") ∷ other ∷ [])
    ≡ reply false ∷ reply true ∷ wrote (with_banner terse_body) ∷ exited 0 ∷ channel_closed ∷ []
unfolding handle_session codes list_beq
session_runs = refl

failing_runs :
    run_command (set_fail_command (codes "export") (untouched [])) (codes "/export")
    ≡ (codes "bad command name /export (line 1 column 1)\n", 0)
unfolding run_command codes list_beq set_fail_command
failing_runs = refl

replaced_runs :
    run_command (set_export (codes "/ip\n") (untouched [])) (codes "/export") ≡ (codes "/ip\n", 0)
unfolding run_command codes list_beq set_export
replaced_runs = refl

fetch_routeros-IsWhole_example :
    (res : Fetched) × (fetch_routeros device_peer router (untouched [])
      ≡ (ok res, untouched (login router.username ∷ [])))
    × IsWhole router res
fetch_routeros-IsWhole_example = fetch_routeros-IsWhole [] router backup_account refl
