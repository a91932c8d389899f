-- ===== src/Junos/Rpc/Closing.antt =====
-- internal/junos and internal/routeros: the connection when a fetch ends.
use jconfig.Prelude.{
  Bool, false, ◌≡◌, inl, inr, refl, Option, none, some, ◌==◌, nat_equality, list_equality,
  Bool-cases,
}
use jconfig.Prelude.Answer.{Answer, good, bad}
use jconfig.Config.Types.{Device}
use jconfig.Config.Vendors.{transport_netconf}
use jconfig.Device.Result.{Error}
use jconfig.Driver.Loop.{Peer}
use jconfig.Junos.Xml.{Xml}
use jconfig.Junos.Metadata.{Clock}
use jconfig.Junos.Cli as Cli
use jconfig.Junos.Cli.{ask_cli, fetch_ssh}
use jconfig.Junos.Session.{Wire, Session, open_netconf}
use jconfig.Junos.Rpc.{on_session, on_connection, fetch_netconf, fetch_transport}
use jconfig.Routeros.Export.{login}
use jconfig.Routeros.Fetch as Routeros
use jconfig.Routeros.Fetch.{fetch_routeros}
use jconfig.Sshx.Closed.{ClosesSockets}

module _ {S : Type 0} (open_at : S → Bool) (peer : Peer S) (laws : ClosesSockets open_at peer) where
  cli_closes :
      (xml : Xml) (clock : Clock) (d : Device) (r : Option Error × S)
      → ((e : Error) → r.0 ≡ some e → open_at r.1 ≡ false)
      → open_at (Cli.on_connection peer xml clock d r).1 ≡ false
  cli_closes xml clock d (some e, s) h = h e refl
  cli_closes xml clock d (none, s) h = laws.closed _

  netconf_closes :
      (wire : Wire S) (xml : Xml) (clock : Clock) (d : Device) (r : Answer (Session S) × S)
      → open_at (on_session peer wire xml clock d r).1 ≡ false
  netconf_closes wire xml clock d (bad e, w) = laws.closed _
  netconf_closes wire xml clock d (good s, w) = laws.closed _

  connection_closes :
      (wire : Wire S) (xml : Xml) (clock : Clock) (d : Device) (r : Option Error × S)
      → ((e : Error) → r.0 ≡ some e → open_at r.1 ≡ false)
      → open_at (on_connection peer wire xml clock d r).1 ≡ false
  connection_closes wire xml clock d (some e, s) h = h e refl
  connection_closes wire xml clock d (none, s) h =
      netconf_closes wire xml clock d (open_netconf wire xml s)

  routeros_closes :
      (d : Device) (r : Option Error × S)
      → ((e : Error) → r.0 ≡ some e → open_at r.1 ≡ false)
      → open_at (Routeros.on_connection peer d r).1 ≡ false
  routeros_closes d (some e, s) h = h e refl
  routeros_closes d (none, s) h = laws.closed _

  -- However a fetch ends, over either transport of a Junos device or from a RouterOS device, no
  -- socket is open after it if none was before, when the connection closes its socket on Close and
  -- on a dial that fails.
  pub fetch-closes :
      (wire : Wire S) (xml : Xml) (clock : Clock) (d : Device) (s : S)
      → open_at s ≡ false
      → (open_at (fetch_transport peer wire xml clock d s).1 ≡ false)
        × (open_at (fetch_routeros peer d s).1 ≡ false)
  unfolding fetch_transport fetch_netconf fetch_ssh fetch_routeros
  fetch-closes wire xml clock d s h = (
    elim (Bool-cases (d.transport == transport_netconf)) [
      | inl netconf ↦ rw netconf (
          connection_closes wire xml clock d (peer.dial s d d.username)
            (λ e k. laws.failed_dial s d d.username e h k))
      | inr cli ↦ rw cli (
          cli_closes xml clock d (peer.dial s d d.username)
            (λ e k. laws.failed_dial s d d.username e h k))
    ],
    routeros_closes d (peer.dial s d (login d.username))
        (λ e k. laws.failed_dial s d (login d.username) e h k),
  )
