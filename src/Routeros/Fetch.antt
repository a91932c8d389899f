-- ===== src/Routeros/Fetch.antt =====
-- internal/routeros/routeros.go: one fetch, and what a successful one brings.
use jconfig.Prelude.{
  false, [], ◌≡◌, refl, sym, ap, ◌∙◌, Option, none, some, ◌==◌, nat_equality, list_equality,
}
use jconfig.Strings.Basic.{Text}
use jconfig.Strings.Space.{trim_space}
use jconfig.Config.Types.{Device, sensitive_shown}
use jconfig.Config.Vendors.{supports}
use jconfig.Device.Result.{Error, staged, stage_fetch, Fetched, Outcome, ok, failed}
use jconfig.Driver.Loop.{
  Asked, content, refused, Configs, complete, stopped, Output, output, lost, Peer, parsed,
  empty_result, fetch_formats, fetch_formats-FormatKept, FormatKept, KeepsNoBlank,
}
use jconfig.Driver.Blank.{refused≢content, parsed-content, ok_inj, failed≢ok}
use jconfig.Routeros.Export.{login, export_command, parse_export}
use jconfig.Routeros.Metadata.{apply_metadata, with_hostname}

abbrev pub answered : Text → Output → Asked
answered cmd (lost e) = refused (staged stage_fetch e)
answered cmd (output out) = parsed cmd (parse_export out)

answered-content :
    (cmd : Text) (o : Output) (c : Text) → answered cmd o ≡ content c → (trim_space c == []) ≡ false
answered-content cmd (lost e) c h = absurd (refused≢content h)
answered-content cmd (output out) c h = parsed-content cmd (parse_export out) c h

with_hostname-configs :
    (o : Option Text) (res : Fetched) → (with_hostname o res).configs ≡ res.configs
with_hostname-configs none res = refl
with_hostname-configs (some text) res = refl

module _ {S : Type 0} (peer : Peer S) where
  -- One round of the loop over the formats.
  unfoldable pub ask_export : Device → S → Text → Asked × S
  unfolding export_command parse_export sensitive_shown
  ask_export d s format =
      let cmd = export_command format (sensitive_shown d) in
      let (out, s') = peer.run s cmd in (answered cmd out, s')

  abbrev pub described : Configs × S → Outcome × S
  described (stopped e, s) = (failed e, s)
  described (complete configs, s) =
      let (res, s') = apply_metadata peer s (empty_result configs) in (ok res, s')

  abbrev pub on_connection : Device → Option Error × S → Outcome × S
  on_connection d (some e, s) = (failed e, s)
  on_connection d (none, s) =
      let (outcome, s') = described (fetch_formats (ask_export d) s d.formats []) in
      (outcome, peer.close s')

  -- fetch
  unfoldable pub fetch_routeros : Device → S → Outcome × S
  unfolding fetch_formats ask_export apply_metadata login
  fetch_routeros d s = on_connection d (peer.dial s d (login d.username))

  ask_export-KeepsNoBlank : (d : Device) → KeepsNoBlank (ask_export d)
  unfolding ask_export
  ask_export-KeepsNoBlank d s f c h =
      let cmd = export_command f (sensitive_shown d) in answered-content cmd (peer.run s cmd).0 c h

  apply_metadata-configs :
      (s : S) (res : Fetched) → (apply_metadata peer s res).0.configs ≡ res.configs
  unfolding apply_metadata
  apply_metadata-configs s res = with_hostname-configs _ _

  described-configs :
      (x : Configs × S) (res : Fetched) → (described x).0 ≡ ok res → x.0 ≡ complete res.configs
  described-configs (stopped e, s) res h = absurd (failed≢ok h)
  described-configs (complete configs, s) res h =
      ap complete
        (sym (apply_metadata-configs s (empty_result configs)) ∙ ap (λ r. r.configs) (ok_inj h))

  on_connection-FormatKept :
      (d : Device) (r : Option Error × S) (res : Fetched) (f : Text)
      → (on_connection d r).0 ≡ ok res
      → FormatKept f (supports d.formats f) [] res.configs
  on_connection-FormatKept d (some e, s) res f h = absurd (failed≢ok h)
  on_connection-FormatKept d (none, s) res f h =
      fetch_formats-FormatKept (ask_export d) s d.formats [] res.configs f
        (ask_export-KeepsNoBlank d)
        (described-configs (fetch_formats (ask_export d) s d.formats []) res h)

  -- If a fetch of a RouterOS device succeeds, each requested format has an export that is not blank,
  -- and no other format has one.
  pub fetch_routeros-FormatKept :
      (d : Device) (s s' : S) (res : Fetched) (f : Text)
      → fetch_routeros d s ≡ (ok res, s')
      → FormatKept f (supports d.formats f) [] res.configs
  unfolding fetch_routeros
  fetch_routeros-FormatKept d s s' res f h =
      on_connection-FormatKept d (peer.dial s d (login d.username)) res f (ap (λ r. r.0) h)
