-- ===== src/Tests/RouterosTests.antt =====
-- internal/routeros: runs, and the theorems at concrete inputs.
use jconfig.Prelude.{
  ℕ, ◌+◌, true, false, List, [], ◌∷◌, ◌++◌, ◌≡◌, refl, none, all, nat_equality, list_equality,
  list_beq,
}
use jconfig.Prelude.Answer.{Answer, good, bad}
use jconfig.Strings.Basic.{Text, codes}
use jconfig.Strings.Lines.{IsFree}
use jconfig.Config.Types.{Device}
use jconfig.Config.Vendors.{vendor_routeros, format_export}
use jconfig.Device.Result.{Fetched, Outcome, ok, failed}
use jconfig.Driver.Loop.{output, Peer, empty_result}
use jconfig.Routeros.Export.{is_banner, parse_export}
use jconfig.Routeros.Metadata.{filter_lines}
use jconfig.Routeros.Fetch.{fetch_routeros}
use jconfig.Routeros.Stable.{IsPlain, parse_export-same}
use jconfig.Tests.Samples.{device}

abbrev first_banner : Text
first_banner = codes "# 2026-09-05 10:23:45 by RouterOS 7.14.2"

abbrev second_banner : Text
second_banner = codes "# jan/15/2024 1:23:45 by RouterOS 6.49.7"

abbrev rest : Text
rest = codes "/ip address\nadd address=10.0.0.1/24"

first_is_banner : is_banner first_banner ≡ true
unfolding is_banner codes
first_is_banner = refl

second_is_banner : is_banner second_banner ≡ true
unfolding is_banner codes
second_is_banner = refl

first_line : IsFree b'\n' first_banner
unfolding all codes
first_line = refl

second_line : IsFree b'\n' second_banner
unfolding all codes
second_line = refl

plain : IsPlain first_banner × IsPlain second_banner × IsPlain rest
unfolding all codes
plain = ((refl, refl), (refl, refl), (refl, refl))

abbrev text_of : Answer Text → Text
text_of (good c) = c
text_of (bad e) = []

abbrev first_text : Text
first_text = text_of (parse_export (first_banner ++ (b'\n' ∷ rest)))

abbrev second_text : Text
second_text = text_of (parse_export (second_banner ++ (b'\n' ∷ rest)))

first_runs : parse_export (first_banner ++ (b'\n' ∷ rest)) ≡ good first_text
unfolding parse_export codes list_beq
first_runs = refl

second_runs : parse_export (second_banner ++ (b'\n' ∷ rest)) ≡ good second_text
unfolding parse_export codes list_beq
second_runs = refl

text_runs : first_text ≡ rest
unfolding parse_export codes list_beq
text_runs = refl

parse_export-same_example : first_text ≡ second_text
parse_export-same_example =
    parse_export-same first_banner second_banner rest first_text second_text first_is_banner
      second_is_banner first_line second_line plain.0 plain.1 plain.2 first_runs second_runs

abbrev printed : List Text
printed = codes "  uptime: 3w2d" ∷ codes "  version: 7.14.2 (stable)" ∷ codes "      extra" ∷ []

abbrev keys : List Text
keys = codes "version" ∷ []

filter_runs :
    filter_lines keys false printed ≡ codes "  version: 7.14.2 (stable)" ∷ codes "      extra" ∷ []
unfolding filter_lines codes list_beq
filter_runs = refl

abbrev router : Device
router = record device { vendor = vendor_routeros; formats = format_export ∷ [] }

abbrev echo : Peer ℕ
echo = record {
  dial = λ n d user. (none, n + 1);
  run = λ n cmd. (output (first_banner ++ (b'\n' ∷ rest)), n + 1);
  close = λ n. n;
}

abbrev result_of : Outcome × ℕ → Fetched
result_of (ok res, n) = res
result_of (failed e, n) = empty_result []

abbrev fetched : Fetched
fetched = result_of (fetch_routeros echo router 0)

-- Dialling, one export, three blocks and the identity.
fetch_runs : fetch_routeros echo router 0 ≡ (ok fetched, 6)
unfolding fetch_routeros codes list_beq
fetch_runs = refl
