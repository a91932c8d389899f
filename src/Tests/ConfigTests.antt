-- ===== src/Tests/ConfigTests.antt =====
-- internal/config: runs on a sparse inventory, and the theorems at concrete inputs.
use jconfig.Prelude.{
  true, false, [], ◌∷◌, map, ◌≡◌, refl, none, some, All, ◌==◌, nat_equality, list_equality,
  list_beq, if◌then◌else◌,
}
use jconfig.Prelude.Int.{pos}
use jconfig.Prelude.Dict.{Dict, get}
use jconfig.Prelude.Answer.{good, bad}
use jconfig.Strings.Basic.{Text, codes}
use jconfig.Strings.Clean.{join_path}
use jconfig.Config.Host.{Host}
use jconfig.Config.Types.{Device, Config}
use jconfig.Config.Vendors.{format_text, format_set, extension}
use jconfig.Config.Key.{decode_key}
use jconfig.Config.Load.{Loaded, loaded, refused, load}
use jconfig.Config.Sound.{IsServable, distinct_names, load-IsServable}
use jconfig.Config.Filled.{IsComplete, load-IsComplete}
use jconfig.Runner.Backup.{files_of}
use jconfig.Runner.Names.{repo_path}
use jconfig.Runner.Names.Files.{files_of-get}
use jconfig.Device.Header.{distinct}
use jconfig.Tests.Samples.{device, config}

abbrev pub host : Host
host = record {
  home_dir = some (codes "/root");
  account_home = none;
  lookup_env = λ name. none;
  stat = λ path. good [];
  compile = λ pat. if pat == codes "(" then bad (codes "missing )") else good (λ line. false);
  decode_base64 = λ s. bad (codes "illegal base64 data");
}

-- A device as the decoder leaves it when the document says no more than it must.
abbrev pub sparse : Text → Device
sparse name = record device {
  name = name;
  port = pos 0;
  vendor = [];
  transport = [];
  group = [];
  formats = [];
  interval = pos 0;
  timeout = pos 0;
  insecure_ignore_host_key = none;
}

abbrev pub decoded : Config
decoded = record config {
  listen = [];
  defaults = record (sparse []) { host = []; username = []; password = [] };
  devices = sparse (codes "mx1") ∷ sparse (codes "mx2") ∷ [];
}

abbrev config_of : Loaded → Config
config_of (loaded c) = c
config_of (refused es) = decoded

abbrev result : Config
result = config_of (load host decoded)

load_runs : load host decoded ≡ loaded result
unfolding load list_beq codes join_path
load_runs = refl

load_files :
    (map (λ d. d.port) result.devices ≡ pos 22 ∷ pos 22 ∷ [])
    × (map (λ d. d.formats) result.devices
        ≡ (format_text ∷ format_set ∷ []) ∷ (format_text ∷ format_set ∷ []) ∷ [])
    × (map (λ d. d.known_hosts) result.devices
        ≡ codes "/root/.ssh/known_hosts" ∷ codes "/root/.ssh/known_hosts" ∷ [])
unfolding load list_beq codes join_path
load_files = (refl, refl, refl)

load-IsServable_example : All IsServable result.devices × (distinct_names result.devices ≡ true)
load-IsServable_example = load-IsServable host decoded result load_runs

load-IsComplete_example : All IsComplete result.devices
load-IsComplete_example = load-IsComplete host decoded result load_runs

abbrev labels : Dict Text Text
labels = (codes "site", codes "fra") ∷ []

abbrev default_labels : Dict Text Text
default_labels = (codes "site", codes "ams") ∷ (codes "role", codes "edge") ∷ []

abbrev pem : Text
pem = codes " -----BEGIN KEY-----\n"

decode_key_runs : decode_key host pem ≡ good (codes "-----BEGIN KEY-----\n")
unfolding decode_key list_beq codes
decode_key_runs = refl

abbrev contents : Dict Text Text
contents = (format_text, codes "system {\n}\n") ∷ (format_set, codes "set system\n") ∷ []

has_text : (extension device.vendor format_text == []) ≡ false
unfolding extension list_beq codes
has_text = refl

has_set : (extension device.vendor format_set == []) ≡ false
unfolding extension list_beq codes
has_set = refl

distinct_formats : distinct (map (λ e. e.0) contents) ≡ true
unfolding distinct list_beq codes
distinct_formats = refl

files_of-get_example :
    get (repo_path (codes "flat") device format_set) (files_of (codes "flat") device contents [])
    ≡ get format_set contents
files_of-get_example =
    files_of-get (codes "flat") device format_set has_set contents (has_text, (has_set, tt))
      distinct_formats
