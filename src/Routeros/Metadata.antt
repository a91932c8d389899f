-- ===== src/Routeros/Metadata.antt =====
-- internal/routeros/metadata.go: the header block and what a device says of itself.
use jconfig.Prelude.{
  ℕ, Bool, false, ◌&&◌, ◌||◌, List, [], ◌∷◌, ◌++◌, Option, none, some, keep, ◌==◌, nat_equality,
  list_equality, leb, if◌then◌else◌,
}
use jconfig.Prelude.Dict.{Dict, get, put}
use jconfig.Strings.Basic.{Text, codes, split, join, replace_all}
use jconfig.Strings.Space.{trim_space}
use jconfig.Config.Vendors.{supports}
use jconfig.Device.Result.{Fetched}
use jconfig.Driver.Loop.{Output, output, lost, Peer}
use jconfig.Junos.Metadata.{first_non_empty}
use jconfig.Routeros.Export.{is_re_space, is_digit, skip_run, strip_ansi, cli_error, lines_of}

-- keyRE: ^\s*([a-z0-9-]+):\s?(.*)$, its two groups
abbrev is_key_byte : ℕ → Bool
is_key_byte c = (leb b'a' c && leb c b'z') || is_digit c || c == b'-'

abbrev optional_space : Text → Text
optional_space [] = []
optional_space (c ∷ s) = if is_re_space c then s else c ∷ s

abbrev add_byte : ℕ → Option (Text × Text) → Option (Text × Text)
add_byte c none = none
add_byte c (some (k, v)) = some (c ∷ k, v)

-- The rest of a key and the value, once there is one byte of a key.
unfoldable pub key_rest : Text → Option (Text × Text)
key_rest [] = none
key_rest (c ∷ s) =
    let rest = key_rest s in
    if c == b':'
    then some ([], optional_space s)
    else if is_key_byte c
    then add_byte c rest
    else none

abbrev key_from : Text → Option (Text × Text)
key_from [] = none
key_from (c ∷ s) = if is_key_byte c then add_byte c (key_rest s) else none

unfoldable pub key_line : Text → Option (Text × Text)
unfolding key_rest skip_run
key_line l = key_from (skip_run is_re_space l)

-- The state `keep` of filterKeys after a line.
abbrev pub keeps : List Text → Bool → Text → Option (Text × Text) → Bool
keeps keys keep l (some (k, v)) = supports keys k
keeps keys keep l none = if trim_space l == [] then false else keep

unfoldable pub filter_lines : List Text → Bool → List Text → List Text
unfolding key_line supports trim_space
filter_lines keys keep [] = []
filter_lines keys keep (l ∷ ls) =
    let rest = filter_lines keys (keeps keys keep l (key_line l)) ls in
    if keeps keys keep l (key_line l) then l ∷ rest else rest

unfoldable pub filter_keys : Text → List Text → Text
unfolding filter_lines split join replace_all
filter_keys text keys = join (codes "\n") (filter_lines keys false (lines_of text))

abbrev pub note_key : Option (Text × Text) → Dict Text Text → Dict Text Text
note_key none out = out
note_key (some (k, v)) out = put k (trim_space v) out

unfoldable pub key_values : List Text → Dict Text Text → Dict Text Text
unfolding key_line trim_space
key_values [] out = out
key_values (l ∷ ls) out = key_values ls (note_key (key_line l) out)

unfoldable pub parse_keys : Text → Dict Text Text
unfolding key_values split replace_all
parse_keys text = key_values (lines_of text) []

abbrev pub resource_command : Text
resource_command = codes "/system resource print"

abbrev pub board_command : Text
board_command = codes "/system routerboard print"

abbrev resource_keys : List Text
resource_keys =
    codes "version"
    ∷ codes "factory-software"
    ∷ codes "build-time"
    ∷ codes "board-name"
    ∷ codes "platform"
    ∷ codes "architecture-name"
    ∷ codes "cpu"
    ∷ codes "cpu-count"
    ∷ codes "total-memory"
    ∷ codes "total-hdd-space"
    ∷ []

abbrev board_keys : List Text
board_keys =
    codes "routerboard"
    ∷ codes "model"
    ∷ codes "revision"
    ∷ codes "serial-number"
    ∷ codes "firmware-type"
    ∷ codes "factory-firmware"
    ∷ codes "current-firmware"
    ∷ []

abbrev license_keys : List Text
license_keys =
    codes "software-id"
    ∷ codes "system-id"
    ∷ codes "nlevel"
    ∷ codes "level"
    ∷ codes "features"
    ∷ codes "limit-upgrade-to"
    ∷ []

unfoldable pub header_commands : List (Text × List Text)
header_commands =
    (resource_command, resource_keys)
    ∷ (board_command, board_keys)
    ∷ (codes "/system license print", license_keys)
    ∷ []

-- The text of an answer that is no complaint.
abbrev pub unless_complaint : Text → Option Text → Option Text
unless_complaint text (some e) = none
unless_complaint text none = some text

abbrev pub usable : Output → Option Text
usable (lost e) = none
usable (output out) = unless_complaint (strip_ansi out) (cli_error (strip_ansi out))

-- What one header command adds: a block, and its text for the values below.
abbrev pub header_block : List Text → Option Text → Text
header_block keys none = []
header_block keys (some text) = filter_keys text keys

abbrev pub keep_raw : Text → Option Text → Dict Text Text → Dict Text Text
keep_raw cmd none raw = raw
keep_raw cmd (some text) raw = put cmd text raw

-- m[k], empty if it is missing
abbrev pub value_of : Option Text → Text
value_of none = []
value_of (some v) = v

abbrev pub with_hostname : Option Text → Fetched → Fetched
with_hostname none res = res
with_hostname (some text) res = record res {
  hostname = value_of (get (codes "name") (parse_keys text));
}

module _ {S : Type 0} (peer : Peer S) where
  -- The loop over the header commands.
  unfoldable pub read_header :
      S → List (Text × List Text) → Dict Text Text → List Text × (Dict Text Text × S)
  unfolding filter_keys strip_ansi cli_error
  read_header s [] raw = ([], (raw, s))
  read_header s ((cmd, keys) ∷ cmds) raw =
      let (out, s') = peer.run s cmd in
      let (blocks, (raw', s'')) = read_header s' cmds (keep_raw cmd (usable out) raw) in
      (header_block keys (usable out) ∷ blocks, (raw', s''))

  unfoldable pub apply_metadata : S → Fetched → Fetched × S
  unfolding read_header header_commands parse_keys first_non_empty
  apply_metadata s res =
      let (blocks, (raw, s')) = read_header s header_commands [] in
      let resource = parse_keys (value_of (get resource_command raw)) in
      let board = parse_keys (value_of (get board_command raw)) in
      let named = record res {
        header_blocks = res.header_blocks ++ blocks;
        os_version = value_of (get (codes "version") resource);
        model = first_non_empty (
            value_of (get (codes "model") board)
            ∷ value_of (get (codes "board-name") resource)
            ∷ value_of (get (codes "platform") resource)
            ∷ []);
      } in
      let (out, s'') = peer.run s' (codes "/system identity print") in
      (with_hostname (usable out) named, s'')
