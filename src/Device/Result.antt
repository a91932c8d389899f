-- ===== src/Device/Result.antt =====
-- The result of a fetch, its staged error, and the header above a stored configuration.
use jconfig.Prelude.{
  List, [], ◌∷◌, ◌++◌, Option, none, some, ◌==◌, nat_equality, list_equality, if◌then◌else◌,
}
use jconfig.Prelude.Int.{ℤ}
use jconfig.Prelude.Dict.{Dict, get, put}
use jconfig.Strings.Basic.{Text, codes, replace_all, trim_right, split}
use jconfig.Strings.Space.{trim_space}
use jconfig.Config.Types.{Device, Matcher, header_enabled}
use jconfig.Config.Vendors.{commented_formats}
use jconfig.Device.Sanitize.{sanitize, is_newline, is_blank}

abbrev pub stage_connect : Text
stage_connect = codes "connect"

abbrev pub stage_auth : Text
stage_auth = codes "auth"

abbrev pub stage_fetch : Text
stage_fetch = codes "fetch"

abbrev pub stage_parse : Text
stage_parse = codes "parse"

-- An error chain: a plain error, one tagged with its stage, or one that wraps another (%w).
pub data Error : Type 0 where
  plain : Text → Error
  staged : Text → Error → Error
  wrapped : Text → Error → Error

-- Error(): a staged error does not repeat its stage.
unfoldable pub message : Error → Text
message (plain m) = m
message (staged stage e) = message e
message (wrapped m e) = m ++ message e

-- StageOf: the outermost staged error of the chain, which is what errors.As finds.
unfoldable pub stage_of : Error → Text
stage_of (staged stage e) = stage
stage_of (wrapped m e) = stage_of e
stage_of (plain m) = stage_fetch

pub record Fetched : Type 0 where
  pub configs : Dict Text Text
  pub hostname : Text
  pub model : Text
  pub os_version : Text
  pub header_blocks : List Text
  pub last_commit : ℤ
  pub last_commit_by : Text
  pub took : ℤ

-- CommentBlock
abbrev pub comment_line : Text → Text
comment_line l = trim_right is_blank (codes "# " ++ l) ++ (b'\n' ∷ [])

unfoldable pub comment_lines : List Text → Text
comment_lines [] = []
comment_lines (l ∷ ls) = comment_line l ++ comment_lines ls

unfoldable pub comment_block : Text → Text
unfolding comment_lines
comment_block s =
    let body = trim_right is_newline (replace_all s (codes "\r\n") (codes "\n")) in
    if trim_space body == [] then [] else comment_lines (split b'\n' body)

-- Header
unfoldable pub header_text : List Text → Text
unfolding comment_block
header_text [] = []
header_text (block ∷ blocks) = comment_block block ++ header_text blocks

abbrev pub prefixed : Text → Option Text → Text → Dict Text Text → Dict Text Text
prefixed head none format configs = configs
prefixed head (some content) format configs =
    if content == [] then configs else put format (head ++ content) configs

-- The loop of applyHeader over the vendor's commented formats.
unfoldable pub prefix_formats : Text → List Text → Dict Text Text → Dict Text Text
prefix_formats head [] configs = configs
prefix_formats head (format ∷ rest) configs =
    prefix_formats head rest (prefixed head (get format configs) format configs)

unfoldable pub apply_header : Device → Fetched → Fetched
unfolding prefix_formats header_text
apply_header d r =
    let head = header_text r.header_blocks in
    if head == []
    then r
    else record r { configs = prefix_formats head (commented_formats d.vendor) r.configs }

-- The loop of Run over the fetched configurations.
unfoldable pub sanitize_all : List Matcher → Dict Text Text → Dict Text Text
sanitize_all remove [] = []
sanitize_all remove ((format, content) ∷ rest) =
    (format, sanitize content remove) ∷ sanitize_all remove rest

pub data Outcome : Type 0 where
  ok : Fetched → Outcome
  failed : Error → Outcome

-- Run, on what the driver's fetch returned; `took` is the time it took.
unfoldable pub run : Device → ℤ → Outcome → Outcome
unfolding sanitize_all apply_header
run d took (failed e) = failed e
run d took (ok res) =
    let clean = record res { configs = sanitize_all d.remove_re res.configs } in
    let headed = if header_enabled d then apply_header d clean else clean in
    ok (record headed { took = took })
