-- ===== src/Runner/Message.antt =====
-- internal/runner/runner.go: the commit message, the line count and the short hash.
use jconfig.Prelude.{
  ℕ, ◌+◌, List, [], ◌∷◌, ◌++◌, map, length, take, ◌==◌, nat_equality, list_equality, ltb,
  if◌then◌else◌,
}
use Prim.Native.String.{String}
use jconfig.Prelude.Dict.{Dict}
use jconfig.Prelude.Time.{Time, is_zero}
use jconfig.Strings.Basic.{Text, codes, trim_right}
use jconfig.Strings.Order.{sort_by}
use jconfig.Config.Types.{Device}
use jconfig.Device.Result.{Fetched}
use jconfig.Device.Sanitize.{is_newline, newline}

-- strings.Count(s, "\n")
unfoldable pub count_newlines : Text → ℕ
count_newlines [] = 0
count_newlines (c ∷ s) = (if c == b'\n' then 1 else 0) + count_newlines s

unfoldable pub count_lines : Text → ℕ
unfolding count_newlines
count_lines s = if s == [] then 0 else count_newlines (trim_right is_newline s) + 1

unfoldable pub short : Text → Text
short hash = if ltb 8 (length hash) then take 8 hash else hash

-- A line of the message that is left out when its value is empty.
abbrev line_unless_empty : String → Text → Text
line_unless_empty label value = if value == [] then [] else codes label ++ (value ++ newline)

abbrev or_unknown : Text → Text
or_unknown by = if by == [] then codes "unknown" else by

unfoldable pub path_lines : List Text → Text
path_lines [] = []
path_lines (p ∷ ps) = codes "  " ++ (p ++ (newline ++ path_lines ps))

-- `format_time` is the RFC 3339 rendering of an instant in UTC, from package time.
unfoldable pub commit_message : (Time → Text) → Text → Device → Fetched → Dict Text Text → Text
unfolding path_lines
commit_message format_time prefix d res files =
    let hostname = if res.hostname == d.name then [] else res.hostname in
    prefix
    ++ (d.name
        ++ (codes ": configuration changed\n\n"
            ++ (codes "device:    "
                ++ (d.name
                    ++ (codes " ("
                        ++ (d.host
                            ++ (codes ")\n"
                                ++ (line_unless_empty "hostname:  " hostname
                                    ++ (line_unless_empty "model:     " res.model
                                        ++ (line_unless_empty "version:   " res.os_version
                                            ++ (codes "vendor:    "
                                                ++ (d.vendor
                                                    ++ (newline
                                                        ++ (codes "transport: "
                                                            ++ (d.transport
                                                            ++ (newline
                                                            ++ ((if is_zero res.last_commit
                                                            then []
                                                            else codes "committed on device: "
                                                            ++ (format_time res.last_commit
                                                            ++ (codes " by "
                                                            ++ (or_unknown res.last_commit_by
                                                            ++ newline))))
                                                            ++ (codes "files:\n"
                                                            ++ path_lines (
                                                            sort_by (λ p. p)
                                                            (map (λ e. e.0)
                                                            files))))))))))))))))))))
