-- ===== src/Daemon/Print.antt =====
-- main.go: printSummary, and the index page of internal/httpapi/server.go. The alignment of columns
-- and the rendering of durations are parameters.
use jconfig.Prelude.{
  ℕ, zero, suc, ◌+◌, ◌*◌, ◌/◌, Bool, true, false, not, List, [], ◌∷◌, ◌++◌, map, Option, none, some,
  length, take, ◌==◌, nat_equality, list_equality, if◌then◌else◌,
}
use jconfig.Prelude.Int.{ℤ, pos, negsuc, leb_ℤ, ◌-ℤ◌}
use jconfig.Prelude.Time.{Time, Duration}
use jconfig.Strings.Basic.{Text, codes}
use jconfig.Strings.Decimal.{decimal}
use jconfig.Runner.Types.{DeviceResult, RunSummary}
use jconfig.Daemon.Http.{Status, running, disabled, failed_times, pending, fine, Row}

-- The nearest multiple of a unit, halves away from zero: d.Round(unit).
abbrev pub round_ℕ : ℕ → ℕ → ℕ
round_ℕ unit n = (n + unit / 2) / unit * unit

abbrev pub negated : ℕ → ℤ
negated zero = pos 0
negated (suc n) = negsuc n

unfoldable pub round_to : ℕ → Duration → Duration
round_to unit (pos n) = pos (round_ℕ unit n)
round_to unit (negsuc n) = negated (round_ℕ unit (suc n))

abbrev pub bool_text : Bool → Text
bool_text true = codes "true"
bool_text false = codes "false"

-- tabwriter's rendering of rows, and time.Duration's String
module _ (align : List (List Text) → Text) (duration_text : Duration → Text) where
  abbrev pub summary_detail : DeviceResult → Text
  summary_detail d =
      if not d.succeeded
      then codes "[" ++ (d.stage ++ (codes "] " ++ d.error))
      else if d.changed
      then codes "commit " ++ take 8 d.commit
      else []

  abbrev pub summary_result : DeviceResult → Text
  summary_result d = if not d.succeeded then codes "FAILED" else codes "ok"

  unfoldable pub summary_row : DeviceResult → List Text
  unfolding round_to
  summary_row d =
      d.device
      ∷ summary_result d
      ∷ bool_text d.changed
      ∷ duration_text (round_to 1_000_000 d.duration)
      ∷ summary_detail d
      ∷ []

  abbrev pub summary_titles : List Text
  summary_titles =
      codes "DEVICE" ∷ codes "RESULT" ∷ codes "CHANGED" ∷ codes "DURATION" ∷ codes "DETAIL" ∷ []

  abbrev pub totals : RunSummary → Text
  totals sum =
      codes "\n"
      ++ (decimal sum.total
          ++ (codes " devices, "
              ++ (decimal sum.succeeded
                  ++ (codes " ok, "
                      ++ (decimal sum.failed
                          ++ (codes " failed, "
                              ++ (decimal sum.changed
                                  ++ (codes " changed, "
                                      ++ (duration_text (round_to 1_000_000 sum.duration)
                                          ++ codes "\n")))))))))

  abbrev pub push_line : Text → Text
  push_line e = if e == [] then [] else codes "push failed: " ++ (e ++ codes "\n")

  -- printSummary
  unfoldable pub print_summary : RunSummary → Text
  unfolding summary_row decimal
  print_summary sum =
      align (summary_titles ∷ map summary_row sum.devices)
      ++ (totals sum ++ push_line sum.push_error)

  unfoldable pub ago : Time → Option Time → Text
  unfolding round_to
  ago now none = codes "-"
  ago now (some t) = duration_text (round_to 1_000_000_000 (now -ℤ t)) ++ codes " ago"

  abbrev pub due_in_text : Duration → Text
  due_in_text d = if leb_ℤ d (pos 0) then codes "due" else codes "in " ++ duration_text d

  unfoldable pub until : Time → Option Time → Text
  unfolding round_to
  until now none = codes "-"
  until now (some t) = due_in_text (round_to 1_000_000_000 (t -ℤ now))

  abbrev pub status_text : Status → Text
  status_text running = codes "running"
  status_text disabled = codes "disabled"
  status_text (failed_times n) = codes "FAILED(" ++ (decimal n ++ codes ")")
  status_text pending = codes "pending"
  status_text fine = codes "ok"

  unfoldable pub index_row : Time → Row → List Text
  unfolding ago until decimal
  index_row now row =
      row.state.name
      ∷ row.state.host
      ∷ status_text row.status
      ∷ ago now row.state.last_success
      ∷ ago now row.state.last_changed
      ∷ until now row.state.next_run
      ∷ row.detail
      ∷ []

  abbrev pub index_titles : List Text
  index_titles =
      codes "DEVICE"
      ∷ codes "HOST"
      ∷ codes "STATUS"
      ∷ codes "LAST SUCCESS"
      ∷ codes "LAST CHANGE"
      ∷ codes "NEXT RUN"
      ∷ codes "DETAIL"
      ∷ []

  -- The page of handleIndex.
  unfoldable pub index_page : Text → Text → Time → List Row → Text
  unfolding index_row decimal
  index_page repo_path metrics_addr now rows =
      codes "jconfig - network configuration backup\n\nrepository: "
      ++ (repo_path
          ++ (codes "\ndevices:    "
              ++ (decimal (length rows)
                  ++ (codes "\n\n"
                      ++ (align (index_titles ∷ map (index_row now) rows)
                          ++ (codes
                                "\nendpoints: /devices  /healthz  POST /backup[?device=NAME][&wait=false]\n"
                              ++ (codes "metrics are served separately on "
                                  ++ (metrics_addr ++ codes "\n"))))))))

  -- The page of the metrics socket.
  unfoldable pub landing_text : Text → Text
  landing_text path = codes "jconfig metrics endpoint\n\n" ++ (path ++ codes "\n/healthz\n/ready\n")
