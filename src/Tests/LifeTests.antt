-- ===== src/Tests/LifeTests.antt =====
-- The daemon: a tick, a backup on demand and a reload; the metrics file and the sockets.
use jconfig.Prelude.{
  ℕ, Bool, false, not, List, [], ◌∷◌, map, ◌≡◌, refl, ◌∙◌, Option, none, some, arith, keep, any,
  ◌==◌, nat_equality, list_equality, list_beq, text_eq,
}
use jconfig.Prelude.Int.{pos}
use jconfig.Prelude.Dict.{Dict, get, put, get-put}
use jconfig.Prelude.Answer.{good}
use jconfig.Prelude.Time.{Duration}
use jconfig.Strings.Basic.{Text, codes}
use jconfig.Device.Result.{ok}
use jconfig.Metrics.{new}
use jconfig.Runner.Run.{RunTimes, backed_up}
use jconfig.Runner.Backup.Health.{TableAgrees}
use jconfig.Daemon.Mux.{Request, post_method}
use jconfig.Daemon.Http.{handle_backup}
use jconfig.Daemon.Life.{Chances, Event, tick, hangup, managed, new_runner, live_through}
use jconfig.Daemon.Life.Health.{daemon-TableAgrees}
use jconfig.Daemon.Answers.{backup_status, handle_backup-status}
use jconfig.Daemon.MetricsFile.{
  FileSystem, FileLaws, temporary, write_metrics_file, write_metrics_file-unchanged,
}
use jconfig.Daemon.Listen.{
  HttpConfig, server_failed, Network, ListenLaws, serve_http, serve_http-BothFree,
}
use jconfig.Tests.Samples.{config, runner, counting, no_time, readings, fetched}
use jconfig.Tests.ConfigTests.{host, decoded}

abbrev no_jitter : Text → Duration → Duration
no_jitter name j = pos 0

abbrev times : RunTimes
times = record { started = pos 1; elapsed = pos 2; status_time = pos 3; finished = pos 4 }

abbrev chances : Chances
chances = record { times = times; fates = map (λ d. (d, backed_up (ok fetched) readings)) }

abbrev request : Text → Request
request name = record { method = post_method; path = codes "/backup"; device = name; wait = [] }

abbrev events : List (Event ℕ)
events =
    tick (pos 10) chances
    ∷ managed chances (request (codes "mx1"))
    ∷ hangup no_jitter (pos 20) (some decoded) (good 7)
    ∷ []

daemon-TableAgrees_example : TableAgrees (
    live_through counting no_time host
      (codes "jconfig.yml")
      (codes "/metrics")
      events
      (new_runner no_jitter (pos 5) config 0 new))
daemon-TableAgrees_example =
    daemon-TableAgrees counting no_time host (codes "jconfig.yml") (codes "/metrics") no_jitter
      (pos 5) config 0 new events

handle_backup-status_example :
    (handle_backup counting no_time times chances.fates
      (request (codes "nobody"))
      runner).response.status
    ≡ backup_status (request (codes "nobody")) runner
handle_backup-status_example =
    handle_backup-status counting no_time times chances.fates (request (codes "nobody")) runner

unknown_device_is_refused : backup_status (request (codes "nobody")) runner ≡ 400
unfolding backup_status any codes list_beq
unknown_device_is_refused = refl

-- Files by their names; nothing can be renamed on this disk.
abbrev Disk : Type 0
Disk = Dict Text Text

abbrev fs : FileSystem Disk
fs = record {
  create_file = λ s name. (none, put name [] s);
  encode = λ s name family. (none, put name family s);
  close_file = λ s name. (none, s);
  rename_file = λ s from to. (some (codes "read-only"), s);
  remove_file = λ s name. put name [] s;
}

abbrev target : Text
target = codes "node.prom"

abbrev content : Disk → Text → Option Text
content s name = get name s

flipped : (a b : Text) → (a == b) ≡ false → (b == a) ≡ false
flipped a b h = ground (arith, text_eq a b, text_eq b a)

put_elsewhere :
    (name v : Text) (s : Disk)
    → (name == temporary target) ≡ false
    → content (put (temporary target) v s) name ≡ content s name
put_elsewhere name v s h =
    get-put (temporary target) name v s ∙ (rw (flipped name (temporary target) h) refl)

laws : FileLaws fs target content
laws = record {
  creates = λ s name h. put_elsewhere name [] s h;
  encodes = λ s name family h. put_elsewhere name family s h;
  closes = λ s name h. refl;
  removes = λ s name h. put_elsewhere name [] s h;
  rename_fails = λ s name e h. refl;
}

abbrev disk : Disk
disk = (target, codes "old") ∷ []

abbrev after : Disk
after = (write_metrics_file fs target (good (codes "new" ∷ [])) disk).1

write_runs :
    write_metrics_file fs target (good (codes "new" ∷ [])) disk ≡ (some (codes "read-only"), after)
unfolding write_metrics_file put codes list_beq
write_runs = refl

write_metrics_file-unchanged_example : content after target ≡ content disk target
write_metrics_file-unchanged_example =
    write_metrics_file-unchanged fs target content laws target (unfold codes list_beq in refl)
      (good (codes "new" ∷ [])) disk after (codes "read-only") write_runs

-- The addresses that are bound.
abbrev Bound : Type 0
Bound = List Text

abbrev without : Text → Bound → Bound
without addr s = keep (λ a. not (a == addr)) s

abbrev is_bound : Bound → Text → Bool
is_bound s addr = any (λ a. a == addr) s

abbrev network : Network Bound
network = record {
  listen = λ s addr. (none, addr ∷ s);
  close_listener = λ s addr. without addr s;
  shutdown = λ s addr. (none, without addr s);
}

without_bound : (s : Bound) (addr : Text) → is_bound (without addr s) addr ≡ false
unfolding any keep
without_bound [] addr = refl
without_bound (a ∷ s) addr = ground (arith, without_bound s addr)

without_other :
    (s : Bound) (addr other : Text)
    → is_bound s other ≡ false
    → is_bound (without addr s) other ≡ false
unfolding any keep
without_other [] addr other h = refl
without_other (a ∷ s) addr other h = ground (arith, without_other s addr other)

abbrev http : HttpConfig
http = record {
  metrics_addr = codes ":9639";
  metrics_path = codes "/metrics";
  management_addr = codes "127.0.0.1:9640";
}

listen_laws : ListenLaws network http (server_failed (codes "broken")) is_bound
unfolding any
listen_laws = record {
  refused = λ s addr e other h. absurd cc;
  unrelated = λ s addr other h. rw (flipped other addr h) refl;
  closes = λ s addr. without_bound s addr;
  keeps_other = λ s addr other h. (without_other s addr other h, without_other s addr other h);
  shuts = λ s addr. without_bound s addr;
}

serve_http-BothFree_example :
    (is_bound (serve_http network http (server_failed (codes "broken")) []).1 http.metrics_addr
      ≡ false)
    × (is_bound (serve_http network http (server_failed (codes "broken")) []).1 http.management_addr
        ≡ false)
serve_http-BothFree_example =
    serve_http-BothFree network http (server_failed (codes "broken")) is_bound listen_laws []
      (unfold any in refl) (unfold any in refl) (unfold codes list_beq in refl)
