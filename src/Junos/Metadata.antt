-- ===== src/Junos/Metadata.antt =====
-- internal/junos/junos.go: what a device says about itself, from its XML.
use jconfig.Prelude.{
  ℕ, suc, ◌*◌, List, [], ◌∷◌, Option, none, some, ◌==◌, nat_equality, list_equality, if◌then◌else◌,
}
use jconfig.Prelude.Int.{ℤ, pos, ltb_ℤ, int_equality}
use jconfig.Prelude.Time.{Time}
use jconfig.Strings.Basic.{Text}
use jconfig.Strings.Space.{trim_space}
use jconfig.Strings.Number.{parse_int}
use jconfig.Device.Result.{Fetched}
use jconfig.Junos.Xml.{Xml, Package, SoftwareInformation, CommitEntry}

-- time.Parse with the layout "2006-01-02 15:04:05 MST", and UTC
pub record Clock : Type 0 where
  pub parse_time : Text → Option Time

unfoldable pub first_non_empty : List Text → Text
first_non_empty [] = []
first_non_empty (v ∷ vs) = if v == [] then first_non_empty vs else v

-- The text before the first "]", if there is one.
abbrev pub cons_some : ℕ → Option Text → Option Text
cons_some c none = none
cons_some c (some s) = some (c ∷ s)

unfoldable pub before_bracket : Text → Option Text
before_bracket [] = none
before_bracket (c ∷ s) =
    let rest = before_bracket s in if c == b']' then some [] else cons_some c rest

abbrev pub match_here : Option Text → Option Text → Option Text
match_here none later = later
match_here (some []) later = later
match_here (some (c ∷ s)) later = some (c ∷ s)

-- versionRE: the first match of \[([^\]]+)\], its group
unfoldable pub bracketed : Text → Option Text
unfolding before_bracket
bracketed [] = none
bracketed (c ∷ s) =
    let later = bracketed s in if c == b'[' then match_here (before_bracket s) later else later

-- The loop over the packages.
unfoldable pub package_version : List Package → Text → Text
unfolding bracketed trim_space
package_version [] v = v
package_version (p ∷ ps) v = elim (bracketed p.comment) [
  | none ↦ package_version ps v
  | some m ↦ trim_space m
]

abbrev pub with_version : Option SoftwareInformation → Fetched → Fetched
with_version none res = res
with_version (some si) res =
    let v = trim_space si.junos_version in
    record res {
      hostname = trim_space si.host_name;
      model = trim_space (first_non_empty (si.product_model ∷ si.product_name ∷ []));
      os_version = (if v == [] then package_version si.packages v else v);
    }

unfoldable pub apply_version : Xml → Fetched → Text → Fetched
unfolding first_non_empty package_version trim_space
apply_version xml res raw = with_version (xml.software_information raw) res

-- The choice of the newest commit: sequence number 0, else the least.
abbrev pub better : Option CommitEntry → CommitEntry → CommitEntry
better none h = h
better (some b) h = if ltb_ℤ h.sequence_number b.sequence_number then h else b

unfoldable pub best_commit : Option CommitEntry → List CommitEntry → Option CommitEntry
best_commit best [] = best
best_commit best (h ∷ hs) =
    let later = best_commit (some (better best h)) hs in
    if h.sequence_number == pos 0 then some h else later

-- The time of a commit, if it can be read: seconds since the epoch, else a date.
abbrev pub parsed_date : Option Time → Fetched → Fetched
parsed_date none res = res
parsed_date (some t) res = record res { last_commit = t }

abbrev pub or_date : Clock → CommitEntry → Option ℤ → Fetched → Fetched
or_date clock h (some (pos (suc n))) res = record res { last_commit = pos (suc n * 1_000_000_000) }
or_date clock h _ res = parsed_date (clock.parse_time (trim_space h.date_time)) res

abbrev pub with_commit : Clock → Option CommitEntry → Fetched → Fetched
with_commit clock none res = res
with_commit clock (some h) res =
    or_date clock h (parse_int (trim_space h.seconds))
      (record res { last_commit_by = trim_space h.user })

abbrev pub history_of : Option (List CommitEntry) → List CommitEntry
history_of none = []
history_of (some hs) = hs

unfoldable pub apply_commit : Xml → Clock → Fetched → Text → Fetched
unfolding best_commit trim_space parse_int
apply_commit xml clock res raw =
    with_commit clock (best_commit none (history_of (xml.commit_information raw))) res
