-- ===== src/Config/Validate.antt =====
-- internal/config/config.go: validate. An error is a value with what its text names; `devices[i]`
-- stands for a device without a name.
use jconfig.Prelude.{
  ℕ, ◌+◌, Bool, true, false, not, ◌&&◌, List, [], ◌∷◌, ◌++◌, map, ◌==◌, nat_equality, list_equality,
  if◌then◌else◌,
}
use jconfig.Prelude.Answer.{Answer, good, bad}
use jconfig.Strings.Basic.{Text, codes}
use jconfig.Config.Host.{Host}
use jconfig.Config.Key.{decode_key}
use jconfig.Config.Types.{
  Matcher, Repo, Device, Config, management_addr, sensitive_shown, skip_host_key_check,
}
use jconfig.Config.Vendors.{vendor_routeros, known_vendor, transports, supports, extension}

-- The errors of one device, in the order in which validate looks for them.
pub data DeviceProblem : Type 0 where
  name_required : DeviceProblem
  duplicate_name : DeviceProblem
  host_required : DeviceProblem
  unknown_vendor : Text → DeviceProblem
  unsupported_transport : Text → Text → DeviceProblem
  username_required : DeviceProblem
  no_credentials : DeviceProblem
  two_keys : DeviceProblem
  bad_key : Text → DeviceProblem
  unknown_format : Text → Text → DeviceProblem
  show_sensitive_useless : DeviceProblem
  known_hosts_empty : DeviceProblem
  known_hosts_missing : Text → Text → DeviceProblem
  key_file_missing : Text → DeviceProblem
  bad_pattern : Text → Text → DeviceProblem

pub data Problem : Type 0 where
  listen_required : Problem
  same_listen : Problem
  repo_path_required : Problem
  unknown_layout : Text → Problem
  push_without_url : Problem
  push_two_keys : Problem
  bad_push_key : Text → Problem
  no_devices : Problem
  of_device : ℕ → Text → DeviceProblem → Problem

abbrev pub null {ℓ} : {A : Type ℓ} → List A → Bool
null [] = true
null (x ∷ xs) = false

-- `if b { errs = append(errs, e) }`
abbrev pub when {ℓ} : {A : Type ℓ} → Bool → A → List A
when true e = e ∷ []
when false e = []

abbrev pub when_bad {ℓ} : {A B : Type ℓ} → Answer B → (Text → A) → List A
when_bad (good b) f = []
when_bad (bad e) f = f e ∷ []

unfoldable pub repo_problems : Host → Repo → List Problem
unfolding decode_key
repo_problems host r =
    when (r.path == []) repo_path_required
    ++ (when (not (r.layout == codes "flat") && not (r.layout == codes "group"))
          (unknown_layout r.layout)
        ++ (when (r.push.enabled && r.push.url == []) push_without_url
            ++ (when (not (r.push.key == []) && not (r.push.key_file == [])) push_two_keys
                ++ (if r.push.key == []
                    then []
                    else when_bad (decode_key host r.push.key) bad_push_key))))

unfoldable pub name_problems : List Text → Device → List DeviceProblem
unfolding supports
name_problems seen d =
    if d.name == [] then name_required ∷ [] else when (supports seen d.name) duplicate_name

unfoldable pub vendor_problems : Device → List DeviceProblem
unfolding known_vendor transports supports
vendor_problems d =
    if not (known_vendor d.vendor)
    then unknown_vendor d.vendor ∷ []
    else when (not (supports (transports d.vendor) d.transport))
        (unsupported_transport d.transport d.vendor)

unfoldable pub credential_problems : Host → Device → List DeviceProblem
unfolding decode_key
credential_problems host d =
    when (d.username == []) username_required
    ++ (when (d.password == [] && d.key_file == [] && d.key == []) no_credentials
        ++ (when (not (d.key == []) && not (d.key_file == [])) two_keys
            ++ (if d.key == [] then [] else when_bad (decode_key host d.key) bad_key)))

unfoldable pub format_problems : Text → List Text → List DeviceProblem
unfolding extension
format_problems vendor [] = []
format_problems vendor (f ∷ fs) =
    when (extension vendor f == []) (unknown_format f vendor) ++ format_problems vendor fs

unfoldable pub file_problems : Host → Device → List DeviceProblem
unfolding skip_host_key_check
file_problems host d =
    (if skip_host_key_check d
      then []
      else if d.known_hosts == []
      then known_hosts_empty ∷ []
      else when_bad (host.stat d.known_hosts) (known_hosts_missing d.known_hosts))
    ++ (if d.key_file == [] then [] else when_bad (host.stat d.key_file) key_file_missing)

-- The patterns: what fails to compile is an error, the rest become the device's matchers.
unfoldable pub pattern_problems : Host → List Text → List DeviceProblem
pattern_problems host [] = []
pattern_problems host (pat ∷ pats) =
    when_bad (host.compile pat) (bad_pattern pat) ++ pattern_problems host pats

abbrev pub with_matcher : Answer Matcher → List Matcher → List Matcher
with_matcher (bad e) res = res
with_matcher (good re) res = re ∷ res

unfoldable pub compiled : Host → List Text → List Matcher
compiled host [] = []
compiled host (pat ∷ pats) = with_matcher (host.compile pat) (compiled host pats)

-- One round of the loop over the devices; `seen` holds the names before it.
unfoldable pub device_problems : Host → List Text → Device → List DeviceProblem
unfolding name_problems vendor_problems credential_problems format_problems sensitive_shown
    file_problems pattern_problems
device_problems host seen d =
    name_problems seen d
    ++ (when (d.host == []) host_required
        ++ (vendor_problems d
            ++ (credential_problems host d
                ++ ((if known_vendor d.vendor then format_problems d.vendor d.formats else [])
                    ++ (when (sensitive_shown d && not (d.vendor == vendor_routeros))
                          show_sensitive_useless
                        ++ (file_problems host d ++ pattern_problems host d.remove_lines))))))

unfoldable pub all_problems : Host → ℕ → List Text → List Device → List Problem
unfolding device_problems
all_problems host i seen [] = []
all_problems host i seen (d ∷ ds) =
    map (of_device i d.name) (device_problems host seen d)
    ++ all_problems host (i + 1) (d.name ∷ seen) ds

unfoldable pub problems : Host → Config → List Problem
unfolding management_addr repo_problems all_problems
problems host c =
    when (c.listen == []) listen_required
    ++ (when (not (management_addr c == []) && management_addr c == c.listen) same_listen
        ++ (repo_problems host c.repo
            ++ (when (null c.devices) no_devices ++ all_problems host 0 [] c.devices)))

-- The matchers that the loop appends to a device.
unfoldable pub compile_device : Host → Device → Device
unfolding compiled
compile_device host d = record d { remove_re = d.remove_re ++ compiled host d.remove_lines }
