-- ===== src/Config/Sound.antt =====
-- What a configuration that validate accepts is like.
use jconfig.Prelude.{
  ℕ, ◌+◌, Bool, true, false, not, ◌&&◌, List, [], ◌∷◌, ◌++◌, map, ◌≡◌, ◌⊎◌, inl, inr, refl, sym, ap,
  arith, any, All, ◌==◌, nat_equality, list_equality, text_eq, Bool-cases, if◌then◌else◌,
}
use jconfig.Config.Host.{Host}
use jconfig.Strings.Basic.{Text}
use jconfig.Config.Types.{Device, Config, management_addr}
use jconfig.Config.Vendors.{known_vendor, transports, supports, extension}
use jconfig.Config.Validate.{
  when, null, name_required, unknown_vendor, Problem, listen_required, same_listen, no_devices,
  repo_problems, name_problems, vendor_problems, credential_problems, format_problems,
  device_problems, all_problems, problems, compile_device,
}
use jconfig.Config.Load.{loaded, verdict, merged, merge_all, compile_all, load}
use jconfig.Config.Defaults.{default_scheduler, default_config}

append_nil : {A : Type 0} (xs ys : List A) → xs ++ ys ≡ [] → (xs ≡ []) × (ys ≡ [])
append_nil [] ys h = (refl, h)
append_nil (x ∷ xs) ys h = absurd cc

when_nil : {A : Type 0} (b : Bool) (a : A) → when b a ≡ [] → b ≡ false
when_nil true a h = absurd cc
when_nil false a h = refl

if_nil : {A : Type 0} (b : Bool) (xs : List A) → b ≡ true → (if b then xs else []) ≡ [] → xs ≡ []
if_nil true xs e h = h
if_nil false xs e h = absurd cc

-- What validate makes sure of, for one device.
pub record IsServable (d : Device) : Type 0 where
  pub named : (d.name == []) ≡ false
  pub hosted : (d.host == []) ≡ false
  pub vendor_known : known_vendor d.vendor ≡ true
  pub transport_known : supports (transports d.vendor) d.transport ≡ true
  pub user_set : (d.username == []) ≡ false
  pub formats_known : All (λ f. (extension d.vendor f == []) ≡ false) d.formats

-- Whether no name occurs twice.
unfoldable pub distinct_names : List Device → Bool
unfolding supports
distinct_names [] = true
distinct_names (d ∷ ds) = not (supports (map (λ e. e.name) ds) d.name) && distinct_names ds

unseen : List Text → List Device → Bool
unfolding supports
unseen seen [] = true
unseen seen (d ∷ ds) = not (supports seen d.name) && unseen seen ds

module _ (host : Host) where
  format_problems_nil :
      (vendor : Text) (fs : List Text)
      → format_problems vendor fs ≡ []
      → All (λ f. (extension vendor f == []) ≡ false) fs
  unfolding format_problems
  format_problems_nil vendor [] h = tt
  format_problems_nil vendor (f ∷ fs) h =
      let (a, b) = append_nil _ _ h in (when_nil _ _ a, format_problems_nil vendor fs b)

  name_problems_nil :
      (seen : List Text) (d : Device)
      → name_problems seen d ≡ []
      → ((d.name == []) ≡ false) × (supports seen d.name ≡ false)
  unfolding name_problems
  name_problems_nil seen d h = go (Bool-cases (d.name == []))
    where
      go :
          ((d.name == []) ≡ true) ⊎ ((d.name == []) ≡ false)
          → ((d.name == []) ≡ false) × (supports seen d.name ≡ false)
      go (inl e) = absurd (let k : (name_required ∷ []) ≡ [] = rw e at h in cc)
      go (inr e) = (e, when_nil _ _ (rw e at h))

  vendor_problems_nil :
      (d : Device)
      → vendor_problems d ≡ []
      → (known_vendor d.vendor ≡ true) × (supports (transports d.vendor) d.transport ≡ true)
  unfolding vendor_problems
  vendor_problems_nil d h = go (Bool-cases (known_vendor d.vendor))
    where
      go :
          (known_vendor d.vendor ≡ true) ⊎ (known_vendor d.vendor ≡ false)
          → (known_vendor d.vendor ≡ true) × (supports (transports d.vendor) d.transport ≡ true)
      go (inl e) =
          let k = when_nil (not (supports (transports d.vendor) d.transport)) _ (rw e at h) in
          (e, ground arith)
      go (inr e) = absurd (let k : (unknown_vendor d.vendor ∷ []) ≡ [] = rw e at h in cc)

  user_set_of_nil : (d : Device) → credential_problems host d ≡ [] → (d.username == []) ≡ false
  unfolding credential_problems
  user_set_of_nil d h = when_nil _ _ (append_nil _ _ h).0

  device_problems_nil :
      (seen : List Text) (d : Device)
      → device_problems host seen d ≡ []
      → IsServable d × (supports seen d.name ≡ false)
  unfolding device_problems
  device_problems_nil seen d h =
      let (names, h1) = append_nil _ _ h in
      let (hosts, h2) = append_nil _ _ h1 in
      let (vendor, h3) = append_nil _ _ h2 in
      let (cred, h4) = append_nil _ _ h3 in
      let (fmts, h5) = append_nil _ _ h4 in
      let (name, new) = name_problems_nil seen d names in
      let (known, transport) = vendor_problems_nil d vendor in
      let user = user_set_of_nil d cred in
      (
        record {
          named = name;
          hosted = when_nil _ _ hosts;
          vendor_known = known;
          transport_known = transport;
          user_set = user;
          formats_known = format_problems_nil d.vendor d.formats (if_nil _ _ known fmts);
        },
        new,
      )

  map_nil : {A B : Type 0} (f : A → B) (xs : List A) → map f xs ≡ [] → xs ≡ []
  map_nil f [] h = refl
  map_nil f (x ∷ xs) h = absurd cc

  -- A name seen before is not seen again, so what follows does not have the name either.
  unseen_cons :
      (name : Text) (seen : List Text) (ds : List Device)
      → unseen (name ∷ seen) ds ≡ true
      → (unseen seen ds ≡ true) × (supports (map (λ e. e.name) ds) name ≡ false)
  unfolding unseen supports any
  unseen_cons name seen [] h = (refl, refl)
  unseen_cons name seen (d ∷ ds) h =
      let rest : unseen (name ∷ seen) ds ≡ true = ground arith in
      let ih = unseen_cons name seen ds rest in
      let apart : (name == d.name) ≡ false = ground arith in
      let apart' : (d.name == name) ≡ false =
        ground (arith, text_eq name d.name, text_eq d.name name) in
      (ground (arith, ih), ground (arith, ih, apart'))

  all_problems_nil :
      (i : ℕ) (seen : List Text) (ds : List Device)
      → all_problems host i seen ds ≡ []
      → All IsServable ds × (unseen seen ds ≡ true) × (distinct_names ds ≡ true)
  unfolding all_problems unseen distinct_names
  all_problems_nil i seen [] h = (tt, refl, refl)
  all_problems_nil i seen (d ∷ ds) h =
      let (first, later) = append_nil _ _ h in
      let (servable, new) = device_problems_nil seen d (map_nil _ _ first) in
      let (rest, fresh, apart) = all_problems_nil (i + 1) (d.name ∷ seen) ds later in
      let (unseen_rest, alone) = unseen_cons d.name seen ds fresh in
      ((servable, rest), ground arith, ground arith)

  compile_device-IsServable : (d : Device) → IsServable d → IsServable (compile_device host d)
  unfolding compile_device
  compile_device-IsServable d h = record {
    named = h.named;
    hosted = h.hosted;
    vendor_known = h.vendor_known;
    transport_known = h.transport_known;
    user_set = h.user_set;
    formats_known = h.formats_known;
  }

  compile_all-IsServable :
      (ds : List Device) → All IsServable ds → All IsServable (compile_all host ds)
  unfolding compile_all
  compile_all-IsServable [] h = tt
  compile_all-IsServable (d ∷ ds) h =
      (compile_device-IsServable d h.0, compile_all-IsServable ds h.1)

  map_name-compile_all :
      (ds : List Device) → map (λ d. d.name) (compile_all host ds) ≡ map (λ d. d.name) ds
  unfolding compile_all compile_device
  map_name-compile_all [] = refl
  map_name-compile_all (d ∷ ds) = ap (λ ns. d.name ∷ ns) (map_name-compile_all ds)

  distinct_names-compile_all :
      (ds : List Device) → distinct_names ds ≡ true → distinct_names (compile_all host ds) ≡ true
  unfolding distinct_names compile_all
  distinct_names-compile_all [] h = refl
  distinct_names-compile_all (d ∷ ds) h =
      rw (map_name-compile_all ds)
        (unfold compile_device in ground (arith, distinct_names-compile_all ds))

  verdict_loaded :
      (es : List Problem) (c cfg : Config) → verdict es c ≡ loaded cfg → (es ≡ []) × (c ≡ cfg)
  verdict_loaded [] c cfg h = (refl, cc)
  verdict_loaded (e ∷ es) c cfg h = absurd cc

  device_part : (c : Config) → problems host c ≡ [] → all_problems host 0 [] c.devices ≡ []
  unfolding problems
  device_part c e =
      let (_, e1) = append_nil (when (c.listen == []) listen_required) _ e in
      let shared = not (management_addr c == []) && management_addr c == c.listen in
      let (_, e2) = append_nil (when shared same_listen) _ e1 in
      let (_, e3) = append_nil (repo_problems host c.repo) _ e2 in
      (append_nil (when (null c.devices) no_devices) _ e3).1

  -- Every device of a configuration that Load accepts has a name that no other device has, a host,
  -- a user name, a known vendor, a transport of that vendor, and only formats that have a file
  -- extension at that vendor.
  pub load-IsServable :
      (decoded cfg : Config)
      → load host decoded ≡ loaded cfg
      → All IsServable cfg.devices × (distinct_names cfg.devices ≡ true)
  unfolding load
  load-IsServable decoded cfg h =
      let (none_found, same) = verdict_loaded (problems host (merged host decoded)) _ cfg h in
      let ds = (merged host decoded).devices in
      let (servable, seen, apart) =
        all_problems_nil 0 [] ds (device_part (merged host decoded) none_found) in
      rw (sym same) (compile_all-IsServable ds servable, distinct_names-compile_all ds apart)

  -- The devices of a loaded configuration: merged, completed and compiled, in the file's order.
  pub load-devices :
      (decoded cfg : Config)
      → load host decoded ≡ loaded cfg
      → cfg.devices
        ≡ compile_all host
            (merge_all host decoded.defaults (default_scheduler decoded.scheduler) decoded.devices)
  unfolding load merged default_config
  load-devices decoded cfg h =
      ap (λ c. c.devices) (sym (verdict_loaded (problems host (merged host decoded)) _ cfg h).1)
