-- ===== src/Config/Filled.antt =====
-- What the defaults leave no device without.
use jconfig.Prelude.{
  ◌*◌, true, false, List, [], ◌∷◌, ◌≡◌, ◌⊎◌, inl, inr, refl, sym, ap, ◌∙◌, Option, none, some,
  arith, any, All, ◌==◌, nat_equality, list_equality, text_eq, Bool-cases,
}
use jconfig.Prelude.Int.{ℤ, pos, int_equality}
use jconfig.Prelude.Dict.{get}
use jconfig.Config.Host.{Host}
use jconfig.Strings.Basic.{Text}
use jconfig.Config.Types.{second, Scheduler, Device, Config}
use jconfig.Config.Vendors.{
  VendorInfo, junos_info, routeros_info, vendors, known_vendor, transports_of, transports, supports,
  vendor_junos, vendor_routeros, transport_ssh, transport_netconf,
}
use jconfig.Config.Defaults.{
  set_int, set_str, set_list, port_of, vendor_defaults, default_device, default_scheduler,
  merge_device,
}
use jconfig.Config.Validate.{null, compile_device}
use jconfig.Config.Load.{loaded, merge_all, compile_all, load}
use jconfig.Config.Sound.{IsServable, load-IsServable, load-devices}

-- No field that a default fills is unset.
pub record IsComplete (d : Device) : Type 0 where
  pub port_set : (d.port == pos 0) ≡ false
  pub formats_set : null d.formats ≡ false
  pub interval_set : (d.interval == pos 0) ≡ false
  pub timeout_set : (d.timeout == pos 0) ≡ false

get_vendor :
    (vendor : Text)
    → known_vendor vendor ≡ true
    → (get vendor vendors ≡ some junos_info) ⊎ (get vendor vendors ≡ some routeros_info)
unfolding known_vendor
get_vendor vendor h = ground (arith, text_eq vendor_junos vendor, text_eq vendor_routeros vendor)

set_int-set : (n def : ℤ) → (def == pos 0) ≡ false → (set_int n def == pos 0) ≡ false
unfolding set_int
set_int-set n def h = elim (Bool-cases (n == pos 0)) [ inl e ↦ rw e h | inr e ↦ rw (e, e) ]

junos_port :
    (t : Text)
    → supports junos_info.transports t ≡ true
    → (port_of (get t junos_info.default_ports) == pos 0) ≡ false
unfolding supports get any
junos_port t h = ground (arith, text_eq transport_ssh t, text_eq transport_netconf t)

routeros_port :
    (t : Text)
    → supports routeros_info.transports t ≡ true
    → (port_of (get t routeros_info.default_ports) == pos 0) ≡ false
unfolding supports get any
routeros_port t h = ground (arith, text_eq transport_ssh t)

set_list-set : {A : Type 0} (xs def : List A) → null def ≡ false → null (set_list xs def) ≡ false
set_list-set [] def h = h
set_list-set (x ∷ xs) def h = refl

-- The vendor's entry fills the port and the formats.
vendor_filled :
    (o : Option VendorInfo) (d : Device)
    → (o ≡ some junos_info) ⊎ (o ≡ some routeros_info)
    → supports (transports_of o) d.transport ≡ true
    → ((vendor_defaults o d).port == pos 0 ≡ false) × (null (vendor_defaults o d).formats ≡ false)
vendor_filled o d (inl e) h =
    let h' : supports junos_info.transports d.transport ≡ true = rw e at h in
    rw e (set_int-set d.port _ (junos_port d.transport h'), set_list-set d.formats _ refl)
vendor_filled o d (inr e) h =
    let h' : supports routeros_info.transports d.transport ≡ true = rw e at h in
    rw e (set_int-set d.port _ (routeros_port d.transport h'), set_list-set d.formats _ refl)

-- The vendor's entry leaves the vendor and the transport.
vendor_kept :
    (o : Option VendorInfo) (d : Device)
    → ((vendor_defaults o d).vendor ≡ d.vendor) × ((vendor_defaults o d).transport ≡ d.transport)
vendor_kept none d = (refl, refl)
vendor_kept (some v) d = (refl, refl)

subst_transports :
    (v t : Text)
    → supports (transports v) t ≡ true
    → supports (transports_of (get v vendors)) t ≡ true
unfolding transports
subst_transports v t h = h

compile_device-IsComplete :
    (host : Host) (d : Device) → IsComplete d → IsComplete (compile_device host d)
unfolding compile_device
compile_device-IsComplete host d h = record {
  port_set = h.port_set;
  formats_set = h.formats_set;
  interval_set = h.interval_set;
  timeout_set = h.timeout_set;
}

module _ (host : Host) where
  default_device-IsComplete :
      (s : Scheduler) (d : Device)
      → (s.interval == pos 0) ≡ false
      → known_vendor (default_device host s d).vendor ≡ true
      → supports (transports (default_device host s d).vendor) (default_device host s d).transport
        ≡ true
      → IsComplete (default_device host s d)
  unfolding default_device
  default_device-IsComplete s d h known fits =
      let named = record d {
        vendor = set_str d.vendor vendor_junos;
        transport = set_str d.transport transport_ssh;
      } in
      let o = get named.vendor vendors in
      let (vendor, transport) = vendor_kept o named in
      let known' : known_vendor named.vendor ≡ true = ap known_vendor (sym vendor) ∙ known in
      let fits' : supports (transports named.vendor) named.transport ≡ true = cc in
      let (port, fmts) =
        vendor_filled o named (get_vendor named.vendor known')
          (subst_transports named.vendor named.transport fits') in
      record {
        port_set = port;
        formats_set = fmts;
        interval_set = set_int-set (vendor_defaults o named).interval s.interval h;
        timeout_set = set_int-set (vendor_defaults o named).timeout (pos (120 * second)) refl;
      }

  devices-IsComplete :
      (def : Device) (s : Scheduler) (ds : List Device)
      → (s.interval == pos 0) ≡ false
      → All IsServable (compile_all host (merge_all host def s ds))
      → All IsComplete (compile_all host (merge_all host def s ds))
  unfolding compile_all merge_all
  devices-IsComplete def s [] h k = tt
  devices-IsComplete def s (d ∷ ds) h k = (
    compile_device-IsComplete host (default_device host s (merge_device d def)) (
        default_device-IsComplete s (merge_device d def) h
          (unfold compile_device in k.0.vendor_known)
          (unfold compile_device in k.0.transport_known)),
    devices-IsComplete def s ds h k.1,
  )

  -- Every device of a configuration that Load accepts has a port, a format, an interval and a
  -- timeout that are not zero or empty.
  pub load-IsComplete :
      (decoded cfg : Config) → load host decoded ≡ loaded cfg → All IsComplete cfg.devices
  load-IsComplete decoded cfg h =
      let (servable, _) = load-IsServable host decoded cfg h in
      let e = load-devices host decoded cfg h in
      rw e (
        devices-IsComplete decoded.defaults (default_scheduler decoded.scheduler) decoded.devices
          (unfold default_scheduler in
            set_int-set decoded.scheduler.interval (pos (3_600 * second)) refl)
          (rw e at servable))
