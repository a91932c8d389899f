-- ===== src/Config/Vendors.antt =====
-- internal/config/vendors.go: what each vendor's driver can be asked for.
use jconfig.Prelude.{
  Bool, true, false, List, [], ◌∷◌, map, ◌≡◌, refl, Option, none, some, is_some, keep, any, ◌==◌,
  nat_equality, list_equality, list_beq,
}
use jconfig.Prelude.Int.{ℤ, pos}
use jconfig.Prelude.Dict.{Dict, get}
use jconfig.Strings.Basic.{Text, codes}
use jconfig.Strings.Order.{sort_by}

abbrev pub vendor_junos : Text
vendor_junos = codes "junos"

abbrev pub vendor_routeros : Text
vendor_routeros = codes "routeros"

abbrev pub transport_ssh : Text
transport_ssh = codes "ssh"

abbrev pub transport_netconf : Text
transport_netconf = codes "netconf"

abbrev pub format_text : Text
format_text = codes "text"

abbrev pub format_set : Text
format_set = codes "set"

abbrev pub format_xml : Text
format_xml = codes "xml"

abbrev pub format_export : Text
format_export = codes "export"

abbrev pub format_verbose : Text
format_verbose = codes "verbose"

abbrev pub format_terse : Text
format_terse = codes "terse"

pub record FormatInfo : Type 0 where
  pub ext : Text
  pub commented : Bool

pub record VendorInfo : Type 0 where
  pub transports : List Text
  pub formats : Dict Text FormatInfo
  pub default_formats : List Text
  pub default_ports : Dict Text ℤ

abbrev pub junos_info : VendorInfo
junos_info = record {
  transports = transport_ssh ∷ transport_netconf ∷ [];
  formats =
      (format_text, record { ext = codes ".conf"; commented = true })
      ∷ (format_set, record { ext = codes ".set"; commented = true })
      ∷ (format_xml, record { ext = codes ".xml"; commented = false })
      ∷ [];
  default_formats = format_text ∷ format_set ∷ [];
  default_ports = (transport_ssh, pos 22) ∷ (transport_netconf, pos 830) ∷ [];
}

abbrev pub routeros_info : VendorInfo
routeros_info = record {
  transports = transport_ssh ∷ [];
  formats =
      (format_export, record { ext = codes ".rsc"; commented = true })
      ∷ (format_verbose, record { ext = codes ".verbose.rsc"; commented = true })
      ∷ (format_terse, record { ext = codes ".terse.rsc"; commented = true })
      ∷ [];
  default_formats = format_export ∷ [];
  default_ports = (transport_ssh, pos 22) ∷ [];
}

unfoldable pub vendors : Dict Text VendorInfo
vendors = (vendor_junos, junos_info) ∷ (vendor_routeros, routeros_info) ∷ []

unfoldable pub sorted_keys : {V : Type 0} → Dict Text V → List Text
unfolding sort_by
sorted_keys m = sort_by (λ k. k) (map (λ e. e.0) m)

unfoldable pub vendor_names : List Text
unfolding sorted_keys vendors
vendor_names = sorted_keys vendors

unfoldable pub known_vendor : Text → Bool
unfolding get vendors
known_vendor vendor = is_some (get vendor vendors)

abbrev pub transports_of : Option VendorInfo → List Text
transports_of none = []
transports_of (some v) = v.transports

unfoldable pub transports : Text → List Text
unfolding get vendors
transports vendor = transports_of (get vendor vendors)

unfoldable pub formats : Text → List Text
unfolding get vendors sorted_keys
formats vendor = elim (get vendor vendors) [ none ↦ [] | some v ↦ sorted_keys v.formats ]

unfoldable pub commented_formats : Text → List Text
unfolding get vendors sort_by keep
commented_formats vendor = elim (get vendor vendors) [
  | none ↦ []
  | some v ↦ sort_by (λ k. k) (map (λ e. e.0) (keep (λ e. e.1.commented) v.formats))
]

-- A format that the map lacks reads as the zero value, whose extension is empty.
abbrev pub ext_of : Option FormatInfo → Text
ext_of none = []
ext_of (some f) = f.ext

unfoldable pub extension : Text → Text → Text
unfolding get vendors
extension vendor format = elim (get vendor vendors) [
  | none ↦ []
  | some v ↦ ext_of (get format v.formats)
]

unfoldable pub supports : List Text → Text → Bool
unfolding any
supports list want = any (λ v. v == want) list

vendor_tests :
    (vendor_names ≡ vendor_junos ∷ vendor_routeros ∷ [])
    × (commented_formats vendor_junos ≡ format_set ∷ format_text ∷ [])
    × (formats vendor_routeros ≡ format_export ∷ format_terse ∷ format_verbose ∷ [])
    × (extension vendor_junos format_xml ≡ codes ".xml")
    × (extension vendor_junos format_export ≡ [])
unfolding vendor_names commented_formats formats extension codes list_beq
vendor_tests = (refl, refl, refl, refl, refl)
