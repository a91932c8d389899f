-- ===== src/Runner/Names/Files.antt =====
-- repoPath on the formats of a device.
use jconfig.Prelude.{
  true, false, [], ◌∷◌, ◌++◌, map, ◌≡◌, ◌⊎◌, inl, inr, refl, sym, ap, ◌∙◌, Option, none, some,
  arith, any, All, ◌==◌, nat_equality, list_equality, list_beq, text_eq, Bool-cases, if◌then◌else◌,
}
use jconfig.Prelude.Dict.{Dict, get, put, get-put}
use jconfig.Strings.Basic.{Text, codes}
use jconfig.Config.Types.{Device}
use jconfig.Config.Vendors.{
  junos_info, routeros_info, vendors, vendor_junos, vendor_routeros, ext_of, extension, supports,
  format_text, format_set, format_xml, format_export, format_verbose, format_terse,
}
use jconfig.Config.Precedence.{first}
use jconfig.Device.Header.{distinct}
use jconfig.Runner.Names.{repo_path, sanitize_name, or_ungrouped}
use jconfig.Runner.Backup.{files_of}

-- The format of an extension.
junos_format : Text → Text
junos_format e =
    if e == codes ".conf" then format_text else if e == codes ".set" then format_set else format_xml

routeros_format : Text → Text
routeros_format e =
    if e == codes ".rsc"
    then format_export
    else if e == codes ".verbose.rsc"
    then format_verbose
    else format_terse

junos_format-ext :
    (f : Text)
    → (ext_of (get f junos_info.formats) == []) ≡ false
    → junos_format (ext_of (get f junos_info.formats)) ≡ f
unfolding list_beq
junos_format-ext f h = elim (Bool-cases (format_text == f)) [
  | inl e ↦ rw (← (text_eq format_text f).0 e) (unfold junos_format get codes list_beq in refl)
  | inr n ↦ elim (Bool-cases (format_set == f)) [
    | inl e ↦ rw (← (text_eq format_set f).0 e) (unfold junos_format get codes list_beq in refl)
    | inr n' ↦ elim (Bool-cases (format_xml == f)) [
      | inl e ↦ rw (← (text_eq format_xml f).0 e) (unfold junos_format get codes list_beq in refl)
      | inr n'' ↦
          absurd (let none_left : true ≡ false = (unfold get in (rw (n, n', n'') at h)) in cc)
    ]
  ]
]

routeros_format-ext :
    (f : Text)
    → (ext_of (get f routeros_info.formats) == []) ≡ false
    → routeros_format (ext_of (get f routeros_info.formats)) ≡ f
unfolding list_beq
routeros_format-ext f h = elim (Bool-cases (format_export == f)) [
  | inl e ↦ rw (← (text_eq format_export f).0 e) (unfold routeros_format get codes list_beq in refl)
  | inr n ↦ elim (Bool-cases (format_verbose == f)) [
    | inl e ↦
        rw (← (text_eq format_verbose f).0 e) (unfold routeros_format get codes list_beq in refl)
    | inr n' ↦ elim (Bool-cases (format_terse == f)) [
      | inl e ↦
          rw (← (text_eq format_terse f).0 e) (unfold routeros_format get codes list_beq in refl)
      | inr n'' ↦
          absurd (let none_left : true ≡ false = (unfold get in (rw (n, n', n'') at h)) in cc)
    ]
  ]
]

vendor_entry :
    (vendor : Text)
    → (get vendor vendors ≡ none)
      ⊎ ((get vendor vendors ≡ some junos_info) ⊎ (get vendor vendors ≡ some routeros_info))
unfolding vendors get
vendor_entry vendor = ground (arith, text_eq vendor_junos vendor, text_eq vendor_routeros vendor)

-- Two formats of a vendor that have an extension have different ones.
extension-inj :
    (vendor f g : Text)
    → (extension vendor f == []) ≡ false
    → (extension vendor g == []) ≡ false
    → extension vendor f ≡ extension vendor g
    → f ≡ g
unfolding extension codes list_beq
extension-inj vendor f g hf hg same = by_vendor (vendor_entry vendor)
  where
    by_vendor :
        (get vendor vendors ≡ none)
          ⊎ ((get vendor vendors ≡ some junos_info) ⊎ (get vendor vendors ≡ some routeros_info))
        → f ≡ g
    by_vendor (inl e) = absurd (let no_ext : true ≡ false = rw e at hf in cc)
    by_vendor (inr (inl e)) =
        sym (junos_format-ext f (rw e at hf))
        ∙ ap junos_format (rw e at same)
        ∙ junos_format-ext g (rw e at hg)
    by_vendor (inr (inr e)) =
        sym (routeros_format-ext f (rw e at hf))
        ∙ ap routeros_format (rw e at same)
        ∙ routeros_format-ext g (rw e at hg)

append_cancel : (s t u : Text) → s ++ t ≡ s ++ u → t ≡ u
append_cancel [] t u h = h
append_cancel (c ∷ s) t u h = append_cancel s t u cc

-- The paths of two formats of a device differ.
pub repo_path-inj :
    (layout : Text) (d : Device) (f g : Text)
    → (extension d.vendor f == []) ≡ false
    → (extension d.vendor g == []) ≡ false
    → repo_path layout d f ≡ repo_path layout d g
    → f ≡ g
unfolding repo_path
repo_path-inj layout d f g hf hg same = go (Bool-cases (layout == codes "group"))
  where
    go : ((layout == codes "group") ≡ true) ⊎ ((layout == codes "group") ≡ false) → f ≡ g
    go (inl e) =
        let tails = append_cancel (or_ungrouped (sanitize_name d.group)) _ _ (rw e at same) in
        extension-inj d.vendor f g hf hg (append_cancel (sanitize_name d.name) _ _ cc)
    go (inr n) =
        extension-inj d.vendor f g hf hg (append_cancel (sanitize_name d.name) _ _ (rw n at same))

-- Whether the path of a fetched format has an extension.
abbrev pub Known : Device → Dict Text Text → Type 0
Known d configs = All (λ entry. (extension d.vendor entry.0 == []) ≡ false) configs

get_absent :
    (f : Text) (configs : Dict Text Text)
    → supports (map (λ e. e.0) configs) f ≡ false
    → get f configs ≡ none
unfolding supports any get
get_absent f [] h = refl
get_absent f ((g, c) ∷ configs) h = let rest = get_absent f configs in ground (arith, rest)

module _ (layout : Text) (d : Device) (f : Text)
    (known : (extension d.vendor f == []) ≡ false) where
  path_eq :
      (g : Text)
      → (extension d.vendor g == []) ≡ false
      → (repo_path layout d g == repo_path layout d f) ≡ (g == f)
  path_eq g h = elim (Bool-cases (g == f)) [
    | inl e ↦ rw (e, ← (text_eq g f).0 e) ((text_eq (repo_path layout d g) _).1 refl)
    | inr n ↦ rw n (elim (Bool-cases (repo_path layout d g == repo_path layout d f)) [
      | inl e ↦
          let same =
            repo_path-inj layout d g f h known
              ((text_eq (repo_path layout d g) (repo_path layout d f)).0 e) in
          absurd (let yes = (text_eq g f).1 same in cc)
      | inr k ↦ k
    ])
  ]

  files_step :
      (g content : Text) (configs files : Dict Text Text)
      → (extension d.vendor g == []) ≡ false
      → supports (map (λ e. e.0) configs) g ≡ false
      → first
          (get f configs)
          (get (repo_path layout d f) (put (repo_path layout d g) content files))
        ≡ first (get f ((g, content) ∷ configs)) (get (repo_path layout d f) files)
  files_step g content configs files h new = elim (Bool-cases (g == f)) [
    | inl e ↦
        let same = (text_eq g f).0 e in
        let absent : get f configs ≡ none = get_absent f configs (rw same at new) in
        rw
          (
            get-put (repo_path layout d g) (repo_path layout d f) content files,
            path_eq g h,
            e,
            absent,
          )
          (unfold get in rw e refl)
    | inr n ↦
        rw (get-put (repo_path layout d g) (repo_path layout d f) content files, path_eq g h, n)
          (unfold get in rw n refl)
  ]

  files_of-onto :
      (configs files : Dict Text Text)
      → Known d configs
      → distinct (map (λ e. e.0) configs) ≡ true
      → get (repo_path layout d f) (files_of layout d configs files)
        ≡ first (get f configs) (get (repo_path layout d f) files)
  unfolding files_of distinct
  files_of-onto [] files h k = unfold get in refl
  files_of-onto ((g, content) ∷ configs) files h k =
      files_of-onto configs (put (repo_path layout d g) content files) h.1 (ground arith)
      ∙ files_step g content configs files h.0 (ground arith)

  first_none : (o : Option Text) → first o none ≡ o
  first_none none = refl
  first_none (some v) = refl

  -- If the fetched formats differ and all have an extension, the commit holds at the path of each
  -- format what was fetched for it, and nothing at the path of a format that was not fetched.
  pub files_of-get :
      (configs : Dict Text Text)
      → Known d configs
      → distinct (map (λ e. e.0) configs) ≡ true
      → get (repo_path layout d f) (files_of layout d configs []) ≡ get f configs
  files_of-get configs h k =
      files_of-onto configs [] h k ∙ (unfold get in first_none (get f configs))
