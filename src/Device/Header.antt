-- ===== src/Device/Header.antt =====
-- What Run stores of each format: the formats that the header block is put in front of.
use jconfig.Prelude.{
  Bool, true, false, not, ◌&&◌, ◌||◌, List, [], ◌∷◌, ◌++◌, ◌≡◌, ◌≢◌, ◌⊎◌, inl, inr, refl, sym, ap,
  ◌∙◌, Option, none, some, arith, any, ◌==◌, nat_equality, list_equality, list_beq, text_eq,
  Bool-cases, if◌then◌else◌,
}
use jconfig.Prelude.Int.{ℤ}
use jconfig.Prelude.Dict.{Dict, get, get-put}
use jconfig.Strings.Basic.{Text, codes}
use jconfig.Config.Types.{Device, header_enabled}
use jconfig.Config.Vendors.{commented_formats, supports, vendor_junos, vendor_routeros}
use jconfig.Device.Sanitize.{sanitize}
use jconfig.Device.Result.{
  header_text, prefixed, prefix_formats, Fetched, apply_header, sanitize_all, Outcome, ok, failed,
  run,
}

-- Whether a format occurs once at most among those that get the header.
unfoldable pub distinct : List Text → Bool
unfolding supports
distinct [] = true
distinct (f ∷ fs) = not (supports fs f) && distinct fs

-- A stored text, under the header if its format gets one.
unfoldable pub headed : Text → Bool → Text → Text
headed head gets content = if content == [] then [] else if gets then head ++ content else content

abbrev pub map_get : (Text → Text) → Option Text → Option Text
map_get f none = none
map_get f (some c) = some (f c)

module _ (head format f : Text) (configs : Dict Text Text) where
  prefixed-get :
      (o p : Option Text)
      → get format configs ≡ o
      → get f configs ≡ p
      → get f (prefixed head o format configs) ≡ map_get (headed head (format == f)) p
  unfolding headed
  prefixed-get none none h k = k
  prefixed-get none (some c) h k = ground (arith, text_eq format f, text_eq c [])
  prefixed-get (some content) none h k =
      ground (arith, text_eq format f, get-put format f (head ++ content) configs)
  prefixed-get (some content) (some c) h k = ground (
    arith,
    text_eq format f,
    text_eq content [],
    text_eq c [],
    get-put format f (head ++ content) configs,
  )

headed-headed :
    (head : Text) (a b : Bool) (o : Option Text)
    → (a && b) ≡ false
    → head ≢ []
    → map_get (headed head b) (map_get (headed head a) o) ≡ map_get (headed head (a || b)) o
unfolding headed
headed-headed head a b none h k = refl
headed-headed head a b (some c) h k =
    ground (arith, text_eq c [], text_eq [] [], text_eq (head ++ c) [], nonempty head k)
  where
    nonempty : (x : Text) → x ≢ [] → x ++ c ≢ []
    nonempty [] n e = n refl
    nonempty (y ∷ x) n e = cc

headed_none : (head : Text) (o : Option Text) → map_get (headed head false) o ≡ o
unfolding headed
headed_none head none = refl
headed_none head (some c) = ground (arith, text_eq c [])

-- Each commented format gets the header once, on a content that is not empty.
prefix_formats-get :
    (head : Text) (fs : List Text) (configs : Dict Text Text) (f : Text)
    → distinct fs ≡ true
    → head ≢ []
    → get f (prefix_formats head fs configs) ≡ map_get (headed head (supports fs f)) (get f configs)
unfolding prefix_formats supports any distinct
prefix_formats-get head [] configs f h k = sym (headed_none head (get f configs))
prefix_formats-get head (format ∷ rest) configs f h k =
    prefix_formats-get head rest (prefixed head (get format configs) format configs) f
      (ground arith) k
    ∙ ap (map_get (headed head (supports rest f)))
        (prefixed-get head format f configs (get format configs) (get f configs) refl refl)
    ∙ headed-headed head (format == f) (supports rest f) (get f configs) once k
  where
    once : ((format == f) && supports rest f) ≡ false
    once = ground (arith, text_eq format f)

vendor_cases :
    (vendor : Text) → (commented_formats vendor ≡ []) ⊎ (distinct (commented_formats vendor) ≡ true)
unfolding commented_formats
vendor_cases vendor = elim (Bool-cases (vendor_junos == vendor)) [
  | inl e ↦ rw (← (text_eq vendor_junos vendor).0 e) (inr (unfold distinct list_beq codes in refl))
  | inr n ↦ elim (Bool-cases (vendor_routeros == vendor)) [
    | inl e ↦
        rw (← (text_eq vendor_routeros vendor).0 e) (inr (unfold distinct list_beq codes in refl))
    | inr n' ↦ inl (unfold commented_formats in ground arith)
  ]
]

headed_empty : (b : Bool) (o : Option Text) → map_get (headed [] b) o ≡ o
unfolding headed
headed_empty b none = refl
headed_empty b (some c) = ground (arith, text_eq c [])

apply_header-get :
    (d : Device) (r : Fetched) (f : Text)
    → get f (apply_header d r).configs
      ≡ map_get
          (headed (header_text r.header_blocks) (supports (commented_formats d.vendor) f))
          (get f r.configs)
unfolding apply_header
apply_header-get d r f = elim (Bool-cases (header_text r.header_blocks == [])) [
  | inl e ↦ rw e (
      rw ((text_eq (header_text r.header_blocks) []).0 e)
        (sym (headed_empty (supports (commented_formats d.vendor) f) (get f r.configs))))
  | inr n ↦ rw n (by_vendor (vendor_cases d.vendor) n)
]
  where
    by_vendor :
        (commented_formats d.vendor ≡ []) ⊎ (distinct (commented_formats d.vendor) ≡ true)
        → (header_text r.header_blocks == []) ≡ false
        → get f
            (prefix_formats (header_text r.header_blocks) (commented_formats d.vendor) r.configs)
          ≡ map_get
              (headed (header_text r.header_blocks) (supports (commented_formats d.vendor) f))
              (get f r.configs)
    by_vendor (inl e) n = rw e (
        unfold prefix_formats supports any in
        sym (headed_none (header_text r.header_blocks) (get f r.configs)))
    by_vendor (inr h) n =
        prefix_formats-get (header_text r.header_blocks) (commented_formats d.vendor) r.configs f h
          (λ e. let k = (text_eq (header_text r.header_blocks) []).1 e in cc)

sanitize_all-get :
    (d : Device) (f : Text) (m : Dict Text Text)
    → get f (sanitize_all d.remove_re m) ≡ map_get (λ c. sanitize c d.remove_re) (get f m)
unfolding sanitize_all get
sanitize_all-get d f [] = refl
sanitize_all-get d f ((format, content) ∷ rest) = ground (arith, sanitize_all-get d f rest)

map_get-map_get :
    (f g : Text → Text) (o : Option Text) → map_get f (map_get g o) ≡ map_get (λ c. f (g c)) o
map_get-map_get f g none = refl
map_get-map_get f g (some c) = refl

-- What the run keeps of a format's content.
unfoldable pub stored : Device → Fetched → Text → Text → Text
unfolding headed
stored d res f content =
    headed (header_text res.header_blocks)
      (header_enabled d && supports (commented_formats d.vendor) f) (sanitize content d.remove_re)

abbrev pub configs_of : Outcome → Dict Text Text
configs_of (failed e) = []
configs_of (ok r) = r.configs

-- For each fetched format, Run stores the sanitised content, with the header in front of it once
-- if the device has headers enabled, the format is a commented one of its vendor, and the content
-- is not empty. It adds no format and loses none, and remove_lines does not touch the header.
pub run-configs :
    (d : Device) (took : ℤ) (res : Fetched) (f : Text)
    → get f (configs_of (run d took (ok res))) ≡ map_get (stored d res f) (get f res.configs)
unfolding run stored
run-configs d took res f = by_header (header_enabled d)
  where
    clean : Fetched
    clean = record res { configs = sanitize_all d.remove_re res.configs }

    head : Text
    head = header_text res.header_blocks

    gets : Bool
    gets = supports (commented_formats d.vendor) f

    by_header :
        (b : Bool)
        → get f (if b then apply_header d clean else clean).configs
          ≡ map_get (λ c. headed head (b && gets) (sanitize c d.remove_re)) (get f res.configs)
    by_header true =
        apply_header-get d clean f
        ∙ ap (map_get (headed head gets)) (sanitize_all-get d f res.configs)
        ∙ map_get-map_get (headed head gets) (λ c. sanitize c d.remove_re) (get f res.configs)
    by_header false =
        sanitize_all-get d f res.configs
        ∙ sym (headed_none head (map_get (λ c. sanitize c d.remove_re) (get f res.configs)))
        ∙ map_get-map_get (headed head false) (λ c. sanitize c d.remove_re) (get f res.configs)
