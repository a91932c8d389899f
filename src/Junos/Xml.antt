-- ===== src/Junos/Xml.antt =====
-- internal/junos/xmlutil.go: what the driver reads out of XML. Decoding an element is encoding/xml's
-- and stands as a record of functions; the verbatim element is the source's own search.
use jconfig.Prelude.{
  ℕ, suc, ◌+◌, ◌-◌, Bool, false, ◌&&◌, ◌||◌, List, [], ◌∷◌, ◌++◌, map, Option, none, some, length,
  take, drop, ◌==◌, nat_equality, list_equality, ltb, leb, if◌then◌else◌,
}
use jconfig.Prelude.Int.{ℤ}
use jconfig.Prelude.Answer.{Answer}
use jconfig.Strings.Basic.{Text, codes, has_prefix, index, shift}
use jconfig.Strings.Space.{trim_space}

pub record Package : Type 0 where
  pub name : Text
  pub comment : Text

pub record SoftwareInformation : Type 0 where
  pub host_name : Text
  pub product_model : Text
  pub product_name : Text
  pub junos_version : Text
  pub packages : List Package

pub record CommitEntry : Type 0 where
  pub sequence_number : ℤ
  pub user : Text
  pub seconds : Text
  pub date_time : Text

pub record RpcError : Type 0 where
  pub message : Text
  pub severity : Text
  pub path : Text

-- decodeFirst at the types that the driver decodes, `none` for an error; elementText.
pub record Xml : Type 0 where
  pub software_information : Text → Option SoftwareInformation
  pub commit_information : Text → Option (List CommitEntry)
  pub error_element : Text → Text → Option RpcError
  pub element_text : Text → Text → Answer Text

-- strings.LastIndex
unfoldable pub last_index : Text → Text → Option ℕ
unfolding has_prefix
last_index sub [] = if has_prefix sub [] then some 0 else none
last_index sub (c ∷ s) =
    let later = last_index sub s in
    elim later [ some i ↦ some (suc i) | none ↦ if has_prefix sub (c ∷ s) then some 0 else none ]

-- What may follow the name in an opening tag: <configuration-text> is not <configuration>.
abbrev pub ends_name : Text → Bool
ends_name [] = false
ends_name (c ∷ s) = c == b'>' || c == b' ' || c == b'\t' || c == b'\n' || c == b'\r' || c == b'/'

-- Whether an opening tag begins here.
unfoldable pub opens : Text → Text → Bool
unfolding has_prefix
opens tag s = has_prefix tag s && ends_name (drop (length tag) s)

-- Where the first opening tag begins.
unfoldable pub opening : Text → Text → Option ℕ
unfolding opens
opening tag [] = none
opening tag (c ∷ s) =
    let later = opening tag s in if opens tag (c ∷ s) then some 0 else shift 1 later

abbrev pub self_closed : Text → Option ℕ → Option Text
self_closed s none = none
self_closed s (some i) = some (take (i + 2) s)

-- The element from its opening tag on: to the last closing tag, if that does not stand before it.
abbrev pub closed : Text → Text → ℕ → Option ℕ → Option Text
closed close_tag s start none = self_closed (drop start s) (index (codes "/>") (drop start s))
closed close_tag s start (some end) =
    if ltb end start
    then self_closed (drop start s) (index (codes "/>") (drop start s))
    else some (take (end + length close_tag - start) (drop start s))

abbrev pub closed_at : Text → Text → Option ℕ → Option Text
closed_at close_tag s none = none
closed_at close_tag s (some start) = closed close_tag s start (last_index close_tag s)

abbrev pub close_tag_of : Text → Text
close_tag_of local = codes "</" ++ (local ++ codes ">")

unfoldable pub raw_element : Text → Text → Option Text
unfolding last_index opening index
raw_element s local = closed_at (close_tag_of local) s (opening (b'<' ∷ local) s)

-- strings.ToLower on ASCII
abbrev pub to_lower : ℕ → ℕ
to_lower c = if leb b'A' c && leb c b'Z' then c + 32 else c

abbrev pub error_text : Text → RpcError → Text
error_text name e =
    let msg = trim_space e.message in
    let p = trim_space e.path in
    if p == []
    then codes "device returned " ++ (name ++ (codes ": " ++ msg))
    else codes "device returned "
      ++ (name ++ (codes ": " ++ (msg ++ (codes " (" ++ (p ++ codes ")")))))

-- One round of checkRPCError: an element that reports an error, `none` to go on. strings.EqualFold
-- is folding ASCII here.
abbrev pub reported : Text → Option RpcError → Option Text
reported name none = none
reported name (some e) =
    if trim_space e.message == []
    then none
    else if map to_lower e.severity == codes "warning"
    then none
    else some (error_text name e)

abbrev pub or_else : Option Text → Option Text → Option Text
or_else (some a) b = some a
or_else none b = b

unfoldable pub check_rpc_error : Xml → Text → Option Text
check_rpc_error xml reply =
    or_else (reported (codes "rpc-error") (xml.error_element reply (codes "rpc-error")))
      (reported (codes "error") (xml.error_element reply (codes "error")))

-- snippet of ssh.go
unfoldable pub snippet : Text → Text
unfolding trim_space
snippet b = let s = trim_space b in if ltb 200 (length s) then take 200 s ++ codes "..." else s
