-- ===== src/Junostest/Canned.antt =====
-- internal/junostest/server.go: what the stand-in device prints.
use Prim.Native.String.{String}
use jconfig.Prelude.{List, [], ◌∷◌, ◌++◌, nat_equality, list_equality}
use jconfig.Strings.Basic.{Text, codes, printed}

-- Lines joined by newlines.
abbrev pub joined : String → List String → Text
joined l [] = codes l
joined l (k ∷ ks) = codes l ++ (b'\n' ∷ joined k ks)

abbrev pub user : Text
user = codes "backup"

abbrev pub pass : Text
pass = codes "s3cret"

abbrev pub text_config : Text
text_config = printed (
    "## Last commit: 2026-07-20 10:00:00 UTC by admin" ∷ "version 21.4R3-S4.9;" ∷ "system {"
    ∷ "    host-name mx1-ams;" ∷ "    services {" ∷ "        netconf {" ∷ "            ssh;"
    ∷ "        }" ∷ "    }" ∷ "}" ∷ [])

abbrev pub set_config : Text
set_config = printed (
    "set version 21.4R3-S4.9" ∷ "set system host-name mx1-ams" ∷ "set system services netconf ssh"
    ∷ [])

abbrev pub xml_config : Text
xml_config = joined "<configuration junos:changed-seconds=\"1784894400\">" (
    "    <version>21.4R3-S4.9</version>" ∷ "    <system>" ∷ "        <host-name>mx1-ams</host-name>"
    ∷ "    </system>" ∷ "</configuration>" ∷ [])

abbrev pub version_xml : Text
version_xml = joined "<?xml version=\"1.0\" encoding=\"us-ascii\"?>" (
    "<rpc-reply xmlns:junos=\"http://xml.juniper.net/junos/21.4R0/junos\">"
    ∷ "<software-information>" ∷ "<host-name>mx1-ams</host-name>"
    ∷ "<product-model>mx480</product-model>" ∷ "<product-name>mx480</product-name>"
    ∷ "<junos-version>21.4R3-S4.9</junos-version>" ∷ "<package-information>"
    ∷ "<name>junos-version</name>" ∷ "<comment>JUNOS Software Release [21.4R3-S4.9]</comment>"
    ∷ "</package-information>" ∷ "<package-information>" ∷ "<name>junos-base</name>"
    ∷ "<comment>JUNOS Base OS boot [21.4R3-S4.9]</comment>" ∷ "</package-information>"
    ∷ "</software-information>" ∷ "</rpc-reply>" ∷ [])

abbrev pub version_text : Text
version_text = printed (
    "Hostname: mx1-ams" ∷ "Model: mx480" ∷ "Junos: 21.4R3-S4.9"
    ∷ "JUNOS Software Release [21.4R3-S4.9]" ∷ [])

abbrev pub inventory_text : Text
inventory_text = printed (
    "Hardware inventory:" ∷ "Item             Version  Part number  Serial number     Description"
    ∷ "Chassis                                JN123456AB        MX480"
    ∷ "Routing Engine   REV 06   750-095568   CAAB1234          RE-S-1800x4"
    ∷ "FPC 0                     BUILTIN      BUILTIN           FPC"
    ∷ "  PIC 0                                                  4x10GE SFP+" ∷ [])

abbrev pub license_text : Text
license_text = printed (
    "License usage:" ∷ "                                 Licensed     Licensed    Licensed"
    ∷ "                                  Feature      Feature     Feature"
    ∷ "  Feature name                       used    installed      needed    Expiry"
    ∷ "  scale-subscriber                      0            8           0    permanent" ∷ ""
    ∷ "Licenses installed: none" ∷ [])

abbrev pub virtual_chassis_text : Text
virtual_chassis_text = printed (
    "Virtual Chassis ID: 0000.0000.0000" ∷ "Virtual Chassis Mode: Enabled"
    ∷ "                                           Mstr           Mixed Neighbor List"
    ∷ "Member ID  Status   Serial No    Model     prio  Role      Mode ID  Interface"
    ∷ "0 (FPC 0)  Prsnt    AA0000AA0000 ex2200-48p-4g 128 Master*   NA" ∷ ""
    ∷ "Member ID for next new member: 1 (FPC 1)" ∷ [])

abbrev pub commit_xml : Text
commit_xml = joined "<?xml version=\"1.0\" encoding=\"us-ascii\"?>" (
    "<rpc-reply xmlns:junos=\"http://xml.juniper.net/junos/21.4R0/junos\">" ∷ "<commit-information>"
    ∷ "<commit-history>" ∷ "<sequence-number>0</sequence-number>" ∷ "<user>admin</user>"
    ∷ "<client>cli</client>"
    ∷ "<date-time junos:seconds=\"1784894400\">2026-07-20 10:00:00 UTC</date-time>"
    ∷ "</commit-history>" ∷ "<commit-history>" ∷ "<sequence-number>1</sequence-number>"
    ∷ "<user>noc</user>"
    ∷ "<date-time junos:seconds=\"1784808000\">2026-07-19 10:00:00 UTC</date-time>"
    ∷ "</commit-history>" ∷ "</commit-information>" ∷ "</rpc-reply>" ∷ [])
