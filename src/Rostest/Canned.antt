-- ===== src/Rostest/Canned.antt =====
-- internal/rostest/server.go: what the stand-in device prints.
use jconfig.Prelude.{[], ◌∷◌, ◌++◌, nat_equality, list_equality}
use jconfig.Strings.Basic.{Text, codes, printed}

abbrev pub user_name : Text
user_name = codes "backup"

abbrev pub pass_word : Text
pass_word = codes "s3cret"

abbrev pub banner_line : Text
banner_line = codes "# 2026-09-05 10:23:45 by RouterOS 7.14.2"

-- Each export without the banner that opens it.
abbrev pub export_body : Text
export_body = printed (
    "# software id = TEST-0000" ∷ "#" ∷ "# model = RB5009UG+S+" ∷ "# serial number = 00000000TEST"
    ∷ "/interface bridge" ∷ "add admin-mac=00:00:5E:00:53:00 auto-mac=no comment=lan name=bridge"
    ∷ "/interface wireguard" ∷ "add listen-port=51820 mtu=1420 name=wg0 private-key=\"...\""
    ∷ "/ip address" ∷ "add address=192.0.2.1/24 interface=bridge network=192.0.2.0"
    ∷ "/system identity" ∷ "set name=gw1-ams" ∷ [])

abbrev pub sensitive_body : Text
sensitive_body = printed (
    "# software id = TEST-0000" ∷ "#" ∷ "# model = RB5009UG+S+" ∷ "# serial number = 00000000TEST"
    ∷ "/interface bridge" ∷ "add admin-mac=00:00:5E:00:53:00 auto-mac=no comment=lan name=bridge"
    ∷ "/interface wireguard"
    ∷ "add listen-port=51820 mtu=1420 name=wg0 private-key=\"0000000000000000000000000000000000000000000=\""
    ∷ "/ip address" ∷ "add address=192.0.2.1/24 interface=bridge network=192.0.2.0"
    ∷ "/system identity" ∷ "set name=gw1-ams" ∷ [])

abbrev pub terse_body : Text
terse_body = printed (
    "/interface bridge add admin-mac=00:00:5E:00:53:00 auto-mac=no comment=lan name=bridge"
    ∷ "/ip address add address=192.0.2.1/24 interface=bridge network=192.0.2.0"
    ∷ "/system identity set name=gw1-ams" ∷ [])

abbrev pub verbose_body : Text
verbose_body = printed (
    "/interface bridge"
    ∷ "add admin-mac=00:00:5E:00:53:00 ageing-time=5m arp=enabled auto-mac=no comment=lan name=bridge"
    ∷ "/system identity" ∷ "set name=gw1-ams" ∷ [])

abbrev pub with_banner : Text → Text
with_banner body = banner_line ++ (b'\n' ∷ body)

abbrev pub resource_text : Text
resource_text = printed (
    "                   uptime: 3w4d13h20m" ∷ "                  version: 7.14.2 (stable)"
    ∷ "               build-time: 2026-02-15 10:00:00" ∷ "         factory-software: 7.1.5"
    ∷ "              free-memory: 900.4MiB" ∷ "             total-memory: 1024.0MiB"
    ∷ "                      cpu: ARM64" ∷ "                cpu-count: 4"
    ∷ "            cpu-frequency: 1400MHz" ∷ "                 cpu-load: 3%"
    ∷ "           free-hdd-space: 900.0MiB" ∷ "          total-hdd-space: 1024.0MiB"
    ∷ "  write-sect-since-reboot: 12345" ∷ "         write-sect-total: 678910"
    ∷ "               bad-blocks: 0%" ∷ "        architecture-name: arm64"
    ∷ "               board-name: RB5009UG+S+" ∷ "                 platform: MikroTik" ∷ [])

abbrev pub routerboard_text : Text
routerboard_text = printed (
    "       routerboard: yes" ∷ "             model: RB5009UG+S+" ∷ "          revision: r2"
    ∷ "     serial-number: 00000000TEST" ∷ "     firmware-type: dm7000"
    ∷ "  factory-firmware: 7.1.5" ∷ "  current-firmware: 7.14.2" ∷ "  upgrade-firmware: 7.15.0"
    ∷ [])

abbrev pub license_text : Text
license_text =
    printed ("    software-id: TEST-0000" ∷ "         nlevel: 4" ∷ "       features:" ∷ [])

abbrev pub identity_text : Text
identity_text = printed ("  name: gw1-ams" ∷ [])
