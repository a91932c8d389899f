-- ===== src/Tests/DeviceTests.antt =====
-- internal/device: the theorems at concrete inputs.
use jconfig.Prelude.{true, [], ◌≡◌, refl, nat_equality, list_equality}
use jconfig.Prelude.Int.{pos}
use jconfig.Prelude.Dict.{get}
use jconfig.Strings.Basic.{Text, codes, replace_all, trim_right, split, join}
use jconfig.Config.Vendors.{format_text}
use jconfig.Device.Sanitize.{sanitize}
use jconfig.Device.Sanitize.Laws.{IsTidy, sanitize-IsTidy}
use jconfig.Device.Sanitize.Stable.{sanitize_idem}
use jconfig.Device.Result.{header_text, ok, run}
use jconfig.Device.Commented.{commented, header_text-commented}
use jconfig.Device.Header.{stored, map_get, configs_of, run-configs}
use jconfig.Tests.Samples.{device, fetched}

abbrev sample : Text
sample = codes "a  \r\nb\rc\t\n\n\n"

sanitize_runs : sanitize sample [] ≡ codes "a\nb\nc\n"
unfolding sanitize codes replace_all trim_right split join
sanitize_runs = refl

sanitize-IsTidy_example : IsTidy [] (sanitize sample [])
sanitize-IsTidy_example = sanitize-IsTidy sample []

sanitize_idem_example : sanitize (sanitize sample []) [] ≡ sanitize sample []
sanitize_idem_example = sanitize_idem sample []

header_text-commented_example : commented true (header_text fetched.header_blocks) ≡ true
header_text-commented_example = header_text-commented fetched.header_blocks

run-configs_example :
    get format_text (configs_of (run device (pos 1) (ok fetched)))
    ≡ map_get (stored device fetched format_text) (get format_text fetched.configs)
run-configs_example = run-configs device (pos 1) fetched format_text
