-- ===== src/Config/Load.antt =====
-- internal/config/config.go: Load, from the decoded document on.
use jconfig.Prelude.{List, [], ◌∷◌, nat_equality, list_equality}
use jconfig.Config.Host.{Host}
use jconfig.Config.Types.{Scheduler, Device, Config}
use jconfig.Config.Defaults.{default_config, default_device, merge_device}
use jconfig.Config.Validate.{Problem, problems, compile_device}

pub data Loaded : Type 0 where
  loaded : Config → Loaded
  refused : List Problem → Loaded

-- The loop of Load over the devices.
unfoldable pub merge_all : Host → Device → Scheduler → List Device → List Device
unfolding merge_device default_device
merge_all host def s [] = []
merge_all host def s (d ∷ ds) = default_device host s (merge_device d def) ∷ merge_all host def s ds

unfoldable pub merged : Host → Config → Config
unfolding default_config merge_all
merged host decoded =
    let cfg = default_config host decoded in
    record cfg { devices = merge_all host cfg.defaults cfg.scheduler cfg.devices }

-- errors.Join of no error is nil.
abbrev pub verdict : List Problem → Config → Loaded
verdict [] cfg = loaded cfg
verdict (e ∷ es) cfg = refused (e ∷ es)

unfoldable pub compile_all : Host → List Device → List Device
unfolding compile_device
compile_all host [] = []
compile_all host (d ∷ ds) = compile_device host d ∷ compile_all host ds

-- Load, on the document that the decoder made of the file
unfoldable pub load : Host → Config → Loaded
unfolding merged problems compile_all
load host decoded =
    let cfg = merged host decoded in
    verdict (problems host cfg) (record cfg { devices = compile_all host cfg.devices })
