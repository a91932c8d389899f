-- ===== src/Tests.antt =====
-- Runs of the definitions, and the theorems at concrete inputs.
mod Samples
mod DeviceTests
mod RunnerTests
mod ConfigTests
mod JunosTests
mod RouterosTests
mod RostestTests
mod JunostestTests
mod DaemonTests
mod StoreTests
mod GitTests
mod NetconfTests
mod DocumentTests
mod SlotsTests
mod LifeTests
