-- ===== src/Tests.antt =====
-- Runs of the model at fixed inputs, and the theorems at inputs that meet their hypotheses. Nothing
-- here models code of the repository.
mod HelperTests
mod DmaTests
mod FilterTests
mod ShiftTests
mod StreamTests
mod CameraTests
mod ServerTests
mod ModuleTests
mod LoopbackTests
mod ChainTests
mod TemplateTests
