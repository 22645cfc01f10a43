-- ===== src/Config.antt =====
-- pkg/config: the settings of the stores, with the adjustments after they are read, and the files that
-- all settings are read from.
pub mod Env
pub mod Stores
pub mod Adjust
pub mod Inherit
pub mod Read
mod ReadTests
mod StoresTests
