-- ===== src/Plugin.antt =====
-- The WebAssembly plugin host of inengine-core/src/plugin.
pub mod Limiter
pub mod LoadError
pub mod Loader
pub mod WasmCommand
pub mod Subcommand
