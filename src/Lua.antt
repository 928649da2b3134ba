-- ===== src/Lua.antt =====
-- plugins/samples/lua: the plugin that runs a Lua script on the headers and bodies of a stream.
pub mod Status
pub mod Script
pub mod Thread
pub mod State
pub mod Api
pub mod Handle
pub mod Coroutine
pub mod Shims
pub mod Interpreter
pub mod Plugin
pub mod Context
pub mod Encoding
pub mod Ssl
pub mod Metrics
