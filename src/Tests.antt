-- ===== src/Tests.antt =====
-- Runs of the model on small inputs, and the theorems at inputs that meet their hypotheses.
mod Order
mod Host
mod Sort
mod Framework
mod Expectation
mod Samples
mod Tokens
mod Hosted
mod Cookies
mod CookieHeaders
mod Toy
mod Lua
mod LuaSetup
mod LuaPassing
