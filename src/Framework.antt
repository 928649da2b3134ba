-- ===== src/Framework.antt =====
-- plugins/test: the host that runs the plugins in tests and benchmarks.
pub mod Headers
pub mod Buffer
pub mod Stream
pub mod AdditionalStream
pub mod Hosted
pub mod Expectation
