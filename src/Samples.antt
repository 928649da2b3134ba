-- ===== src/Samples.antt =====
-- plugins/samples: the plugins, each over the SDK and the string library that it calls.
pub mod AdInsertion
pub mod ConfigDenylist
pub mod CdnToken
pub mod HmacToken
pub mod SetCookie
pub mod RedirectBulk
pub mod SetResetCookie
pub mod HmacAuthCookie
pub mod ErrorPage
pub mod DeviceType
pub mod CheckPii
pub mod HmacAuthToken
pub mod JwtAuth
pub mod GeoOrigin
pub mod AbTesting
pub mod AddCustomResponse
pub mod OverwriteErrcode
pub mod AddGeoQuery
pub mod AddHeaders
pub mod BlockRequest
pub mod BodyChunking
pub mod NormalizeHeader
pub mod OverwriteHeader
pub mod Redirect
pub mod RegexRewrite
pub mod SetQuery
pub mod Replies
pub mod LogQuery
