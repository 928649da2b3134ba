-- ===== src/Lib.antt =====
-- A model of the C++ plugins of Service Extensions and of the host that tests them, with the
-- theorems that make them correct.
--
-- The program. A plugin (plugins/samples/*/plugin.cc) is a pair of contexts whose callbacks the host
-- calls for the phases of an HTTP stream: configuration, request headers, request body, response
-- headers, response body. A callback reads and changes headers, body and properties through the
-- Proxy-Wasm C++ SDK and returns a status. The test host (plugins/test/framework.cc) implements the
-- calls behind the SDK on one stream; the benchmark (plugins/test/dynamic_test.cc) drives more
-- streams next to it.
--
-- The files.
--   Base              bytes, lists, numbers: `Text` is the list of the bytes of a `std::string`
--   Wasm, Sdk, Absl, Urls
--                     the enumerations, the SDK, Abseil and Boost.URL as records of operations,
--                     since their code is not in the repository; `Sdk.IsLawful` is what the plugins
--                     rely on
--   Framework.Headers, Framework.Buffer, Framework.Stream
--                     plugins/test/framework.h and framework.cc: the header map, the body buffer,
--                     `TestHttpContext` with its Proxy-Wasm calls; Framework.Stream.Send holds
--                     SendRequestHeaders, SendRequestBody, SendResponseHeaders, SendResponseBody
--   Framework.Hosted  that host as an instance of the SDK record
--   Framework.AdditionalStream
--                     plugins/test/dynamic_test.cc: the state machine `AdditionalStream::Advance`
--   Framework.Expectation
--                     plugins/test/dynamic_test.cc and runner.proto: `StringMatcher`, `FindString` and
--                     `CheckPhaseResults`, which test what a plugin has done in a phase
--   Samples.AdInsertion, Samples.ConfigDenylist, Samples.CdnToken, Samples.HmacToken,
--   Samples.SetCookie, Samples.RedirectBulk
--                     plugins/samples/ad_insertion, config_denylist, cdn_token_generator,
--                     hmac_token_validation, set_cookie and redirect_bulk
--   Samples.SetResetCookie, Samples.HmacAuthCookie, Samples.ErrorPage, Samples.DeviceType,
--   Samples.CheckPii, Samples.HmacAuthToken, Samples.JwtAuth, Samples.GeoOrigin,
--   Samples.OverwriteErrcode, Samples.BodyChunking
--                     plugins/samples/set_reset_cookie, hmac_authcookie, error_page_with_traceid,
--                     add_device_type, check_pii, hmac_authtoken, jwt_auth,
--                     geo_directional_origin, overwrite_errcode and body_chunking
--   Samples.AbTesting, Samples.AddCustomResponse, Samples.AddGeoQuery, Samples.AddHeaders,
--   Samples.BlockRequest, Samples.NormalizeHeader, Samples.OverwriteHeader, Samples.Redirect,
--   Samples.RegexRewrite, Samples.SetQuery, Samples.LogQuery, Samples.Replies
--                     the small plugins; the first lines of each file name its source
--   Lua               plugins/samples/lua, the plugin that runs Lua scripts: Lua.Script has the Lua
--                     interpreter as a record, and a script as an activity that calls the plugin;
--                     Lua.Thread and Lua.Interpreter are lua_state.cc; Lua.State, Lua.Coroutine and
--                     Lua.Coroutine.Events are coroutine.cc; Lua.Plugin and Lua.Context are
--                     lua_plugin.cc; Lua.Api, Lua.Encoding, Lua.Ssl and Lua.Metrics are
--                     envoy_lua_api.cc; Lua.Handle is envoy_lua_api_registration.cc, and Lua.Shims is
--                     envoy_lua_api_shims.h; Lua.Status has the status codes of Abseil
--   Tests             concrete hosts and libraries, and runs on small inputs
--
-- How code becomes definitions. A callback is a function from a state to its status and the next
-- state, over an unknown SDK. A method `onRequestHeaders` is `on_request_headers` in the module of
-- its plugin, with the fields that it reads as arguments and those that it sets in its result.
-- Library functions (Abseil, RE2, OpenSSL, protobuf, `std::sort`, the random number and the clock)
-- are arguments. A null pointer is `none`; where the code would dereference it, the whole result is
-- `none`. A header that is not there reads as `Sdk.missing_header`; on the host of plugins/test that is
-- an empty text, as the tests of hmac_authcookie show. A 64-bit number keeps its wrap-around.
--
-- Fuel. `ConfigDenylist.parse_loop` has the length of the configuration, `CdnToken.find_matches` one
-- more than the length of the body, `AdditionalStream.pick` five rounds: each round but the
-- last moves past a byte of the text, or leaves one of the at most four states without an action.
--
-- The loop of `Lua.Coroutine.run_to_completion` runs until the script no longer waits for the stream. A
-- script may wait forever, so its fuel is a number above a bound on how often it still waits.
-- `Encoding.pem_lines` has the length of the certificate.
--
-- Not modelled: the calls of a Lua script on the handle of the other direction, which it can keep in a
-- global variable, the LuaBridge tables and the methods of plugins/samples/lua that only report that they
-- are not implemented, the log_calls and testing samples, the parsing of test inputs and the
-- benchmarks of plugins/test, the other languages' versions of the plugins, the callouts (Python,
-- Go, Java) and the deployment files.
pub mod Base
pub mod Wasm
pub mod Sdk
pub mod Absl
pub mod Urls
pub mod Framework
pub mod Samples
pub mod Lua
mod Tests
