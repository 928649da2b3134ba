-- ===== src/Samples/DeviceType.antt =====
-- plugins/samples/add_device_type/plugin.cc: the class of the client's device, by keywords in its
-- user agent.
pub mod Classes
use service_extensions_sampl.Base.{
  Text, Bool, true, false, none, some, List, [], ◌∷◌, if◌then◌else◌, codes,
}
use service_extensions_sampl.Wasm.{request_headers, FilterHeadersStatus, continue}
use service_extensions_sampl.Sdk.{Sdk, Act}

pub record Libraries : Type 0 where
  pub ascii_str_to_lower : Text → Text
  pub str_contains : Text → Text → Bool

abbrev pub bot_keywords : List Text
bot_keywords =
    codes "bot"
    ∷ codes "crawler"
    ∷ codes "spider"
    ∷ codes "googlebot"
    ∷ codes "bingbot"
    ∷ codes "slurp"
    ∷ codes "duckduckbot"
    ∷ codes "yandexbot"
    ∷ codes "baiduspider"
    ∷ []

abbrev pub tablet_keywords : List Text
tablet_keywords =
    codes "ipad"
    ∷ codes "tablet"
    ∷ codes "kindle"
    ∷ codes "tab"
    ∷ codes "playbook"
    ∷ codes "nexus 7"
    ∷ codes "sm-t"
    ∷ codes "pad"
    ∷ codes "gt-p"
    ∷ []

abbrev pub android_indicators : List Text
android_indicators = codes "tablet" ∷ codes "tab" ∷ codes "pad" ∷ []

abbrev pub mobile_keywords : List Text
mobile_keywords =
    codes "mobile"
    ∷ codes "android"
    ∷ codes "iphone"
    ∷ codes "ipod"
    ∷ codes "blackberry"
    ∷ codes "windows phone"
    ∷ codes "webos"
    ∷ codes "iemobile"
    ∷ codes "opera mini"
    ∷ []

abbrev pub desktop_keywords : List Text
desktop_keywords =
    codes "mozilla"
    ∷ codes "chrome"
    ∷ codes "safari"
    ∷ codes "firefox"
    ∷ codes "msie"
    ∷ codes "opera"
    ∷ codes "edge"
    ∷ codes "chromium"
    ∷ codes "vivaldi"
    ∷ []

module _ (lib : Libraries) where
  -- `ContainsAny`
  unfoldable pub contains_any : Text → List Text → Bool
  contains_any ua [] = false
  contains_any ua (sub ∷ subs) = if lib.str_contains ua sub then true else contains_any ua subs

  -- `IsTablet`
  unfoldable pub is_tablet : Text → Bool
  unfolding contains_any
  is_tablet ua =
      if contains_any ua tablet_keywords
      then true
      else if lib.str_contains ua (codes "android")
      then contains_any ua android_indicators
      else false

  -- `DetectDeviceType`, with `IsBot`, `IsMobile` and `IsDesktop` written out.
  unfoldable pub detect_device_type : Text → Text
  unfolding is_tablet
  detect_device_type ua =
      if contains_any ua bot_keywords
      then codes "bot"
      else if is_tablet ua
      then codes "tablet"
      else if contains_any ua mobile_keywords
      then codes "phone"
      else if contains_any ua desktop_keywords
      then codes "desktop"
      else codes "other"

  -- `onRequestHeaders`
  unfoldable pub on_request_headers : {S : Type 0} → Sdk S → Act S FilterHeadersStatus
  unfolding detect_device_type
  on_request_headers sdk s =
      let user_agent : Text = elim (sdk.get_header request_headers (codes "user-agent") s) [
        | none ↦ []
        | some v ↦ lib.ascii_str_to_lower v
      ] in
      (
        continue,
        (sdk.replace_header request_headers (codes "x-device-type") (detect_device_type user_agent)
            s).1,
      )
