-- ===== src/Samples/DeviceType/Classes.antt =====
-- plugins/samples/add_device_type/plugin.cc: the classes as one table.
use service_extensions_sampl.Base.{
  Text, ◌≡◌, refl, Bool, some, List, [], ◌∷◌, arith, if◌then◌else◌, any, codes,
}
use service_extensions_sampl.Wasm.{request_headers}
use service_extensions_sampl.Sdk.{Sdk, IsLawful}
use service_extensions_sampl.Wasm.{HeaderMapType}
use service_extensions_sampl.Samples.DeviceType.{
  Libraries, bot_keywords, tablet_keywords, android_indicators, mobile_keywords, desktop_keywords,
  contains_any, is_tablet, detect_device_type, on_request_headers,
}

-- The classes with their keywords, the first one first.
abbrev pub classes : List (Text × List Text)
classes =
    (codes "bot", bot_keywords)
    ∷ (codes "tablet", tablet_keywords)
    ∷ (codes "phone", mobile_keywords)
    ∷ (codes "desktop", desktop_keywords)
    ∷ []

-- The first class one of whose keywords is in the user agent.
abbrev pub first_class : Libraries → Text → List (Text × List Text) → Text
first_class lib ua [] = codes "other"
first_class lib ua ((class, keywords) ∷ rest) =
    if any (lib.str_contains ua) keywords then class else first_class lib ua rest

contains_any-any :
    (lib : Libraries) (ua : Text) (subs : List Text)
    → contains_any lib ua subs ≡ any (lib.str_contains ua) subs
unfolding contains_any
contains_any-any lib ua [] = refl
contains_any-any lib ua (sub ∷ subs) = ground (arith, contains_any-any lib ua subs)

is_tablet-any :
    (lib : Libraries) (ua : Text) → is_tablet lib ua ≡ any (lib.str_contains ua) tablet_keywords
unfolding is_tablet
is_tablet-any lib ua =
    rw (contains_any-any lib ua tablet_keywords, contains_any-any lib ua android_indicators)
      (ground arith)

-- The class of a device is the first of bot, tablet, phone and desktop one of whose keywords is in
-- the user agent, and `other` without one. The test of Android devices adds no tablet.
pub detect-first_class :
    (lib : Libraries) (ua : Text) → detect_device_type lib ua ≡ first_class lib ua classes
unfolding detect_device_type
detect-first_class lib ua =
    rw
      (
        contains_any-any lib ua bot_keywords,
        is_tablet-any lib ua,
        contains_any-any lib ua mobile_keywords,
        contains_any-any lib ua desktop_keywords,
      )
      refl

-- On a host that keeps its laws, the next plugin reads in the device header the first class whose
-- keywords are in the lower-cased user agent of the request; all other headers stay as they were.
pub device_header_read :
    (lib : Libraries) {S : Type 0} (sdk : Sdk S) (same : Text → Text → Bool)
    (Open : HeaderMapType → S → Type 0)
    → IsLawful sdk same Open
    → (s : S) (ua j : Text) → Open request_headers s
    → sdk.get_header request_headers (codes "user-agent") s ≡ some ua
    → sdk.get_header request_headers j (on_request_headers lib sdk s).1 ≡ (
        if same j (codes "x-device-type")
        then some (first_class lib (lib.ascii_str_to_lower ua) classes)
        else sdk.get_header request_headers j s)
unfolding on_request_headers
device_header_read lib sdk same Open laws s ua j opened e =
    rw (e, on_request_headers, detect-first_class lib (lib.ascii_str_to_lower ua))
      (laws.get-replace request_headers j (codes "x-device-type")
        (first_class lib (lib.ascii_str_to_lower ua) classes) s opened)
