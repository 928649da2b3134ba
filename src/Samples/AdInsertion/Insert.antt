-- ===== src/Samples/AdInsertion/Insert.antt =====
-- plugins/samples/ad_insertion/plugin.cc: the insertions that a body calls for, and their
-- application from the last position to the first.
pub mod Laws
use service_extensions_sampl.Base.{
  Text, ℕ, ◌+◌, Bool, not, ◌&&◌, ◌||◌, none, some, List, [], ◌∷◌, ◌++◌, if◌then◌else◌, has_value,
  length, take, drop, codes, find,
}
use service_extensions_sampl.Samples.AdInsertion.{AdConfig, Root, Insertion}

-- `body.insert(pos, content)`
pub insert : Text → ℕ → Text → Text
insert body pos content = take pos body ++ (content ++ drop pos body)

-- The loop of `applyAllInsertions`, over the sorted list.
unfoldable pub insert_each : Text → List Insertion → Text
unfolding insert
insert_each body [] = body
insert_each body ((pos, content) ∷ rest) = insert_each (insert body pos content) rest

-- `isGptAlreadyLoaded`
unfoldable pub is_gpt_already_loaded : Text → Bool
is_gpt_already_loaded body =
    has_value (find body (codes "googletag"))
    || has_value (find body (codes "gpt.js"))
    || has_value (find body (codes "doubleclick.net/tag/js/gpt"))

-- `prepareGptLibraryInjection`
unfoldable pub prepare_gpt_library_injection : Root → Text → List Insertion
prepare_gpt_library_injection root body = elim (find body (codes "<head>")) [
  | some head_pos ↦
      (
        head_pos + 6,
        codes "\n  <script async src=\"" ++ root.gpt_library_url ++ codes "\"></script>",
      )
      ∷ []
  | none ↦ elim (find body (codes "<body>")) [
    | some body_pos ↦
        (body_pos, codes "<script async src=\"" ++ root.gpt_library_url ++ codes "\"></script>\n")
        ∷ []
    | none ↦ []
  ]
]

-- `generateGAMAdHTML`
generate_gam_ad_html : Text → AdConfig → Text
generate_gam_ad_html position config =
    codes "<div id=\"ad-container-"
    ++ position
    ++ codes
        "\" class=\"ad-unit\">\n  \n  <script>\n    (function() {\n      // Same-domain GAM integration\n      var googletag = window.googletag || {};\n      googletag.cmd = googletag.cmd || [];\n      googletag.cmd.push(function() {\n        googletag.defineSlot('"
    ++ config.slot
    ++ codes "', \n                            ["
    ++ config.size
    ++ codes "], \n                            'ad-container-"
    ++ position
    ++ codes
        "').addService(googletag.pubads());\n        googletag.pubads().enableSingleRequest();\n        googletag.enableServices();\n      });\n    })();\n  </script>\n  <div id=\"div-gpt-ad-"
    ++ position
    ++ codes
        "\">\n    <script>\n      googletag.cmd.push(function() { \n        googletag.display('div-gpt-ad-"
    ++ position
    ++ codes "'); \n      });\n    </script>\n  </div>\n</div>"

-- `prepareAdInsertion`
unfoldable pub prepare_ad_insertion : Text → Text → AdConfig → List Insertion
unfolding generate_gam_ad_html
prepare_ad_insertion body position config = elim (find body config.marker) [
  | none ↦ []
  | some marker_pos ↦
      (
        if config.insert_before then marker_pos else marker_pos + length config.marker,
        generate_gam_ad_html position config,
      )
      ∷ []
]

-- The loop over the ad configurations.
prepare_ads : Text → List (Text × AdConfig) → List Insertion
unfolding prepare_ad_insertion
prepare_ads body [] = []
prepare_ads body ((position, config) ∷ configs) =
    prepare_ad_insertion body position config ++ prepare_ads body configs

-- The first two steps of `processBodyWithGAM`.
unfoldable pub prepare : Root → Text → List Insertion
unfolding prepare_ads is_gpt_already_loaded prepare_gpt_library_injection
prepare root body =
    (if root.inject_gpt_library && not (is_gpt_already_loaded body)
      then prepare_gpt_library_injection root body
      else [])
    ++ prepare_ads body root.ad_configs
