-- ===== src/Samples/CdnToken/Limits.antt =====
-- plugins/samples/cdn_token_generator/plugin.cc: which configurations are accepted.
use service_extensions_sampl.Base.{Text, ℕ, ◌≤◌, ◌<◌, ◌≡◌, some, arith, length}
use service_extensions_sampl.Sdk.{Sdk}
use service_extensions_sampl.Samples.CdnToken.{Root, Libraries, parse_config, on_configure, seconds}

-- What holds of a root context with which the plugin runs.
pub record IsWithinLimits (lib : Libraries) (root : Root) : Type 0 where
  pub key_min : 32 ≤ length root.config.private_key_hex
  pub key_max : length root.config.private_key_hex ≤ 256
  pub name : 0 < length root.config.key_name
  pub expiry_min : 60 ≤ seconds root.config.expiry_seconds
  pub expiry_max : seconds root.config.expiry_seconds ≤ 86400
  pub decoded : lib.hex_string_to_bytes root.config.private_key_hex ≡ some root.decoded_key

parse_config_within :
    (lib : Libraries) (text : Text) (root : Root)
    → (parse_config lib text).0 ≡ some root
    → IsWithinLimits lib root
unfolding parse_config
parse_config_within lib text root h = ground arith

-- If configuring succeeds, the key, its name and the expiry are within their limits, and the
-- decoded key belongs to the configured one.
pub on_configure-IsWithinLimits :
    (lib : Libraries) {S : Type 0} (sdk : Sdk S) (config_size : ℕ) (s : S) (root : Root)
    → (on_configure lib sdk config_size s).0 ≡ some root
    → IsWithinLimits lib root
unfolding on_configure
on_configure-IsWithinLimits lib sdk config_size s root h = ground (arith, parse_config_within lib)
