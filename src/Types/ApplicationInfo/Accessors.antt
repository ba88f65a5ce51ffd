-- ===== src/Types/ApplicationInfo/Accessors.antt =====
-- What types/application_info.go computes of the capabilities and the version.
use keycard_go.Base.{◌/◌, Bool, ◌∷◌, ◌++◌, bit_and}
use keycard_go.Base.Bytes.{Bytes}
use keycard_go.Base.Decimal.{format_uint}
use keycard_go.Types.ApplicationInfo.{
  ApplicationInfo, capability_key_management, capability_credentials_management, capability_ndef,
  capability_factory_reset, has_capability, has_secure_channel_capability, app_version,
}

unfoldable pub has_key_management_capability : ApplicationInfo → Bool
has_key_management_capability = has_capability capability_key_management

unfoldable pub has_credentials_management_capability : ApplicationInfo → Bool
has_credentials_management_capability = has_capability capability_credentials_management

unfoldable pub has_ndef_capability : ApplicationInfo → Bool
has_ndef_capability = has_capability capability_ndef

unfoldable pub has_factory_reset_capability : ApplicationInfo → Bool
has_factory_reset_capability = has_capability capability_factory_reset

unfoldable pub has_secure_channel : ApplicationInfo → Bool
has_secure_channel = has_secure_channel_capability

-- `fmt.Sprintf("%d.%d", (v>>8)&0xFF, v&0xFF)`
unfoldable pub app_version_string : ApplicationInfo → Bytes
app_version_string info =
    let v = app_version info in
    format_uint (bit_and (v / 256) 0xff) ++ (0x2e ∷ format_uint (bit_and v 0xff))
