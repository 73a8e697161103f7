-- ===== src/Runners/Resource.antt =====
-- apps/web/src/lib/runners/android-resource-lock.ts: the host resource that a device stands for.
pub mod Keys
use skytest_agent.Prelude.{Bool, true, false, Text, codes, starts_with, ◌++◌, if◌then◌else◌}
use skytest_agent.Store.{ResourceType, emulator_profile, connected_device}

unfoldable pub emulator_profile_device_prefix : Text
emulator_profile_device_prefix = codes "emulator-profile:"

unfoldable pub connected_device_resource_prefix : Text
connected_device_resource_prefix = codes "connected-device:"

unfoldable pub is_emulator_profile_device_id : Text → Bool
is_emulator_profile_device_id device_id = starts_with device_id emulator_profile_device_prefix

unfoldable pub build_host_resource_key : Text → Text
build_host_resource_key device_id =
    if is_emulator_profile_device_id device_id
    then device_id
    else connected_device_resource_prefix ++ device_id

unfoldable pub resolve_android_resource_type : Text → ResourceType
resolve_android_resource_type device_id =
    if is_emulator_profile_device_id device_id then emulator_profile else connected_device
