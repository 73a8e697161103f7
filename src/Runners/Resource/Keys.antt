-- ===== src/Runners/Resource/Keys.antt =====
-- Two devices never share a host resource.
use skytest_agent.Prelude.{
  true, false, Text, append-cancel, ◌++◌, ◌≡◌, refl, sym, Bool-cases, inl, inr,
}
use skytest_agent.Runners.Resource.{
  emulator_profile_device_prefix, connected_device_resource_prefix, is_emulator_profile_device_id,
  build_host_resource_key,
}

-- A key made by the connected-device prefix is no emulator profile.
connected-not_emulator :
    (t : Text) → is_emulator_profile_device_id (connected_device_resource_prefix ++ t) ≡ false
unfolding is_emulator_profile_device_id connected_device_resource_prefix
    emulator_profile_device_prefix
connected-not_emulator t = refl

-- Different devices have different host resource keys.
pub build_host_resource_key-injective :
    (s t : Text) → build_host_resource_key s ≡ build_host_resource_key t → s ≡ t
unfolding build_host_resource_key
build_host_resource_key-injective s t h = elim (Bool-cases (is_emulator_profile_device_id s)) [
  | inl a ↦ elim (Bool-cases (is_emulator_profile_device_id t)) [
    | inl b ↦ rw b at (rw a at h)
    | inr b ↦ absurd (mixed s t a (rw b at (rw a at h)))
  ]
  | inr a ↦ elim (Bool-cases (is_emulator_profile_device_id t)) [
    | inl b ↦ absurd (mixed t s b (sym (rw b at (rw a at h))))
    | inr b ↦ append-cancel connected_device_resource_prefix s t (rw b at (rw a at h))
  ]
]
  where
    mixed :
        (x y : Text)
        → is_emulator_profile_device_id x ≡ true
        → x ≡ connected_device_resource_prefix ++ y
        → ⊥
    mixed x y e p = cc (connected-not_emulator y)
