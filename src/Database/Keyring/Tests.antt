-- ===== src/Database/Keyring/Tests.antt =====
-- A rotation, and the theorem at it.
use agilang_native.Base.{ℕ, ◌≡◌, refl, arith, true, is_ok, u32_mod}
use agilang_native.Database.Keyring.{
  IsKeyring, new_keyring, rotate_key, get_key, rotate_key-IsKeyring,
}

new_keyring-IsKeyring : IsKeyring new_keyring
unfolding new_keyring
new_keyring-IsKeyring = record {
  current = refl;
  others = λ version differs h. differs (ground arith);
}

rotate_key-IsKeyring_example :
    IsKeyring (rotate_key new_keyring).0
    × ((rotate_key new_keyring).0.active_version ≡ (rotate_key new_keyring).1)
    × ((version : ℕ)
        → is_ok (get_key version new_keyring) ≡ true
        → is_ok (get_key version (rotate_key new_keyring).0) ≡ true)
unfolding new_keyring u32_mod
rotate_key-IsKeyring_example = rotate_key-IsKeyring new_keyring (omega arith) new_keyring-IsKeyring
