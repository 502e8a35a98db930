-- ===== src/Catalog/Users.antt =====
-- `discover_all_targets` of src/catalog/mod.rs
use cache_cleaner.Base.{Bool, true, false, ◌||◌, List, [], ◌∷◌}
use cache_cleaner.Base.Text.{codes}
use cache_cleaner.Domain.Types.{Generation}
use cache_cleaner.System.Os.{Os}
use cache_cleaner.System.World.{Act, call}
use cache_cleaner.Executor.Run.{CatalogSnapshot}
use cache_cleaner.Catalog.{Targets, system_junk_locations, next_generation, publish}
use cache_cleaner.Catalog.Discovery.{
  EncryptionState, unencrypted, device_encrypted_only, fully_unlocked, unknown, AndroidUser,
  Platform, collect_android_user_targets, collect_android_external_targets, collect_system_targets,
}

-- Whether the user counts as found
abbrev pub is_known : EncryptionState → Bool
is_known unknown = false
is_known _ = true

module _ (os : Os) (platform : Platform os.State) where
  open os use {State}

  abbrev pub collect_unlocked : AndroidUser → Generation → Targets → Act State Targets
  collect_unlocked user g out w =
      let (ce, w₁) = collect_android_user_targets os platform user.ce_path user.user_id g out w in
      let (de, w₂) = collect_android_user_targets os platform user.de_path user.user_id g ce w₁ in
      collect_android_external_targets os platform user.media_path user.user_id g de w₂

  -- The arms on the state of the encryption
  unfoldable pub collect_user :
      EncryptionState → AndroidUser → Generation → Targets → Act State Targets
  collect_user fully_unlocked user g out w = collect_unlocked user g out w
  collect_user unencrypted user g out w = collect_unlocked user g out w
  collect_user device_encrypted_only user g out w =
      collect_android_user_targets os platform user.de_path user.user_id g out w
  collect_user unknown user g out w = (out, w)

  -- The loop over the users, with whether one was found
  unfoldable pub collect_users :
      List AndroidUser → Generation → Bool → Targets → Act State (Bool × Targets)
  collect_users [] g found out w = ((found, out), w)
  collect_users (user ∷ users) g found out w =
      let (state, w₁) = call (platform.check_encryption_state user.user_id) w in
      let (out', w₂) = collect_user state user g out w₁ in
      collect_users users g (found || is_known state) out' w₂

  -- The fallback without users
  unfoldable pub collect_fallback : Bool → Generation → Targets → Act State Targets
  collect_fallback true g out w = (out, w)
  collect_fallback false g out w =
      let (a, w₁) = collect_android_user_targets os platform (codes "/data/user/0") 0 g out w in
      let (b, w₂) = collect_android_user_targets os platform (codes "/data/user_de/0") 0 g a w₁ in
      collect_android_user_targets os platform (codes "/data/data") 0 g b w₂

  -- The staging map
  unfoldable pub collect_all : Generation → Act State Targets
  collect_all g w =
      let (users, w₁) = call platform.enumerate_users w in
      let ((found, out), w₂) = collect_users users g false [] w₁ in
      let (out', w₃) = collect_fallback found g out w₂ in
      collect_system_targets os platform g system_junk_locations out' w₃

  -- `discover_all_targets`
  unfoldable pub discover_all_targets : CatalogSnapshot → Act State CatalogSnapshot
  discover_all_targets current w =
      let g = next_generation current.generation in
      let (staging, w') = collect_all g w in (publish g staging current, w')
