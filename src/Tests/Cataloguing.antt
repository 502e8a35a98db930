-- ===== src/Tests/Cataloguing.antt =====
-- The discovery of the targets at a concrete input.
use cache_cleaner.Base.{◌≡◌, refl, false, true, some, List, [], ◌∷◌}
use cache_cleaner.Base.Text.{Text, codes}
use cache_cleaner.Catalog.{is_empty}
use cache_cleaner.Catalog.Discovery.{Platform, AndroidUser, fully_unlocked}
use cache_cleaner.Catalog.Users.{discover_all_targets}
use cache_cleaner.Catalog.Publishing.{IsCatalog, discover_all_targets-IsCatalog}
use cache_cleaner.Tests.Kernel.{kernel, catalog, world}

abbrev owner : AndroidUser
owner = record {
  user_id = 0;
  ce_path = codes "/data/user/0";
  de_path = codes "/data/user_de/0";
  media_path = codes "/data/media/0";
}

-- One unlocked user, and one package in each directory.
abbrev platform : Platform (List Text)
platform = record {
  enumerate_users = λ s. (owner ∷ [], s);
  check_encryption_state = λ _ s. (fully_unlocked, s);
  list_dir =
      λ _ s. (some (record { entry_name = some (codes "app"); is_directory = true } ∷ []), s);
  owner = λ _ s. ((10001, 10001), s);
}

discover_all_targets-IsCatalog_example :
    IsCatalog (discover_all_targets kernel platform catalog world).0
    × (is_empty catalog.targets ≡ false
        → is_empty (discover_all_targets kernel platform catalog world).0.targets ≡ false)
discover_all_targets-IsCatalog_example =
    discover_all_targets-IsCatalog kernel platform catalog world ((refl, refl, refl), tt)
