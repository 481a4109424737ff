-- ===== src/Platform/Laws.antt =====
-- Reading `localStorage` after a write.
use mc_service.Prelude.{
  String, none, some, [], ◌∷◌, ◌≡◌, refl, arith, if◌then◌else◌, str_eq, eq_iff,
}
use mc_service.Platform.{Storage, get_item, set_item, remove_item}

pub get_item-set_item :
    (j k v : String) (s : Storage)
    → get_item j (set_item k v s) ≡ (if str_eq k j then some v else get_item j s)
unfolding get_item set_item
get_item-set_item j k v [] = refl
get_item-set_item j k v ((i, w) ∷ s) =
    ground (arith, eq_iff k j, eq_iff i k, eq_iff i j, get_item-set_item j k v s)

pub get_item-remove_item :
    (j k : String) (s : Storage)
    → get_item j (remove_item k s) ≡ (if str_eq k j then none else get_item j s)
unfolding get_item remove_item
get_item-remove_item j k [] = ground arith
get_item-remove_item j k ((i, w) ∷ s) =
    ground (arith, eq_iff k j, eq_iff i k, eq_iff i j, get_item-remove_item j k s)
