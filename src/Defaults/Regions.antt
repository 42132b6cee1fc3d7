-- ===== src/Defaults/Regions.antt =====
-- The three tables of regions of cloud/common/defaults.go agree with one another.
use cluster_api_provider_ucl.Prelude.{◌≡◌, refl, String, List, [], ◌∷◌}
use cluster_api_provider_ucl.Defaults.{region_zone_map, region_image_map, region_eip_operator}

abbrev keys {ℓ} : {V : Type ℓ} → List (String × V) → List String
keys [] = []
keys ((k, v) ∷ m) = k ∷ keys m

same_keys :
    (keys region_zone_map ≡ keys region_image_map)
    × (keys region_zone_map ≡ keys region_eip_operator)
unfolding region_zone_map region_image_map region_eip_operator
same_keys = (refl, refl)
