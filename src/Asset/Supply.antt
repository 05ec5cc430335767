-- ===== src/Asset/Supply.antt =====
-- AddSupply and AddNativeSupply of asset.go.
use go_pandora_pay.Prelude.{
  ℕ, ◌+◌, ◌-◌, ◌≤◌, ◌≡◌, Bool, true, false, leb, bytes_equal, if◌then◌else◌, arith,
}
use go_pandora_pay.Prelude.Result.{Result, ok, err}
use go_pandora_pay.SafeMath.{IsU64}
use go_pandora_pay.SafeMath.Laws.{safe_uint64_add_exact, safe_uint64_sub_exact}
use go_pandora_pay.Asset.{
  Asset, AssetError, burn_public_key, cannot_mint, cannot_burn, supply_exceeded, supply_negative,
  burn_key, with_supply, mint, burn, add_native_supply, add_supply,
}

-- A change of the supply within its bounds, and the errors at them.
abbrev pub changed_supply : Bool → ℕ → Asset → Result AssetError Asset
changed_supply true amount asset =
    if leb (asset.supply + amount) asset.max_supply
    then ok (record asset { supply = asset.supply + amount })
    else err supply_exceeded
changed_supply false amount asset =
    if leb amount asset.supply
    then ok (record asset { supply = asset.supply - amount })
    else err supply_negative

mint_exact :
    (amount : ℕ) (asset : Asset)
    → asset.supply ≤ asset.max_supply
    → IsU64 asset.max_supply
    → IsU64 amount
    → mint amount asset ≡ changed_supply true amount asset
unfolding mint with_supply
mint_exact amount asset h hm ha =
    ground (arith, safe_uint64_add_exact asset.supply amount (omega arith) ha)

burn_exact :
    (amount : ℕ) (asset : Asset)
    → IsU64 asset.supply
    → IsU64 amount
    → burn amount asset ≡ changed_supply false amount asset
unfolding burn with_supply
burn_exact amount asset hs ha = ground (arith, safe_uint64_sub_exact asset.supply amount hs ha)

-- Where the supply is no more than the uint64 maximum, AddNativeSupply changes it exactly within 0
-- and the maximum, and gives an error at the bounds; AddSupply does the same, unless the supply key
-- is the burn key, or the asset does not allow minting or burning, which are errors.
pub add_supply_exact :
    (sign : Bool) (amount : ℕ) (asset : Asset)
    → asset.supply ≤ asset.max_supply
    → IsU64 asset.max_supply
    → IsU64 amount
    → (add_native_supply sign amount asset ≡ changed_supply sign amount asset)
      × (add_supply sign amount asset ≡ (
          if bytes_equal asset.supply_public_key burn_key
          then err burn_public_key
          else if (if sign then asset.can_mint else asset.can_burn)
          then changed_supply sign amount asset
          else err (if sign then cannot_mint else cannot_burn)))
unfolding add_native_supply add_supply
add_supply_exact true amount asset h hm ha =
    let e = mint_exact amount asset h hm ha in (e, ground (arith, e))
add_supply_exact false amount asset h hm ha =
    let e = burn_exact amount asset (omega arith) ha in (e, ground (arith, e))

-- A change of the supply that went through leaves it no more than the maximum, which stays.
pub add_supply-max_supply :
    (sign : Bool) (amount : ℕ) (asset asset' : Asset)
    → asset.supply ≤ asset.max_supply
    → IsU64 asset.max_supply
    → IsU64 amount
    → add_supply sign amount asset ≡ ok asset'
    → (asset'.supply ≤ asset'.max_supply) × (asset'.max_supply ≡ asset.max_supply)
add_supply-max_supply true amount asset asset' h hm ha e =
    ground (arith, (add_supply_exact true amount asset h hm ha).1)
add_supply-max_supply false amount asset asset' h hm ha e =
    ground (arith, (add_supply_exact false amount asset h hm ha).1)
