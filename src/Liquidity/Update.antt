-- ===== src/Liquidity/Update.antt =====
-- UpdateLiquidity and Validate of asset_fee_liquidities.go, by the entry of each asset.
use go_pandora_pay.Prelude.{
  ℕ, ◌+◌, ◌<◌, ◌≡◌, ◌≢◌, ◌↔◌, refl, true, none, some, List, [], ◌∷◌, ◌++◌, length, ltb, ◌==◌,
  bytes_equal, bytes_equal_iff, if◌then◌else◌, arith, Bool-cases, Option-cases, length-append, inl,
  inr,
}
use go_pandora_pay.Prelude.Result.{Result, ok, err}
use go_pandora_pay.Liquidity.{
  UpdateLiquidityStatus, AssetFeeLiquidity, AssetFeeLiquidities, LiquidityError, list_exceeds_max,
  update_nothing, update_overwritten, update_inserted, update_deleted, find_asset, get_liquidity,
  delete_asset, overwrite_asset, delete_found, insert_asset, update_liquidity, clear,
  version_simple, invalid_list_length, validate,
}

-- No asset is listed twice.
abbrev pub IsDistinct : List AssetFeeLiquidity → Type 0
IsDistinct [] = Unit
IsDistinct (it ∷ l) = (find_asset it.asset l ≡ none) × IsDistinct l

-- Two tests of the same asset agree: what the tactics need of the byte strings that are compared.
abbrev same : (a b : List ℕ) → (bytes_equal a b ≡ true) ↔ (a ≡ b)
same = bytes_equal_iff

-- Deleting the asset takes its entry away and leaves the others.
find_asset-delete_asset :
    (k : List ℕ) (l l' : List AssetFeeLiquidity) (j : List ℕ)
    → IsDistinct l
    → delete_asset k l ≡ some l'
    → find_asset j l' ≡ (if bytes_equal k j then none else find_asset j l)
unfolding find_asset delete_asset
find_asset-delete_asset k [] l' j h e = cc
find_asset-delete_asset k (it ∷ l) l' j h e = elim (Option-cases (delete_asset k l)) [
  | inl absent ↦ ground (arith, same it.asset k, same k j, same it.asset j)
  | inr (m, found) ↦
      ground (
        arith,
        same it.asset k,
        same k j,
        same it.asset j,
        find_asset-delete_asset k l m j h.1 found,
      )
]

delete_asset-none :
    (k : List ℕ) (l : List AssetFeeLiquidity) → delete_asset k l ≡ none → find_asset k l ≡ none
unfolding find_asset delete_asset
delete_asset-none k [] e = refl
delete_asset-none k (it ∷ l) e = ground (arith, delete_asset-none k l)

delete_asset-IsDistinct :
    (k : List ℕ) (l l' : List AssetFeeLiquidity)
    → IsDistinct l
    → delete_asset k l ≡ some l'
    → IsDistinct l' × (length l ≡ length l' + 1)
unfolding delete_asset
delete_asset-IsDistinct k [] l' h e = cc
delete_asset-IsDistinct k (it ∷ l) l' h e = elim (Option-cases (delete_asset k l)) [
  | inl absent ↦ ground arith
  | inr (m, found) ↦ ground (
    arith,
    delete_asset-IsDistinct k l m h.1 found,
    find_asset-delete_asset k l m it.asset h.1 found,
    h.0,
  )
]

-- Overwriting gives the asset the new rate and leaves the others.
find_asset-overwrite_asset :
    (u : AssetFeeLiquidity) (l l' : List AssetFeeLiquidity) (j : List ℕ)
    → overwrite_asset u l ≡ some l'
    → find_asset j l' ≡ (if bytes_equal u.asset j then some u else find_asset j l)
unfolding find_asset overwrite_asset
find_asset-overwrite_asset u [] l' j e = cc
find_asset-overwrite_asset u (it ∷ l) l' j e = elim (Option-cases (overwrite_asset u l)) [
  | inl absent ↦ ground (arith, same it.asset u.asset, same u.asset j, same it.asset j)
  | inr (m, found) ↦ ground (
    arith,
    same it.asset u.asset,
    same u.asset j,
    same it.asset j,
    find_asset-overwrite_asset u l m j found,
  )
]

overwrite_asset-none :
    (u : AssetFeeLiquidity) (l : List AssetFeeLiquidity)
    → overwrite_asset u l ≡ none
    → find_asset u.asset l ≡ none
unfolding find_asset overwrite_asset
overwrite_asset-none u [] e = refl
overwrite_asset-none u (it ∷ l) e = ground (arith, overwrite_asset-none u l)

overwrite_asset-IsDistinct :
    (u : AssetFeeLiquidity) (l l' : List AssetFeeLiquidity)
    → IsDistinct l
    → overwrite_asset u l ≡ some l'
    → IsDistinct l' × (length l ≡ length l')
unfolding overwrite_asset
overwrite_asset-IsDistinct u [] l' h e = cc
overwrite_asset-IsDistinct u (it ∷ l) l' h e = elim (Option-cases (overwrite_asset u l)) [
  | inl absent ↦ ground (arith, same it.asset u.asset)
  | inr (m, found) ↦ ground (
    arith,
    same it.asset u.asset,
    same u.asset it.asset,
    overwrite_asset-IsDistinct u l m h.1 found,
    find_asset-overwrite_asset u l m it.asset found,
    h.0,
  )
]

find_asset-append :
    (u : AssetFeeLiquidity) (l : List AssetFeeLiquidity) (j : List ℕ)
    → find_asset u.asset l ≡ none
    → find_asset j (l ++ u ∷ []) ≡ (if bytes_equal u.asset j then some u else find_asset j l)
unfolding find_asset
find_asset-append u [] j h = refl
find_asset-append u (it ∷ l) j h =
    ground (arith, same it.asset u.asset, same u.asset j, same it.asset j, find_asset-append u l j)

append-IsDistinct :
    (u : AssetFeeLiquidity) (l : List AssetFeeLiquidity)
    → IsDistinct l
    → find_asset u.asset l ≡ none
    → IsDistinct (l ++ u ∷ [])
unfolding find_asset
append-IsDistinct u [] h e = (refl, tt)
append-IsDistinct u (it ∷ l) h e = ground (
  arith,
  same it.asset u.asset,
  same u.asset it.asset,
  find_asset-append u l it.asset,
  append-IsDistinct u l h.1,
)

-- What UpdateLiquidity answers, by what the account had for the asset before.
abbrev pub expected_status :
    AssetFeeLiquidity → AssetFeeLiquidities → Result LiquidityError UpdateLiquidityStatus
expected_status u self = elim (get_liquidity u.asset self) [
  | some _ ↦ ok (if u.rate == 0 then update_deleted else update_overwritten)
  | none ↦
      if u.rate == 0
      then ok update_nothing
      else if ltb 255 (length self.list)
      then err list_exceeds_max
      else ok update_inserted
]

delete_asset-some :
    (k : List ℕ) (l l' : List AssetFeeLiquidity)
    → delete_asset k l ≡ some l'
    → find_asset k l ≢ none
unfolding find_asset delete_asset
delete_asset-some k [] l' e = cc
delete_asset-some k (it ∷ l) l' e = elim (Option-cases (delete_asset k l)) [
  | inl absent ↦ ground arith
  | inr (m, found) ↦ ground (arith, delete_asset-some k l m found)
]

overwrite_asset-some :
    (u : AssetFeeLiquidity) (l l' : List AssetFeeLiquidity)
    → overwrite_asset u l ≡ some l'
    → find_asset u.asset l ≢ none
unfolding find_asset overwrite_asset
overwrite_asset-some u [] l' e = cc
overwrite_asset-some u (it ∷ l) l' e = elim (Option-cases (overwrite_asset u l)) [
  | inl absent ↦ ground arith
  | inr (m, found) ↦ ground (arith, overwrite_asset-some u l m found)
]

-- UpdateLiquidity answers by whether the asset was listed and the rate is 0: it deletes or overwrites
-- a listed asset, does nothing for rate 0 and an asset that is not listed, and else inserts the
-- asset, or gives the error behind more than 255 entries.
pub update_liquidity-expected_status :
    (u : AssetFeeLiquidity) (self : AssetFeeLiquidities)
    → (update_liquidity u self).0 ≡ expected_status u self
unfolding update_liquidity insert_asset get_liquidity
update_liquidity-expected_status u self = elim (Option-cases (delete_asset u.asset self.list)) [
  | inl absent ↦ elim (Option-cases (overwrite_asset u self.list)) [
    | inl missing ↦ ground (arith, delete_asset-none u.asset self.list absent)
    | inr (m, found) ↦ ground (
      arith,
      delete_asset-none u.asset self.list absent,
      overwrite_asset-some u self.list m found,
    )
  ]
  | inr (m, found) ↦ elim (Option-cases (overwrite_asset u self.list)) [
    | inl missing ↦ ground (
      arith,
      delete_asset-some u.asset self.list m found,
      overwrite_asset-none u self.list missing,
    )
    | inr (m', found') ↦ ground (arith, delete_asset-some u.asset self.list m found)
  ]
]

delete_found-list :
    (self : AssetFeeLiquidities) (l : List AssetFeeLiquidity) → (delete_found self l).list ≡ l
unfolding delete_found clear
delete_found-list self [] = refl
delete_found-list self (it ∷ l) = ground arith

-- An UpdateLiquidity that succeeds, on a list with no asset twice, is an update of the map from assets to their entries: the asset's entry is the new
-- one, or none if the rate is 0, every other asset keeps its entry, and no asset comes to be listed
-- twice.
pub get_liquidity-update_liquidity :
    (j : List ℕ) (u : AssetFeeLiquidity) (self self' : AssetFeeLiquidities)
    (status : UpdateLiquidityStatus)
    → IsDistinct self.list
    → update_liquidity u self ≡ (ok status, self')
    → IsDistinct self'.list
      × (get_liquidity j self' ≡ (
          if bytes_equal u.asset j
          then (if u.rate == 0 then none else some u)
          else get_liquidity j self))
unfolding update_liquidity insert_asset get_liquidity
get_liquidity-update_liquidity j u self self' status h e = elim (Bool-cases (u.rate == 0)) [
  | inl gone ↦ elim (Option-cases (delete_asset u.asset self.list)) [
    | inl absent ↦
        (ground arith, ground (arith, delete_asset-none u.asset self.list absent, same u.asset j))
    | inr (m, found) ↦ (
      ground (arith, delete_found-list self m, delete_asset-IsDistinct u.asset self.list m h found),
      ground
          (arith, delete_found-list self m, find_asset-delete_asset u.asset self.list m j h found),
    )
  ]
  | inr kept ↦ elim (Option-cases (overwrite_asset u self.list)) [
    | inl missing ↦
        let absent = overwrite_asset-none u self.list missing in
        (
          ground (arith, append-IsDistinct u self.list h absent),
          ground (arith, find_asset-append u self.list j absent),
        )
    | inr (m, found) ↦ (
      ground (arith, overwrite_asset-IsDistinct u self.list m h found),
      ground (arith, find_asset-overwrite_asset u self.list m j found),
    )
  ]
]

-- The guard of the insertion lets through one entry too many: where an account that passes Validate
-- has 255 entries, a new asset is inserted, and the account is then refused by Validate.
pub validate-update_liquidity_full :
    (u : AssetFeeLiquidity) (self : AssetFeeLiquidities)
    → validate self ≡ ok tt
    → length self.list ≡ 255
    → get_liquidity u.asset self ≡ none
    → u.rate ≢ 0
    → ((update_liquidity u self).0 ≡ ok update_inserted)
      × (validate (update_liquidity u self).1 ≡ err invalid_list_length)
unfolding update_liquidity insert_asset get_liquidity validate
validate-update_liquidity_full u self valid full absent nonzero =
    elim (Option-cases (overwrite_asset u self.list)) [
      | inl missing ↦ (ground arith, ground (arith, length-append self.list (u ∷ [])))
      | inr (m, found) ↦ absurd (overwrite_asset-some u self.list m found absent)
    ]

-- An account that passes Validate as SIMPLE, with fewer than 255 entries and no asset twice, passes
-- it again after an UpdateLiquidity that goes through.
pub validate-update_liquidity :
    (u : AssetFeeLiquidity) (self self' : AssetFeeLiquidities) (status : UpdateLiquidityStatus)
    → validate self ≡ ok tt
    → self.version ≡ version_simple
    → length self.list < 255
    → IsDistinct self.list
    → update_liquidity u self ≡ (ok status, self')
    → validate self' ≡ ok tt
unfolding update_liquidity insert_asset validate delete_found clear
validate-update_liquidity u self self' status valid simple room h e =
    elim (Bool-cases (u.rate == 0)) [
      | inl gone ↦ elim (Option-cases (delete_asset u.asset self.list)) [
        | inl absent ↦ ground arith
        | inr (m, found) ↦ ground (arith, delete_asset-IsDistinct u.asset self.list m h found)
      ]
      | inr kept ↦ elim (Option-cases (overwrite_asset u self.list)) [
        | inl missing ↦ ground (arith, length-append self.list (u ∷ []))
        | inr (m, found) ↦ ground (arith, overwrite_asset-IsDistinct u self.list m h found)
      ]
    ]
