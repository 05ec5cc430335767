-- ===== src/Liquidity.antt =====
-- blockchain/data_storage/plain_accounts/plain_account/asset_fee_liquidity: the assets in which an
-- account pays fees for others, each with its rate, and the collector of those fees. A nil slice is
-- the empty list. An update writes to the receiver, so it gives back its outcome and the receiver.
pub mod Update
pub mod Encoding
mod Tests
use go_pandora_pay.Prelude.{
  ℕ, zero, suc, ◌%◌, ◌≡◌, Bool, true, false, ◌||◌, Option, none, some, List, [], ◌∷◌, ◌++◌, length,
  not, ltb, ◌==◌, bytes_equal, if◌then◌else◌,
}
use go_pandora_pay.Prelude.Result.{Result, ok, err, panic, fail_if}
use go_pandora_pay.Prelude.Result
use go_pandora_pay.Buffers.{
  BufferWriter, Read, pure, fail, ◌>>=◌, invalid_version, read_byte, read_bytes, read_uvarint,
  write, write_byte, write_uvarint, asset_length, public_key_size, native_asset_full,
}

pub data LiquidityError : Type 0 where
  asset_length_invalid native_not_allowed invalid_leading_zeros : LiquidityError
  collector_without_liquidity collector_needed invalid_list_length : LiquidityError
  unknown_version list_exceeds_max : LiquidityError

pub record AssetFeeLiquidity : Type 0 where
  pub asset : List ℕ
  pub rate : ℕ
  pub leading_zeros : ℕ

-- AssetFeeLiquiditiesVersion is a uint64 with two names.
abbrev pub version_none : ℕ
version_none = 0

abbrev pub version_simple : ℕ
version_simple = 1

pub record AssetFeeLiquidities : Type 0 where
  pub version : ℕ
  pub list : List AssetFeeLiquidity
  pub collector : List ℕ

-- `&AssetFeeLiquidities{}`
abbrev pub no_liquidities : AssetFeeLiquidities
no_liquidities = record { version = version_none; list = []; collector = [] }

pub data UpdateLiquidityStatus : Type 0 where
  update_nothing update_overwritten update_inserted update_deleted : UpdateLiquidityStatus

-- config_assets.ASSETS_DECIMAL_SEPARATOR_MAX_BYTE
abbrev pub decimal_separator_max : ℕ
decimal_separator_max = 10

unfoldable pub validate_liquidity : AssetFeeLiquidity → Result LiquidityError (Unit {0})
validate_liquidity self =
    if not (length self.asset == asset_length)
    then err asset_length_invalid
    else if bytes_equal self.asset native_asset_full
    then err native_not_allowed
    else if ltb decimal_separator_max self.leading_zeros
    then err invalid_leading_zeros
    else ok tt

unfoldable pub has_asset_fee_liquidities : AssetFeeLiquidities → Bool
has_asset_fee_liquidities self = self.version == version_simple

unfoldable pub clear : AssetFeeLiquidities → AssetFeeLiquidities
clear self = record { version = version_none; list = []; collector = [] }

unfoldable pub validate : AssetFeeLiquidities → Result LiquidityError (Unit {0})
validate self =
    if self.version == version_none
    then if not (length self.list == 0) || not (length self.collector == 0)
      then err collector_without_liquidity
      else ok tt
    else if self.version == version_simple
    then if (length self.list == 0) || not (length self.collector == public_key_size)
      then err collector_needed
      else if ltb 255 (length self.list)
      then err invalid_list_length
      else ok tt
    else err unknown_version

-- `for _, it := range self.List { if bytes.Equal(it.Asset, assetId) { return it } }`
pub find_asset : List ℕ → List AssetFeeLiquidity → Option AssetFeeLiquidity
find_asset asset_id [] = none
find_asset asset_id (it ∷ l) =
    if bytes_equal it.asset asset_id then some it else find_asset asset_id l

unfoldable pub get_liquidity : List ℕ → AssetFeeLiquidities → Option AssetFeeLiquidity
unfolding find_asset
get_liquidity asset_id self = find_asset asset_id self.list

-- The loop of the deletion: the list without the first entry of the asset, if there is one.
pub delete_asset : List ℕ → List AssetFeeLiquidity → Option (List AssetFeeLiquidity)
delete_asset asset_id [] = none
delete_asset asset_id (it ∷ l) =
    let rest = delete_asset asset_id l in
    if bytes_equal it.asset asset_id
    then some l
    else elim rest [ none ↦ none | some l' ↦ some (it ∷ l') ]

-- The loop of the overwriting: the first entry of the asset takes the new rate and zeros.
pub overwrite_asset : AssetFeeLiquidity → List AssetFeeLiquidity → Option (List AssetFeeLiquidity)
overwrite_asset update [] = none
overwrite_asset update (it ∷ l) =
    let rest = overwrite_asset update l in
    if bytes_equal it.asset update.asset
    then some (record it { rate = update.rate; leading_zeros = update.leading_zeros } ∷ l)
    else elim rest [ none ↦ none | some l' ↦ some (it ∷ l') ]

-- `if len(self.List) == 0 { self.Clear() }` behind a deletion
pub delete_found : AssetFeeLiquidities → List AssetFeeLiquidity → AssetFeeLiquidities
unfolding clear
delete_found self l =
    let self' = record self { list = l } in if length l == 0 then clear self' else self'

abbrev pub Updated : Type 0
Updated = Result LiquidityError UpdateLiquidityStatus × AssetFeeLiquidities

pub insert_asset : AssetFeeLiquidity → AssetFeeLiquidities → Updated
insert_asset update self =
    if ltb 255 (length self.list)
    then (err list_exceeds_max, self)
    else (ok update_inserted, record self { list = self.list ++ update ∷ [] })

unfoldable pub update_liquidity : AssetFeeLiquidity → AssetFeeLiquidities → Updated
unfolding delete_asset overwrite_asset delete_found insert_asset
update_liquidity update self =
    if update.rate == 0
    then elim (delete_asset update.asset self.list) [
      | some l ↦ (ok update_deleted, delete_found self l)
      | none ↦ (ok update_nothing, self)
    ]
    else elim (overwrite_asset update self.list) [
      | some l ↦ (ok update_overwritten, record self { list = l })
      | none ↦ insert_asset update self
    ]

unfoldable pub serialize_liquidity : AssetFeeLiquidity → BufferWriter → BufferWriter
serialize_liquidity self w =
    write_byte self.leading_zeros (write_uvarint self.rate (write self.asset w))

unfoldable pub deserialize_liquidity : Read AssetFeeLiquidity
deserialize_liquidity = do
  asset ← read_bytes asset_length
  rate ← read_uvarint
  leading_zeros ← read_byte
  pure (record { asset = asset; rate = rate; leading_zeros = leading_zeros })

-- `for _, liquidity := range self.List { liquidity.Serialize(w) }`
unfoldable pub serialize_list : List AssetFeeLiquidity → BufferWriter → BufferWriter
unfolding serialize_liquidity
serialize_list [] w = w
serialize_list (liquidity ∷ l) w = serialize_list l (serialize_liquidity liquidity w)

unfoldable pub serialize : AssetFeeLiquidities → BufferWriter → BufferWriter
unfolding serialize_list
serialize self w =
    let w' = write_uvarint self.version w in
    if self.version == version_simple
    then write self.collector (serialize_list self.list (write_byte (length self.list % 256) w'))
    else w'

-- `for i := range self.List { self.List[i].Deserialize(r) }`
pub deserialize_list : ℕ → Read (List AssetFeeLiquidity)
unfolding deserialize_liquidity
deserialize_list zero = pure []
deserialize_list (suc count) = do
  liquidity ← deserialize_liquidity
  l ← deserialize_list count
  pure (liquidity ∷ l)

pub deserialize_simple : Read AssetFeeLiquidities
unfolding deserialize_list
deserialize_simple = do
  count ← read_byte
  l ← deserialize_list count
  collector ← read_bytes public_key_size
  pure (record { version = version_simple; list = l; collector = collector })

-- `Deserialize` over the fields that `self` has already.
unfoldable pub deserialize : AssetFeeLiquidities → Read AssetFeeLiquidities
unfolding deserialize_simple
deserialize self = do
  n ← read_uvarint
  if n == version_none
      then pure (record self { version = n })
      else if n == version_simple
      then deserialize_simple
      else fail invalid_version
