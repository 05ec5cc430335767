-- ===== src/Asset.antt =====
-- blockchain/data_storage/assets/asset/asset.go: an asset, its supply and its encoding, without Validate
-- and the conversions on floats. The capacity of a key is taken for its length.
pub mod Supply
pub mod Encoding
mod Tests
use go_pandora_pay.Prelude.{
  ℕ, ◌+◌, ◌-◌, ◌/◌, ◌%◌, ◌^◌, Bool, true, false, not, List, [], ◌∷◌, ◌++◌, length, take, ltb,
  bytes_equal, if◌then◌else◌,
}
use go_pandora_pay.Prelude.Result.{Result, ok, err, panic}
use go_pandora_pay.SafeMath.{MathError, safe_uint64_add, safe_uint64_sub}
use go_pandora_pay.Buffers.{
  BufferWriter, Read, pure, ◌>>=◌, read_bool, read_byte, read_bytes, read_uvarint, read_string,
  read_variable_bytes, write, write_bool, write_byte, write_uvarint, write_string,
  write_variable_bytes, public_key_size, native_asset_full,
}

pub record Asset : Type 0 where
  pub public_key_hash : List ℕ
  pub index : ℕ
  pub version : ℕ
  pub can_upgrade : Bool
  pub can_mint : Bool
  pub can_burn : Bool
  pub can_change_update_public_key : Bool
  pub can_change_supply_public_key : Bool
  pub can_pause : Bool
  pub can_freeze : Bool
  pub decimal_separator : ℕ
  pub max_supply : ℕ
  pub supply : ℕ
  pub update_public_key : List ℕ
  pub supply_public_key : List ℕ
  pub name : List ℕ
  pub ticker : List ℕ
  pub identification : List ℕ
  pub description : List ℕ
  pub data_bytes : List ℕ

unfoldable pub new_asset : List ℕ → ℕ → Asset
new_asset public_key_hash index = record {
  public_key_hash = public_key_hash;
  index = index;
  version = 0;
  can_upgrade = false;
  can_mint = false;
  can_burn = false;
  can_change_update_public_key = false;
  can_change_supply_public_key = false;
  can_pause = false;
  can_freeze = false;
  decimal_separator = 0;
  max_supply = 0;
  supply = 0;
  update_public_key = [];
  supply_public_key = [];
  name = [];
  ticker = [];
  identification = [];
  description = [];
  data_bytes = [];
}

pub data AssetError : Type 0 where
  burn_public_key cannot_mint cannot_burn supply_exceeded supply_negative : AssetError
  math_error : MathError → AssetError

-- config_coins.BURN_PUBLIC_KEY
abbrev pub burn_key : List ℕ
burn_key =
    0 ∷ 0 ∷ 0 ∷ 0 ∷ 0 ∷ 0 ∷ 0 ∷ 0 ∷ 0 ∷ 0 ∷ 0 ∷ 0 ∷ 0 ∷ 0 ∷ 0 ∷ 0 ∷ 0 ∷ 0 ∷ 0 ∷ 0 ∷ 0 ∷ 0 ∷ 0 ∷ 0
    ∷ 0 ∷ 0 ∷ 0 ∷ 0 ∷ 0 ∷ 0xd ∷ 0xe ∷ 0xa ∷ 0xd ∷ []

unfoldable pub with_supply : Asset → Result MathError ℕ → Result AssetError Asset
with_supply asset (ok supply) = ok (record asset { supply = supply })
with_supply asset (err e) = err (math_error e)
with_supply asset panic = panic

unfoldable pub mint : ℕ → Asset → Result AssetError Asset
unfolding with_supply
mint amount asset =
    if ltb ((asset.max_supply + 2 ^ 64 - asset.supply) % 2 ^ 64) amount
    then err supply_exceeded
    else with_supply asset (safe_uint64_add asset.supply amount)

unfoldable pub burn : ℕ → Asset → Result AssetError Asset
unfolding with_supply
burn amount asset =
    if ltb asset.supply amount
    then err supply_negative
    else with_supply asset (safe_uint64_sub asset.supply amount)

unfoldable pub add_native_supply : Bool → ℕ → Asset → Result AssetError Asset
unfolding mint burn
add_native_supply sign amount asset = if sign then mint amount asset else burn amount asset

unfoldable pub add_supply : Bool → ℕ → Asset → Result AssetError Asset
unfolding mint burn
add_supply sign amount asset =
    if bytes_equal asset.supply_public_key burn_key
    then err burn_public_key
    else if sign
    then if not asset.can_mint then err cannot_mint else mint amount asset
    else if not asset.can_burn
    then err cannot_burn
    else burn amount asset

-- encoding/hex.EncodeToString, the standard library's
abbrev pub hex_digit : ℕ → ℕ
hex_digit n = if ltb n 10 then b'0' + n else b'a' + n - 10

unfoldable pub hex_encode : List ℕ → List ℕ
hex_encode [] = []
hex_encode (b ∷ bs) = hex_digit (b / 16) ∷ hex_digit (b % 16) ∷ hex_encode bs

abbrev pub native_identification : List ℕ
native_identification = b'N' ∷ b'A' ∷ b'T' ∷ b'I' ∷ b'V' ∷ b'E' ∷ []

-- `asset.PublicKeyHash[:3]` panics where the hash is shorter.
unfoldable pub set_identification : {E : Type 0} → Asset → Result E Asset
unfolding hex_encode
set_identification asset =
    if bytes_equal asset.public_key_hash native_asset_full
    then ok (record asset { identification = native_identification })
    else if ltb (length asset.public_key_hash) 3
    then panic
    else ok (record asset {
      identification = asset.ticker ++ (b'-' ∷ hex_encode (take 3 asset.public_key_hash));
    })

unfoldable pub set_key : {E : Type 0} → List ℕ → Asset → Result E Asset
unfolding set_identification
set_key key asset =
    if not (bytes_equal key asset.public_key_hash)
    then set_identification (record asset { public_key_hash = key })
    else ok asset

unfoldable pub serialize : Asset → BufferWriter → BufferWriter
serialize asset w =
    let flags = write_bool asset.can_freeze (
      write_bool asset.can_pause (
        write_bool asset.can_change_supply_public_key (
          write_bool asset.can_change_update_public_key (
            write_bool asset.can_burn (
              write_bool asset.can_mint
                (write_bool asset.can_upgrade (write_uvarint asset.version w))))))) in
    let amounts =
      write_uvarint asset.supply
        (write_uvarint asset.max_supply (write_byte asset.decimal_separator flags)) in
    let keys = write asset.supply_public_key (write asset.update_public_key amounts) in
    write_variable_bytes asset.data_bytes
      (write_string asset.description (write_string asset.ticker (write_string asset.name keys)))

-- `asset.setIdentification()`, as the end of a read
unfoldable pub identified : Asset → Read Asset
unfolding set_identification
identified asset r = (set_identification asset, r)

unfoldable pub deserialize : Asset → Read Asset
unfolding identified
deserialize asset = do
  version ← read_uvarint
  can_upgrade ← read_bool
  can_mint ← read_bool
  can_burn ← read_bool
  can_change_update_public_key ← read_bool
  can_change_supply_public_key ← read_bool
  can_pause ← read_bool
  can_freeze ← read_bool
  decimal_separator ← read_byte
  max_supply ← read_uvarint
  supply ← read_uvarint
  update_public_key ← read_bytes public_key_size
  supply_public_key ← read_bytes public_key_size
  name ← read_string 15
  ticker ← read_string 10
  description ← read_string 1024
  data_bytes ← read_variable_bytes 5120
  identified (record asset {
    version = version;
    can_upgrade = can_upgrade;
    can_mint = can_mint;
    can_burn = can_burn;
    can_change_update_public_key = can_change_update_public_key;
    can_change_supply_public_key = can_change_supply_public_key;
    can_pause = can_pause;
    can_freeze = can_freeze;
    decimal_separator = decimal_separator;
    max_supply = max_supply;
    supply = supply;
    update_public_key = update_public_key;
    supply_public_key = supply_public_key;
    name = name;
    ticker = ticker;
    description = description;
    data_bytes = data_bytes;
  })
