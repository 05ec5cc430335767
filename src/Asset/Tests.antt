-- ===== src/Asset/Tests.antt =====
-- asset.go on a given asset.
use go_pandora_pay.Prelude.{
  ◌≡◌, refl, true, false, [], ◌∷◌, replicate, bytes_equal, if◌then◌else◌, arith,
}
use go_pandora_pay.Prelude.Result.{ok, err}
use go_pandora_pay.Buffers.{ReadError, new_buffer_writer}
use go_pandora_pay.Buffers.Written.{new_buffer_writer-IsWriter}
use go_pandora_pay.Buffers.RoundTrip.{reader_after}
use go_pandora_pay.Asset.{
  Asset, new_asset, set_identification, serialize, deserialize, add_supply, add_native_supply,
  burn_public_key, cannot_mint, cannot_burn, burn_key,
}
use go_pandora_pay.Asset.Supply.{changed_supply, add_supply_exact}
use go_pandora_pay.Asset.Encoding.{Fits, deserialize-serialize_asset}

abbrev coin : Asset
coin = record {
  public_key_hash = 0xab ∷ 0xcd ∷ 0xef ∷ replicate 17 1;
  index = 3;
  version = 0;
  can_upgrade = true;
  can_mint = true;
  can_burn = false;
  can_change_update_public_key = false;
  can_change_supply_public_key = true;
  can_pause = false;
  can_freeze = false;
  decimal_separator = 5;
  max_supply = 1000;
  supply = 400;
  update_public_key = replicate 33 4;
  supply_public_key = replicate 33 5;
  name = b'c' ∷ b'o' ∷ b'i' ∷ b'n' ∷ [];
  ticker = b'C' ∷ b'N' ∷ [];
  identification = b'C' ∷ b'N' ∷ b'-' ∷ b'a' ∷ b'b' ∷ b'c' ∷ b'd' ∷ b'e' ∷ b'f' ∷ [];
  description = b'a' ∷ [];
  data_bytes = [];
}

coin-identified : set_identification {E = ReadError} coin ≡ ok coin
unfolding set_identification bytes_equal
coin-identified = refl

coin-Fits : Fits coin
coin-Fits = record {
  version = omega arith;
  max_supply = omega arith;
  supply = omega arith;
  update_public_key = refl;
  supply_public_key = refl;
  name = omega arith;
  ticker = omega arith;
  description = omega arith;
  data_bytes = omega arith;
  identification = coin-identified;
}

deserialize-serialize_asset_example :
    deserialize
      (new_asset coin.public_key_hash 3)
      (reader_after new_buffer_writer (serialize coin new_buffer_writer) [] [])
    ≡ (
      ok coin,
      reader_after (serialize coin new_buffer_writer) (serialize coin new_buffer_writer) [] [],
    )
deserialize-serialize_asset_example =
    deserialize-serialize_asset coin new_buffer_writer [] [] new_buffer_writer-IsWriter coin-Fits

add_supply_exact_example :
    (add_native_supply true 600 coin ≡ changed_supply true 600 coin)
    × (add_supply true 600 coin ≡ (
        if bytes_equal coin.supply_public_key burn_key
        then err burn_public_key
        else if (if true then coin.can_mint else coin.can_burn)
        then changed_supply true 600 coin
        else err (if true then cannot_mint else cannot_burn)))
add_supply_exact_example = add_supply_exact true 600 coin (omega arith) (omega arith) (omega arith)
