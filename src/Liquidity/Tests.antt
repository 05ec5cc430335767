-- ===== src/Liquidity/Tests.antt =====
-- asset_fee_liquidities.go on given accounts.
use go_pandora_pay.Prelude.{
  ℕ, ◌≡◌, refl, some, none, List, [], ◌∷◌, ◌==◌, replicate, bytes_equal, if◌then◌else◌, arith,
}
use go_pandora_pay.Prelude.Result.{ok, err}
use go_pandora_pay.Buffers.{new_buffer_writer}
use go_pandora_pay.Buffers.Written.{new_buffer_writer-IsWriter}
use go_pandora_pay.Buffers.RoundTrip.{reader_after}
use go_pandora_pay.Liquidity.{
  AssetFeeLiquidity, AssetFeeLiquidities, version_simple, no_liquidities, update_overwritten,
  update_inserted, invalid_list_length, update_liquidity, get_liquidity, validate, serialize,
  deserialize, find_asset,
}
use go_pandora_pay.Liquidity.Update.{
  IsDistinct, get_liquidity-update_liquidity, validate-update_liquidity_full,
  validate-update_liquidity,
}
use go_pandora_pay.Liquidity.Encoding.{deserialize-serialize}

abbrev asset_of : ℕ → List ℕ
asset_of n = replicate 20 n

abbrev entry : ℕ → ℕ → AssetFeeLiquidity
entry n rate = record { asset = asset_of n; rate = rate; leading_zeros = 2 }

abbrev account : AssetFeeLiquidities
account = record {
  version = version_simple;
  list = entry 1 10 ∷ entry 2 20 ∷ [];
  collector = replicate 33 7;
}

abbrev account_overwritten : AssetFeeLiquidities
account_overwritten = record account { list = entry 1 10 ∷ entry 2 30 ∷ [] }

account-IsDistinct : IsDistinct account.list
unfolding find_asset bytes_equal
account-IsDistinct = (refl, (refl, tt))

account-updated :
    update_liquidity (entry 2 30) account ≡ (ok update_overwritten, account_overwritten)
unfolding update_liquidity bytes_equal
account-updated = refl

account-valid : validate account ≡ ok tt
unfolding validate
account-valid = refl

get_liquidity-update_liquidity_example :
    IsDistinct account_overwritten.list
    × (get_liquidity (asset_of 2) account_overwritten ≡ (
        if bytes_equal (asset_of 2) (asset_of 2)
        then (if 30 == 0 then none else some (entry 2 30))
        else get_liquidity (asset_of 2) account))
get_liquidity-update_liquidity_example =
    get_liquidity-update_liquidity (asset_of 2) (entry 2 30) account account_overwritten
      update_overwritten account-IsDistinct account-updated

validate-update_liquidity_example : validate account_overwritten ≡ ok tt
validate-update_liquidity_example =
    validate-update_liquidity (entry 2 30) account account_overwritten update_overwritten
      account-valid refl (omega arith) account-IsDistinct account-updated

abbrev full_account : AssetFeeLiquidities
full_account = record account { list = replicate 255 (entry 1 10) }

full_account-valid : validate full_account ≡ ok tt
unfolding validate
full_account-valid = refl

full_account-absent : get_liquidity (asset_of 2) full_account ≡ none
unfolding get_liquidity bytes_equal
full_account-absent = refl

validate-update_liquidity_full_example :
    ((update_liquidity (entry 2 30) full_account).0 ≡ ok update_inserted)
    × (validate (update_liquidity (entry 2 30) full_account).1 ≡ err invalid_list_length)
validate-update_liquidity_full_example =
    validate-update_liquidity_full (entry 2 30) full_account full_account-valid refl
      full_account-absent (λ e. omega arith)

deserialize-serialize_example :
    deserialize no_liquidities
      (reader_after new_buffer_writer (serialize account new_buffer_writer) (4 ∷ []) [])
    ≡ (
      ok account,
      reader_after
          (serialize account new_buffer_writer)
          (serialize account new_buffer_writer)
          (4 ∷ [])
          [],
    )
deserialize-serialize_example =
    deserialize-serialize account new_buffer_writer (4 ∷ []) [] new_buffer_writer-IsWriter
      account-valid ((refl, omega arith), ((refl, omega arith), tt))
