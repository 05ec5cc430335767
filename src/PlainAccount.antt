-- ===== src/PlainAccount.antt =====
-- blockchain/data_storage/plain_accounts/plain_account/plain_account.go: the account that is not
-- registered, its nonce, what it has not claimed, and the assets in which it pays fees.
pub mod Laws
mod Tests
use go_pandora_pay.Prelude.{ℕ, Bool, true, false, ◌&&◌, List, [], ◌∷◌, not, ◌==◌, if◌then◌else◌}
use go_pandora_pay.Prelude.Result.{Result, ok, err, panic}
use go_pandora_pay.SafeMath.{MathError, safe_uint64_update}
use go_pandora_pay.Buffers.{BufferWriter, Read, pure, ◌>>=◌, read_uvarint, write_uvarint}
use go_pandora_pay.Liquidity.{
  AssetFeeLiquidities, LiquidityError, no_liquidities, has_asset_fee_liquidities,
}
use go_pandora_pay.Liquidity

pub record PlainAccount : Type 0 where
  pub key : List ℕ
  pub index : ℕ
  pub nonce : ℕ
  pub unclaimed : ℕ
  pub asset_fee_liquidities : AssetFeeLiquidities

unfoldable pub new_plain_account : List ℕ → ℕ → PlainAccount
new_plain_account key index = record {
  key = key;
  index = index;
  nonce = 0;
  unclaimed = 0;
  asset_fee_liquidities = no_liquidities;
}

unfoldable pub is_deletable : PlainAccount → Bool
unfolding has_asset_fee_liquidities
is_deletable self =
    if self.unclaimed == 0
      && self.nonce == 0
      && not (has_asset_fee_liquidities self.asset_fee_liquidities)
    then true
    else false

unfoldable pub set_key : List ℕ → PlainAccount → PlainAccount
set_key key self = record self { key = key }

unfoldable pub set_index : ℕ → PlainAccount → PlainAccount
set_index value self = record self { index = value }

unfoldable pub validate : PlainAccount → Result LiquidityError (Unit {0})
validate self = Liquidity.validate self.asset_fee_liquidities

-- A method that fails leaves the account as it is.
with_nonce : PlainAccount → Result MathError ℕ → Result MathError PlainAccount
with_nonce self (ok n) = ok (record self { nonce = n })
with_nonce self (err e) = err e
with_nonce self panic = panic

unfoldable pub increment_nonce : Bool → PlainAccount → Result MathError PlainAccount
unfolding with_nonce
increment_nonce sign self = with_nonce self (safe_uint64_update sign self.nonce 1)

with_unclaimed : PlainAccount → Result MathError ℕ → Result MathError PlainAccount
with_unclaimed self (ok n) = ok (record self { unclaimed = n })
with_unclaimed self (err e) = err e
with_unclaimed self panic = panic

unfoldable pub add_unclaimed : Bool → ℕ → PlainAccount → Result MathError PlainAccount
unfolding with_unclaimed
add_unclaimed sign amount self = with_unclaimed self (safe_uint64_update sign self.unclaimed amount)

unfoldable pub serialize : PlainAccount → BufferWriter → BufferWriter
serialize self w =
    Liquidity.serialize self.asset_fee_liquidities
      (write_uvarint self.unclaimed (write_uvarint self.nonce w))

unfoldable pub deserialize : PlainAccount → Read PlainAccount
deserialize self = do
  nonce ← read_uvarint
  unclaimed ← read_uvarint
  liquidities ← Liquidity.deserialize self.asset_fee_liquidities
  pure (record self { nonce = nonce; unclaimed = unclaimed; asset_fee_liquidities = liquidities })
