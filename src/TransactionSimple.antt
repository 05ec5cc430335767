-- ===== src/TransactionSimple.antt =====
-- blockchain/transactions/transaction/transaction_simple: the simple transaction with its input and its
-- two extras, and their validation. A nil slice is the empty list. crypto.VerifySignature, which
-- stands on a curve library, is the parameter `verify_signature`.
pub mod Write
pub mod Read
pub mod Encoding
pub mod Layout
pub mod RoundTrip
pub mod Valid
mod Tests
use go_pandora_pay.Prelude.{
  ℕ, ◌%◌, ◌+◌, Bool, true, false, not, ◌&&◌, ◌||◌, Option, none, some, List, [], ◌∷◌, ◌++◌, length,
  replicate, ltb, ◌==◌, bytes_equal, if◌then◌else◌,
}
use go_pandora_pay.Prelude.Result.{Result, ok, err, panic, fail_if, ◌>>=◌, ◌>>◌}
use go_pandora_pay.Buffers.{public_key_size}
use go_pandora_pay.Asset.{burn_key}
use go_pandora_pay.Liquidity.{AssetFeeLiquidity, LiquidityError, validate_liquidity}
use go_pandora_pay.ConditionalPayment.{unique_count}

pub data TxError : Type 0 where
  input_is_burn public_key_length signature_length : TxError
  extra_not_assigned invalid_script : TxError
  signatures_mismatch number_of_keys fee_not_zero duplicate_keys : TxError
  liquidity_error : LiquidityError → TxError
  version_invalid not_bloomed signature_failed invalid_tx_version : TxError

-- cryptography.SignatureSize
abbrev pub signature_size : ℕ
signature_size = 64

pub record TransactionSimpleInput : Type 0 where
  pub public_key : List ℕ
  pub signature : List ℕ

pub record UpdateAssetFeeLiquidity : Type 0 where
  pub liquidities : List AssetFeeLiquidity
  pub new_collector : Bool
  pub collector : List ℕ

pub record ResolutionConditionalPayment : Type 0 where
  pub tx_id : List ℕ
  pub payload_index : ℕ
  pub resolution : Bool
  pub multisig_public_keys : List (List ℕ)
  pub signatures : List (List ℕ)

-- TransactionSimpleExtraInterface, by the types that implement it
pub data Extra : Type 0 where
  update_extra : UpdateAssetFeeLiquidity → Extra
  resolution_extra : ResolutionConditionalPayment → Extra

-- ScriptType is a uint64, TransactionDataVersion a byte.
abbrev pub script_update_asset_fee_liquidity : ℕ
script_update_asset_fee_liquidity = 0

abbrev pub script_resolution_conditional_payment : ℕ
script_resolution_conditional_payment = 1

abbrev pub tx_data_none : ℕ
tx_data_none = 0

abbrev pub tx_data_plain_text : ℕ
tx_data_plain_text = 1

abbrev pub tx_data_encrypted : ℕ
tx_data_encrypted = 2

pub record TransactionSimple : Type 0 where
  -- `none` is nil, in the extra, the input and the bloom
  pub extra : Option Extra
  pub tx_script : ℕ
  pub data_version : ℕ
  pub tx_data : List ℕ
  pub nonce : ℕ
  pub fee : ℕ
  pub vin : Option TransactionSimpleInput
  -- TransactionSimpleBloom, by its flag
  pub bloom : Option Bool

-- `&TransactionSimple{}`
unfoldable pub empty_transaction : TransactionSimple
empty_transaction = record {
  extra = none;
  tx_script = 0;
  data_version = 0;
  tx_data = [];
  nonce = 0;
  fee = 0;
  vin = none;
  bloom = none;
}

unfoldable pub has_vin : ℕ → Bool
has_vin tx_script = tx_script == script_update_asset_fee_liquidity

unfoldable pub compute_fee : TransactionSimple → Result TxError ℕ
compute_fee tx = ok tx.fee

unfoldable pub validate_input : TransactionSimpleInput → Result TxError (Unit {0})
validate_input vin = do
  fail_if (bytes_equal vin.public_key burn_key) input_is_burn
  fail_if (not (length vin.public_key == public_key_size)) public_key_length
  fail_if (not (length vin.signature == signature_size)) signature_length

-- `for _, liquidity := range txExtra.Liquidities { … }`
unfoldable pub validate_liquidities : List AssetFeeLiquidity → Result TxError (Unit {0})
validate_liquidities [] = ok tt
validate_liquidities (liquidity ∷ l) =
    let rest = validate_liquidities l in
    elim (validate_liquidity liquidity) [
      | ok _ ↦ rest
      | err e ↦ err (liquidity_error e)
      | panic ↦ panic
    ]

unfoldable pub validate_resolution : ResolutionConditionalPayment → ℕ → Result TxError (Unit {0})
unfolding unique_count
validate_resolution this fee = do
  fail_if (not (length this.multisig_public_keys == length this.signatures)) signatures_mismatch
  fail_if (length this.multisig_public_keys == 0 || ltb 5 (length this.multisig_public_keys))
      number_of_keys
  fail_if (not (fee == 0)) fee_not_zero
  fail_if (not (unique_count this.multisig_public_keys == length this.multisig_public_keys))
      duplicate_keys

unfoldable pub validate_extra : Extra → ℕ → Result TxError (Unit {0})
unfolding validate_liquidities validate_resolution
validate_extra (update_extra this) fee = validate_liquidities this.liquidities
validate_extra (resolution_extra this) fee = validate_resolution this fee

-- `if tx.HasVin() { tx.Vin.Validate() }`, a nil pointer without an input
unfoldable pub validate_vin : TransactionSimple → Result TxError (Unit {0})
unfolding has_vin validate_input
validate_vin tx =
    if has_vin tx.tx_script
    then elim tx.vin [ none ↦ panic | some vin ↦ validate_input vin ]
    else ok tt

unfoldable pub validate_script : TransactionSimple → Result TxError (Unit {0})
unfolding validate_extra
validate_script tx =
    if tx.tx_script == script_update_asset_fee_liquidity
      || tx.tx_script == script_resolution_conditional_payment
    then elim tx.extra [ none ↦ err extra_not_assigned | some extra ↦ validate_extra extra tx.fee ]
    else err invalid_script

unfoldable pub validate : TransactionSimple → Result TxError (Unit {0})
unfolding validate_vin validate_script
validate tx = validate_vin tx >> validate_script tx

-- BloomNow
unfoldable pub bloom_now : TransactionSimple → TransactionSimple
bloom_now tx = elim tx.bloom [ none ↦ record tx { bloom = some true } | some bloom ↦ tx ]

unfoldable pub verify_bloom_all : TransactionSimple → Result TxError (Unit {0})
verify_bloom_all tx = elim tx.bloom [
  | none ↦ err not_bloomed
  | some bloomed ↦ fail_if (not bloomed) not_bloomed
]
