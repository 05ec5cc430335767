-- ===== src/TransactionSimple/Read.antt =====
-- Deserialize of transaction_simple.go and of its parts.
use go_pandora_pay.Prelude.{ℕ, zero, suc, Bool, ◌||◌, some, List, [], ◌∷◌, ◌==◌, if◌then◌else◌}
use go_pandora_pay.Buffers.{
  Read, pure, fail, ◌>>=◌, invalid_script_type, invalid_data_version, read_bool, read_byte,
  read_bytes, read_uvarint, read_variable_bytes, public_key_size, hash_size,
}
use go_pandora_pay.Liquidity.{deserialize_list}
use go_pandora_pay.TransactionSimple.{
  TransactionSimple, TransactionSimpleInput, UpdateAssetFeeLiquidity, ResolutionConditionalPayment,
  Extra, update_extra, resolution_extra, has_vin, signature_size, tx_data_none, tx_data_plain_text,
  tx_data_encrypted, script_update_asset_fee_liquidity, script_resolution_conditional_payment,
}

-- config.TRANSACTIONS_MAX_DATA_LENGTH
abbrev pub transactions_max_data_length : ℕ
transactions_max_data_length = 512

unfoldable pub deserialize_input : Read TransactionSimpleInput
deserialize_input = do
  public_key ← read_bytes public_key_size
  signature ← read_bytes signature_size
  pure (record { public_key = public_key; signature = signature })

-- `if txExtra.NewCollector { … }`
unfoldable pub read_collector : Bool → Read (List ℕ)
read_collector new_collector = if new_collector then read_bytes public_key_size else pure []

unfoldable pub deserialize_update : Read UpdateAssetFeeLiquidity
unfolding read_collector
deserialize_update = do
  new_collector ← read_bool
  collector ← read_collector new_collector
  count ← read_byte
  liquidities ← deserialize_list count
  pure (record { liquidities = liquidities; new_collector = new_collector; collector = collector })

-- The keys and the signatures in turn.
unfoldable pub read_signed : ℕ → Read (List (List ℕ) × List (List ℕ))
read_signed zero = pure ([], [])
read_signed (suc n) = do
  key ← read_bytes public_key_size
  signature ← read_bytes signature_size
  (keys, signatures) ← read_signed n
  pure (key ∷ keys, signature ∷ signatures)

unfoldable pub deserialize_resolution : Read ResolutionConditionalPayment
unfolding read_signed
deserialize_resolution = do
  tx_id ← read_bytes hash_size
  payload_index ← read_byte
  resolution ← read_bool
  n ← read_byte
  (keys, signatures) ← read_signed n
  pure (record {
    tx_id = tx_id;
    payload_index = payload_index;
    resolution = resolution;
    multisig_public_keys = keys;
    signatures = signatures;
  })

-- By the type that the script gave the extra.
unfoldable pub deserialize_extra : ℕ → Read Extra
unfolding deserialize_update deserialize_resolution
deserialize_extra tx_script =
    if tx_script == script_update_asset_fee_liquidity
    then (deserialize_update >>= λ this. pure (update_extra this))
    else (deserialize_resolution >>= λ this. pure (resolution_extra this))

-- `switch tx.TxScript { … default: return errors.New("INVALID SCRIPT TYPE") }`
unfoldable pub known_script : ℕ → Read (Unit {0})
known_script tx_script =
    if tx_script == script_update_asset_fee_liquidity
      || tx_script == script_resolution_conditional_payment
    then pure tt
    else fail invalid_script_type

-- `switch tx.DataVersion { … }`: without data the transaction keeps what it has.
unfoldable pub read_data : ℕ → List ℕ → Read (List ℕ)
read_data data_version before =
    if data_version == tx_data_none
    then pure before
    else if data_version == tx_data_plain_text || data_version == tx_data_encrypted
    then read_variable_bytes transactions_max_data_length
    else fail invalid_data_version

-- `if tx.HasVin() { … }`, which leaves the nonce, the fee and the input of `tx` else
unfoldable pub read_vin : Read TransactionSimpleInput → TransactionSimple → Read TransactionSimple
unfolding has_vin
read_vin read_input tx =
    if has_vin tx.tx_script
    then (do
      nonce ← read_uvarint
      fee ← read_uvarint
      vin ← read_input
      pure (record tx { nonce = nonce; fee = fee; vin = some vin }))
    else pure tx

-- Deserialize over a read of the input.
unfoldable pub deserialize_with :
    Read TransactionSimpleInput → TransactionSimple → Read TransactionSimple
unfolding known_script read_data read_vin deserialize_extra
deserialize_with read_input tx = do
  n ← read_uvarint
  _ ← known_script n
  data_version ← read_byte
  tx_data ← read_data data_version tx.tx_data
  tx' ←
      read_vin read_input
        (record tx { tx_script = n; data_version = data_version; tx_data = tx_data })
  extra ← deserialize_extra n
  pure (record tx' { extra = some extra })

unfoldable pub deserialize : TransactionSimple → Read TransactionSimple
unfolding deserialize_input deserialize_with
deserialize tx = deserialize_with deserialize_input tx
