-- ===== src/TransactionSimple/Layout.antt =====
-- The two kinds of simple transactions by their parts, and the bytes that SerializeAdvanced of
-- transaction_simple.go writes for them, with the signature of the input and without it.
use go_pandora_pay.Prelude.{
  ℕ, ◌≤◌, ◌≡◌, sym, ◌++◌, ◌⊎◌, Bool, true, false, List, [], ◌∷◌, length, some, none, if◌then◌else◌,
  ◌==◌, ◌||◌,
}
use go_pandora_pay.SafeMath.{IsU64}
use go_pandora_pay.Buffers.{write_byte, write_uvarint, write_variable_bytes, put_uvarint}
use go_pandora_pay.Buffers.Framing.{counted}
use go_pandora_pay.Buffers.Written.{
  Appends, write_byte-Appends, write_uvarint-Appends, write_variable_bytes-Appends,
}
use go_pandora_pay.Buffers.Checked.{AppendsOk, AppendsOk-ok, Appends-AppendsOk}
use go_pandora_pay.TransactionSimple.{
  TransactionSimple, TransactionSimpleInput, UpdateAssetFeeLiquidity, ResolutionConditionalPayment,
  update_extra, resolution_extra, tx_data_none, tx_data_plain_text, tx_data_encrypted,
}
use go_pandora_pay.TransactionSimple.Write.{
  serialize_input, serialize_update, serialize_resolution, serialize_extra, serialize_advanced,
}
use go_pandora_pay.TransactionSimple.Read.{transactions_max_data_length}
use mathlib.Core.List.{append-nil}
use go_pandora_pay.TransactionSimple.Encoding.{
  FitsInput, FitsUpdate, FitsResolution, input_bytes, update_bytes, resolution_bytes,
  serialize_input-Appends, serialize_update-Appends, serialize_resolution-AppendsOk,
}

-- What a transaction of each script holds: an update its nonce, fee and input, a resolution none.
pub data Parts : Type 0 where
  update_parts : ℕ → ℕ → TransactionSimpleInput → UpdateAssetFeeLiquidity → Parts
  resolution_parts : ResolutionConditionalPayment → Parts

-- The transaction of the parts and the data, with no bloom.
unfoldable pub assemble : ℕ → List ℕ → Parts → TransactionSimple
assemble data_version tx_data (update_parts nonce fee vin this) = record {
  extra = some (update_extra this);
  tx_script = 0;
  data_version = data_version;
  tx_data = tx_data;
  nonce = nonce;
  fee = fee;
  vin = some vin;
  bloom = none;
}
assemble data_version tx_data (resolution_parts this) = record {
  extra = some (resolution_extra this);
  tx_script = 1;
  data_version = data_version;
  tx_data = tx_data;
  nonce = 0;
  fee = 0;
  vin = none;
  bloom = none;
}

abbrev pub FitsParts : Parts → Type 0
FitsParts (update_parts nonce fee vin this) =
    IsU64 nonce × IsU64 fee × FitsInput vin × FitsUpdate this
FitsParts (resolution_parts this) = FitsResolution this

-- No data, or up to 512 bytes in plain text or encrypted.
abbrev pub FitsData : ℕ → List ℕ → Type 0
FitsData data_version tx_data =
    ((data_version ≡ tx_data_none) × (tx_data ≡ []))
    ⊎ (((data_version ≡ tx_data_plain_text) ⊎ (data_version ≡ tx_data_encrypted))
        × (length tx_data ≤ transactions_max_data_length))

abbrev pub data_bytes : ℕ → List ℕ → List ℕ
data_bytes data_version tx_data =
    if data_version == tx_data_plain_text || data_version == tx_data_encrypted
    then counted tx_data
    else []

-- The bytes of the parts, with `signed` for those of the input.
abbrev pub parts_bytes : (TransactionSimpleInput → List ℕ) → Parts → List ℕ
parts_bytes signed (update_parts nonce fee vin this) =
    put_uvarint 9 nonce ++ (put_uvarint 9 fee ++ (signed vin ++ update_bytes this))
parts_bytes signed (resolution_parts this) = resolution_bytes this

abbrev pub script_of : Parts → ℕ
script_of (update_parts nonce fee vin this) = 0
script_of (resolution_parts this) = 1

abbrev pub transaction_bytes : (TransactionSimpleInput → List ℕ) → ℕ → List ℕ → Parts → List ℕ
transaction_bytes signed data_version tx_data parts =
    put_uvarint 9 (script_of parts)
    ++ ((data_version ∷ []) ++ (data_bytes data_version tx_data ++ parts_bytes signed parts))

data_end-Appends :
    (data_version : ℕ) (tx_data : List ℕ)
    → Appends
        (λ w.
          if data_version == tx_data_plain_text || data_version == tx_data_encrypted
          then write_variable_bytes tx_data w
          else w)
        (data_bytes data_version tx_data)
data_end-Appends data_version tx_data =
    go (data_version == tx_data_plain_text || data_version == tx_data_encrypted)
  where
    go :
        (b : Bool)
        → Appends
            (λ w. if b then write_variable_bytes tx_data w else w)
            (if b then counted tx_data else [])
    go true = write_variable_bytes-Appends tx_data
    go false = λ w v. (v, sym (append-nil _))

-- The bytes of an input, with its signature or without.
abbrev pub signed_by : Bool → TransactionSimpleInput → List ℕ
signed_by incl_signature vin = if incl_signature then input_bytes vin else vin.public_key

serialize_input-Appends_by :
    (incl_signature : Bool) (vin : TransactionSimpleInput)
    → Appends (serialize_input vin incl_signature) (signed_by incl_signature vin)
serialize_input-Appends_by true vin = (serialize_input-Appends vin).0
serialize_input-Appends_by false vin = (serialize_input-Appends vin).1

abbrev pub LengthsAgree : Parts → Type 0
LengthsAgree (update_parts nonce fee vin this) = Unit {0}
LengthsAgree (resolution_parts this) = length this.multisig_public_keys ≡ length this.signatures

pub serialize_advanced-AppendsOk :
    (incl_signature : Bool) (data_version : ℕ) (tx_data : List ℕ) (parts : Parts)
    → LengthsAgree parts
    → AppendsOk
        (serialize_advanced (assemble data_version tx_data parts) incl_signature)
        (transaction_bytes (signed_by incl_signature) data_version tx_data parts)
unfolding serialize_advanced assemble serialize_extra
serialize_advanced-AppendsOk b data_version tx_data (update_parts nonce fee vin this) _ =
    Appends-AppendsOk (write_uvarint 0) _ _ _ (write_uvarint-Appends 0) (
      Appends-AppendsOk (write_byte data_version) _ _ _ (write_byte-Appends data_version) (
        Appends-AppendsOk _ _ _ _ (data_end-Appends data_version tx_data) (
          Appends-AppendsOk (write_uvarint nonce) _ _ _ (write_uvarint-Appends nonce) (
            Appends-AppendsOk (write_uvarint fee) _ _ _ (write_uvarint-Appends fee) (
              Appends-AppendsOk (serialize_input vin b) _ _ _ (serialize_input-Appends_by b vin) (
                AppendsOk-ok (serialize_update this) (update_bytes this)
                  (serialize_update-Appends this)))))))
serialize_advanced-AppendsOk b data_version tx_data (resolution_parts this) h =
    Appends-AppendsOk (write_uvarint 1) _ _ _ (write_uvarint-Appends 1) (
      Appends-AppendsOk (write_byte data_version) _ _ _ (write_byte-Appends data_version) (
        Appends-AppendsOk _ (serialize_resolution this) _ _ (data_end-Appends data_version tx_data)
          (serialize_resolution-AppendsOk this h)))
