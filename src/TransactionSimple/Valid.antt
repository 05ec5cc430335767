-- ===== src/TransactionSimple/Valid.antt =====
-- Validate of transaction_simple.go and of its parts, as the conditions that it means.
use go_pandora_pay.Prelude.{
  ℕ, ◌≤◌, ◌<◌, ◌≡◌, ◌≢◌, ◌↔◌, inl, inr, refl, false, ◌||◌, Option, none, some, List, [], ◌∷◌,
  length, All, ◌==◌, bytes_equal_iff, Bool-cases, arith,
}
use go_pandora_pay.Prelude.Result.{Result, ok, err, panic}
use go_pandora_pay.Buffers.{public_key_size, asset_length, native_asset_full}
use go_pandora_pay.Asset.{burn_key}
use go_pandora_pay.Liquidity.{AssetFeeLiquidity, validate_liquidity, decimal_separator_max}
use go_pandora_pay.ConditionalPayment.{listed, unique_count}
use go_pandora_pay.TransactionSimple.{
  TxError, extra_not_assigned, TransactionSimple, TransactionSimpleInput,
  ResolutionConditionalPayment, Extra, update_extra, resolution_extra, signature_size,
  validate_input, validate_liquidities, validate_resolution, validate_extra, validate_vin,
  validate_script, validate,
}

-- No two of the byte strings are equal.
abbrev pub Distinct : List (List ℕ) → Type 0
Distinct [] = Unit {0}
Distinct (k ∷ l) = All (λ p. p ≢ k) l × Distinct l

listed-false : (k : List ℕ) (l : List (List ℕ)) → (listed k l ≡ false) ↔ All (λ p. p ≢ k) l
unfolding listed
listed-false k [] = (λ _. tt, λ _. refl)
listed-false k (p ∷ l) = (
  λ h. (ground (arith, bytes_equal_iff p k), (listed-false k l).0 (ground arith)),
  λ (n, ns). ground (arith, bytes_equal_iff p k, (listed-false k l).1 ns),
)

unique_count-le : (l : List (List ℕ)) → unique_count l ≤ length l
unfolding unique_count
unique_count-le [] = omega arith
unique_count-le (k ∷ l) = ground (arith, unique_count-le l)

-- The map of the keys has as many entries as there are keys exactly if no key stands twice.
pub unique_count_iff : (l : List (List ℕ)) → (unique_count l ≡ length l) ↔ Distinct l
unfolding unique_count
unique_count_iff [] = (λ _. tt, λ _. refl)
unique_count_iff (k ∷ l) = (
  λ h. elim (Bool-cases (listed k l)) [
    | inl there ↦ absurd (ground (arith, unique_count-le l))
    | inr new ↦ ((listed-false k l).0 new, (unique_count_iff l).0 (ground arith))
  ],
  λ (n, ns). ground (arith, (listed-false k l).1 n, (unique_count_iff l).1 ns),
)

-- The input has the sizes of a key and a signature, and the key is not the burn key.
abbrev pub InputValid : TransactionSimpleInput → Type 0
InputValid vin =
    (vin.public_key ≢ burn_key)
    × (length vin.public_key ≡ public_key_size)
    × (length vin.signature ≡ signature_size)

validate_input_iff : (vin : TransactionSimpleInput) → (validate_input vin ≡ ok tt) ↔ InputValid vin
unfolding validate_input
validate_input_iff vin = (
  λ h. ground (arith, bytes_equal_iff vin.public_key burn_key),
  λ h. ground (arith, bytes_equal_iff vin.public_key burn_key),
)

-- An entry is for an asset other than the native one, with at most ten leading zeros.
abbrev pub EntryValid : AssetFeeLiquidity → Type 0
EntryValid l =
    (length l.asset ≡ asset_length)
    × (l.asset ≢ native_asset_full)
    × (l.leading_zeros ≤ decimal_separator_max)

validate_liquidity_iff : (l : AssetFeeLiquidity) → (validate_liquidity l ≡ ok tt) ↔ EntryValid l
unfolding validate_liquidity
validate_liquidity_iff l = (
  λ h. ground (arith, bytes_equal_iff l.asset native_asset_full),
  λ h. ground (arith, bytes_equal_iff l.asset native_asset_full),
)

validate_liquidities_iff :
    (l : List AssetFeeLiquidity) → (validate_liquidities l ≡ ok tt) ↔ All EntryValid l
unfolding validate_liquidities
validate_liquidities_iff [] = (λ _. tt, λ _. refl)
validate_liquidities_iff (e ∷ l) = (
  λ h. ((validate_liquidity_iff e).0 (ground arith), (validate_liquidities_iff l).0 (ground arith)),
  λ (v, vs). ground (arith, (validate_liquidity_iff e).1 v, (validate_liquidities_iff l).1 vs),
)

-- One to five keys, each once, with a signature each, and no fee.
abbrev pub ResolutionValid : ResolutionConditionalPayment → ℕ → Type 0
ResolutionValid this fee =
    (length this.multisig_public_keys ≡ length this.signatures)
    × (0 < length this.multisig_public_keys)
    × (length this.multisig_public_keys ≤ 5)
    × (fee ≡ 0)
    × Distinct this.multisig_public_keys

validate_resolution_iff :
    (this : ResolutionConditionalPayment) (fee : ℕ)
    → (validate_resolution this fee ≡ ok tt) ↔ ResolutionValid this fee
unfolding validate_resolution
validate_resolution_iff this fee =
    let keys = unique_count_iff this.multisig_public_keys in
    (
      λ h. (ground arith, ground arith, ground arith, ground arith, keys.0 (ground arith)),
      λ (a, b, c, d, e). ground (arith, keys.1 e),
    )

abbrev pub ExtraValid : Extra → ℕ → Type 0
ExtraValid (update_extra this) fee = All EntryValid this.liquidities
ExtraValid (resolution_extra this) fee = ResolutionValid this fee

validate_extra_iff :
    (extra : Extra) (fee : ℕ) → (validate_extra extra fee ≡ ok tt) ↔ ExtraValid extra fee
unfolding validate_extra
validate_extra_iff (update_extra this) fee = validate_liquidities_iff this.liquidities
validate_extra_iff (resolution_extra this) fee = validate_resolution_iff this fee

abbrev pub SomeValid : {A : Type 0} → (A → Type 0) → Option A → Type 0
SomeValid P none = ⊥
SomeValid P (some a) = P a

-- What Validate asks of a transaction: one of the two scripts, an extra that is valid with the fee,
-- and for an update an input that is valid.
pub record IsValid (tx : TransactionSimple) : Type 0 where
  pub script : tx.tx_script ≤ 1
  pub vin : tx.tx_script ≡ 0 → SomeValid InputValid tx.vin
  pub extra : SomeValid (λ extra. ExtraValid extra tx.fee) tx.extra

module _ {A : Type 0} (P : A → Type 0) (check : A → Result TxError (Unit {0}))
    (iff : (a : A) → (check a ≡ ok tt) ↔ P a) where
  some_iff :
      (bad : Result TxError (Unit {0})) (o : Option A)
      → bad ≢ ok tt
      → (elim o as (λ _. Result TxError (Unit {0})) [ none ↦ bad | some a ↦ check a ] ≡ ok tt)
        ↔ SomeValid P o
  some_iff bad none n = (λ h. absurd (n h), λ h. absurd h)
  some_iff bad (some a) n = iff a

validate_vin_iff :
    (tx : TransactionSimple)
    → (validate_vin tx ≡ ok tt) ↔ (tx.tx_script ≡ 0 → SomeValid InputValid tx.vin)
unfolding validate_vin
validate_vin_iff tx =
    let input = some_iff InputValid validate_input validate_input_iff panic tx.vin (λ h. cc) in
    elim (Bool-cases (tx.tx_script == 0)) [
      | inl update ↦ rw update (λ h _. input.0 h, λ v. input.1 (v (ground arith)))
      | inr other ↦ rw other (λ h e. absurd (ground arith), λ v. refl)
    ]

validate_script_iff :
    (tx : TransactionSimple)
    → (validate_script tx ≡ ok tt)
      ↔ ((tx.tx_script ≤ 1) × SomeValid (λ extra. ExtraValid extra tx.fee) tx.extra)
unfolding validate_script
validate_script_iff tx =
    let extra =
      some_iff (λ extra. ExtraValid extra tx.fee) (λ extra. validate_extra extra tx.fee)
        (λ extra. validate_extra_iff extra tx.fee) (err extra_not_assigned) tx.extra (λ h. cc) in
    elim (Bool-cases (tx.tx_script == 0 || tx.tx_script == 1)) [
      | inl known ↦ rw known (λ h. (ground arith, extra.0 h), λ v. extra.1 v.1)
      | inr other ↦ rw other (λ h. cc, λ v. absurd (ground arith))
    ]

-- Validate passes a simple transaction exactly if it is valid in this sense: of the two scripts, with
-- an extra whose entries, or whose one to five keys, each once and with a signature each and no fee,
-- are right, and for an update with an input of the right sizes that is not the burn key.
pub validate_iff : (tx : TransactionSimple) → (validate tx ≡ ok tt) ↔ IsValid tx
unfolding validate
validate_iff tx =
    let vin = validate_vin_iff tx in
    let script = validate_script_iff tx in
    (
      λ h. record {
        script = (script.0 (ground arith)).0;
        vin = vin.0 (ground arith);
        extra = (script.0 (ground arith)).1;
      },
      λ v. ground (arith, vin.1 v.vin, script.1 (v.script, v.extra)),
    )
