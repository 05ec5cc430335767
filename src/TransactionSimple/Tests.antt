-- ===== src/TransactionSimple/Tests.antt =====
-- Simple transactions on given values.
use go_pandora_pay.Prelude.{◌≡◌, ◌↔◌, refl, inl, true, [], ◌∷◌, replicate, bytes_equal, arith}
use go_pandora_pay.Prelude.Result.{ok, err}
use go_pandora_pay.Liquidity.{validate_liquidity}
use go_pandora_pay.TransactionSimple.{
  UpdateAssetFeeLiquidity, ResolutionConditionalPayment, validate, duplicate_keys,
}
use go_pandora_pay.TransactionSimple.Encoding.{FitsUpdate}
use go_pandora_pay.TransactionSimple.Layout.{Parts, update_parts, resolution_parts, assemble}
use go_pandora_pay.TransactionSimple.Valid.{IsValid, validate_iff}

abbrev update : UpdateAssetFeeLiquidity
update = record {
  liquidities = record { asset = replicate 20 7; rate = 300; leading_zeros = 2 } ∷ [];
  new_collector = true;
  collector = replicate 33 5;
}

update-FitsUpdate : FitsUpdate update
update-FitsUpdate = record {
  entries = ((refl, omega arith), tt);
  few = omega arith;
  collector = inl (refl, refl);
}

abbrev parts : Parts
parts =
    update_parts 4 1000 (record { public_key = replicate 33 1; signature = replicate 64 2 }) update

-- One key twice, with a signature each time.
abbrev twice : ResolutionConditionalPayment
twice = record {
  tx_id = replicate 32 6;
  payload_index = 1;
  resolution = true;
  multisig_public_keys = replicate 33 1 ∷ replicate 33 1 ∷ [];
  signatures = replicate 64 2 ∷ replicate 64 2 ∷ [];
}

validate_twice : validate (assemble 0 [] (resolution_parts twice)) ≡ err duplicate_keys
unfolding validate assemble bytes_equal
validate_twice = refl

validate_iff_example :
    (validate (assemble 1 (8 ∷ 9 ∷ []) parts) ≡ ok tt) ↔ IsValid (assemble 1 (8 ∷ 9 ∷ []) parts)
validate_iff_example = validate_iff (assemble 1 (8 ∷ 9 ∷ []) parts)

validate_parts : validate (assemble 1 (8 ∷ 9 ∷ []) parts) ≡ ok tt
unfolding validate validate_liquidity assemble bytes_equal
validate_parts = refl
