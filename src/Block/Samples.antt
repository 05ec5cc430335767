-- ===== src/Block/Samples.antt =====
-- A block on given values.
use go_pandora_pay.Prelude.{refl, replicate, arith}
use go_pandora_pay.Block.{Block, create_empty_block}
use go_pandora_pay.Block.Encoding.{Fits}

abbrev pub third : Block
third = record create_empty_block {
  header = record { version = 0; height = 300 };
  merkle_hash = replicate 32 1;
  prev_hash = replicate 32 2;
  prev_kernel_hash = replicate 32 3;
  timestamp = 1000;
  staking_amount = 7;
  staking_nonce = replicate 32 4;
}

pub third-Fits : Fits third
unfolding create_empty_block
third-Fits = record {
  version = omega arith;
  height = omega arith;
  merkle_hash = refl;
  prev_hash = refl;
  prev_kernel_hash = refl;
  timestamp = omega arith;
  staking_amount = omega arith;
  staking_nonce = refl;
}
