-- ===== src/Transaction/Samples.antt =====
-- A simple transaction on given values, and an interface that stands for the zether transactions by a
-- transaction with no bytes.
use go_pandora_pay.Prelude.{ℕ, refl, inl, inr, false, List, [], replicate, arith}
use go_pandora_pay.Prelude.Result.{ok}
use go_pandora_pay.Buffers.{pure}
use go_pandora_pay.Buffers.Framing.{Frames-pure}
use go_pandora_pay.Buffers.Checked.{AppendsOk-ok}
use go_pandora_pay.TransactionSimple.Encoding.{FitsUpdate}
use go_pandora_pay.TransactionSimple.Layout.{Parts, update_parts}
use go_pandora_pay.Transaction.{Transaction}
use go_pandora_pay.Transaction.Base.{TransactionBaseInterface}
use go_pandora_pay.Transaction.Encoding.{Codec, Fits}
use go_pandora_pay.Transaction.Signing.{Simple, transaction_of}
use mathlib.Core.List.{append-nil}
use mathlib.Core.Path.{sym}

abbrev pub no_zether : TransactionBaseInterface (Unit {0})
no_zether = record {
  compute_fee = λ t. ok 0;
  serialize_advanced = λ t incl_signature w. ok w;
  deserialize = pure tt;
  validate = λ t. ok tt;
  bloom_now = λ t. ok tt;
  verify_bloom_all = λ t. ok tt;
}

pub no_zether_codec : Codec no_zether
no_zether_codec = record {
  Fits = λ t. Unit {0};
  encodes = λ t _. ([], AppendsOk-ok (λ w. w) [] (λ w v. (v, sym (append-nil _))), Frames-pure tt);
}

abbrev pub parts : Parts
parts =
    update_parts 4 1000 (record { public_key = replicate 33 1; signature = replicate 64 2 })
      (record { liquidities = []; new_collector = false; collector = [] })

pub parts-FitsUpdate :
    FitsUpdate (record { liquidities = []; new_collector = false; collector = [] })
parts-FitsUpdate = record { entries = tt; few = omega arith; collector = inr (refl, refl) }

abbrev pub given : Simple
given = record { space_extra = 70; data_version = 0; tx_data = []; parts = parts }

abbrev pub tx : Transaction (Unit {0})
tx = transaction_of given

pub tx-Fits : (sha3 : List ℕ → List ℕ) → Fits no_zether no_zether_codec sha3 tx
tx-Fits sha3 = record {
  base = (
    refl,
    (
      0,
      [],
      parts,
      refl,
      inl (refl, refl),
      (omega arith, omega arith, (refl, refl), parts-FitsUpdate),
    ),
  );
  space_extra = omega arith;
  bare = refl;
}
