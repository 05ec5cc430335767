-- ===== src/PlainAccount/Tests.antt =====
-- plain_account.go on given accounts.
use go_pandora_pay.Prelude.{◌≡◌, refl, [], ◌∷◌, replicate, arith}
use go_pandora_pay.Prelude.Result.{ok}
use go_pandora_pay.Buffers.{new_buffer_writer}
use go_pandora_pay.Buffers.Written.{new_buffer_writer-IsWriter}
use go_pandora_pay.Buffers.RoundTrip.{reader_after}
use go_pandora_pay.Liquidity.{no_liquidities}
use go_pandora_pay.Liquidity
use go_pandora_pay.PlainAccount.{PlainAccount, new_plain_account, validate, serialize, deserialize}
use go_pandora_pay.PlainAccount.Laws.{deserialize-serialize_account}

abbrev account : PlainAccount
account = record {
  key = replicate 33 1;
  index = 4;
  nonce = 300;
  unclaimed = 7;
  asset_fee_liquidities = no_liquidities;
}

deserialize-serialize_account_example :
    deserialize
      (new_plain_account account.key account.index)
      (reader_after new_buffer_writer (serialize account new_buffer_writer) (4 ∷ []) [])
    ≡ (
      ok account,
      reader_after
          (serialize account new_buffer_writer)
          (serialize account new_buffer_writer)
          (4 ∷ [])
          [],
    )
unfolding validate Liquidity.validate
deserialize-serialize_account_example =
    deserialize-serialize_account account new_buffer_writer (4 ∷ []) [] new_buffer_writer-IsWriter
      refl (omega arith) (omega arith) tt
