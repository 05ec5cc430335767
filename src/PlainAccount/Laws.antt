-- ===== src/PlainAccount/Laws.antt =====
-- plain_account.go: the encoding, and the counters that go up and down.
use go_pandora_pay.Prelude.{ℕ, ◌<◌, ◌≡◌, ◌++◌, Bool, not, List, All, arith}
use go_pandora_pay.Prelude.Result.{ok}
use go_pandora_pay.SafeMath.{IsU64, max_uint64}
use go_pandora_pay.SafeMath.Laws.{safe_uint64_update_undo}
use go_pandora_pay.Buffers.{BufferWriter, read_uvarint, write_uvarint, put_uvarint}
use go_pandora_pay.Buffers.Framing.{
  Frames, Frames-bind, Frames-last, Frames-pure, read_uvarint-Frames,
}
use go_pandora_pay.Buffers.Written.{Appends, Appends-then, IsWriter, write_uvarint-Appends}
use go_pandora_pay.Buffers.RoundTrip.{reader_after, read_written}
use go_pandora_pay.Liquidity.{has_asset_fee_liquidities, no_liquidities}
use go_pandora_pay.Liquidity.Encoding.{Fits, encoded, serialize-Appends, deserialize-Frames}
use go_pandora_pay.Liquidity
use go_pandora_pay.PlainAccount.{
  PlainAccount, new_plain_account, validate, increment_nonce, add_unclaimed, serialize, deserialize,
}

abbrev pub account_bytes : PlainAccount → List ℕ
account_bytes self =
    put_uvarint 9 self.nonce ++ (put_uvarint 9 self.unclaimed ++ encoded self.asset_fee_liquidities)

pub plain_account-Appends : (self : PlainAccount) → Appends (serialize self) (account_bytes self)
unfolding serialize
plain_account-Appends self =
    Appends-then (write_uvarint self.nonce) _ _ _ (write_uvarint-Appends self.nonce) (
      Appends-then (write_uvarint self.unclaimed) (Liquidity.serialize self.asset_fee_liquidities) _
        _ (write_uvarint-Appends self.unclaimed) (serialize-Appends self.asset_fee_liquidities))

pub plain_account-Frames :
    (self : PlainAccount)
    → validate self ≡ ok tt
    → IsU64 self.nonce
    → IsU64 self.unclaimed
    → All Fits self.asset_fee_liquidities.list
    → Frames (deserialize (new_plain_account self.key self.index)) (account_bytes self) self
unfolding deserialize new_plain_account validate
plain_account-Frames self valid hn hu fits =
    Frames-bind read_uvarint _ (read_uvarint-Frames self.nonce hn) (
      Frames-bind read_uvarint _ (read_uvarint-Frames self.unclaimed hu) (
        Frames-last (Liquidity.deserialize no_liquidities) _
          (deserialize-Frames self.asset_fee_liquidities valid fits) (Frames-pure self)))

-- Deserialize into the new account of a key and an index reads what Serialize wrote behind any
-- writer: every account that passes Validate, whose counters are uint64 and whose entries hold
-- 20-byte assets and uint64 rates, comes back whole.
pub deserialize-serialize_account :
    (self : PlainAccount) (w : BufferWriter) (rest spare : List ℕ)
    → IsWriter w
    → validate self ≡ ok tt
    → IsU64 self.nonce
    → IsU64 self.unclaimed
    → All Fits self.asset_fee_liquidities.list
    → let w' = serialize self w in
      deserialize (new_plain_account self.key self.index) (reader_after w w' rest spare)
      ≡ (ok self, reader_after w' w' rest spare)
deserialize-serialize_account self w rest spare h valid hn hu fits =
    read_written (serialize self) (deserialize (new_plain_account self.key self.index))
      (account_bytes self) self (plain_account-Appends self)
      (plain_account-Frames self valid hn hu fits) w rest spare h

-- An IncrementNonce that went through, from a nonce below MaxUint64, is undone by the one with the
-- other sign: the account comes back whole.
pub increment_nonce_undo :
    (sign : Bool) (self self' : PlainAccount)
    → self.nonce < max_uint64
    → increment_nonce sign self ≡ ok self'
    → increment_nonce (not sign) self' ≡ ok self
unfolding increment_nonce
increment_nonce_undo sign self self' h e =
    ground (arith, safe_uint64_update_undo sign self.nonce 1 self'.nonce h (omega arith))

-- An AddUnclaimed that went through, from an amount below MaxUint64, is undone by the one with the
-- other sign: the account comes back whole.
pub add_unclaimed_undo :
    (sign : Bool) (amount : ℕ) (self self' : PlainAccount)
    → self.unclaimed < max_uint64
    → IsU64 amount
    → add_unclaimed sign amount self ≡ ok self'
    → add_unclaimed (not sign) amount self' ≡ ok self
unfolding add_unclaimed
add_unclaimed_undo sign amount self self' h ha e =
    ground (arith, safe_uint64_update_undo sign self.unclaimed amount self'.unclaimed h ha)
