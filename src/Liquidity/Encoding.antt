-- ===== src/Liquidity/Encoding.antt =====
-- Serialize and Deserialize of asset_fee_liquidity.go and asset_fee_liquidities.go.
use go_pandora_pay.Prelude.{
  ℕ, ◌%◌, ◌≤◌, ◌≡◌, refl, sym, List, [], ◌∷◌, ◌++◌, length, ◌==◌, if◌then◌else◌, arith, All,
  Bool-cases, ◌⊎◌, inl, inr,
}
use go_pandora_pay.Prelude.Result.{ok}
use go_pandora_pay.SafeMath.{IsU64}
use go_pandora_pay.Buffers.{
  BufferWriter, read_byte, read_bytes, read_uvarint, write, write_byte, write_uvarint, asset_length,
  public_key_size, put_uvarint,
}
use go_pandora_pay.Buffers.Framing.{
  Frames, Frames-bind, Frames-last, Frames-pure, read_byte-Frames, read_bytes-Frames,
  read_uvarint-Frames,
}
use go_pandora_pay.Buffers.Written.{
  Appends, Appends-then, write-Appends, write_byte-Appends, write_uvarint-Appends,
}
use go_pandora_pay.Buffers.Written.{IsWriter}
use go_pandora_pay.Buffers.RoundTrip.{reader_after, read_written}
use go_pandora_pay.Liquidity.{
  AssetFeeLiquidity, AssetFeeLiquidities, no_liquidities, version_simple, validate,
  serialize_liquidity, deserialize_liquidity, serialize_list, deserialize_list, serialize,
  deserialize, deserialize_simple,
}
use mathlib.Core.Path.{subst}
use mathlib.Core.List.{append-nil}

-- The entry fits its encoding: what the types uint64 and byte and the length of an asset give.
abbrev pub Fits : AssetFeeLiquidity → Type 0
Fits self = (length self.asset ≡ asset_length) × IsU64 self.rate

abbrev pub entry_bytes : AssetFeeLiquidity → List ℕ
entry_bytes self = self.asset ++ (put_uvarint 9 self.rate ++ (self.leading_zeros ∷ []))

serialize_liquidity-Appends :
    (self : AssetFeeLiquidity) → Appends (serialize_liquidity self) (entry_bytes self)
unfolding serialize_liquidity
serialize_liquidity-Appends self =
    Appends-then (write self.asset) (λ w. write_byte self.leading_zeros (write_uvarint self.rate w))
      _ _ (write-Appends self.asset)
      (Appends-then (write_uvarint self.rate) (write_byte self.leading_zeros) _ _
        (write_uvarint-Appends self.rate) (write_byte-Appends self.leading_zeros))

deserialize_liquidity-Frames :
    (self : AssetFeeLiquidity) → Fits self → Frames deserialize_liquidity (entry_bytes self) self
unfolding deserialize_liquidity
deserialize_liquidity-Frames self h =
    Frames-bind (read_bytes asset_length) _ (rw h.0 at (read_bytes-Frames self.asset)) (
      Frames-bind read_uvarint _ (read_uvarint-Frames self.rate h.1)
        (Frames-last read_byte _ (read_byte-Frames self.leading_zeros) (Frames-pure self)))

abbrev pub list_bytes : List AssetFeeLiquidity → List ℕ
list_bytes [] = []
list_bytes (liquidity ∷ l) = entry_bytes liquidity ++ list_bytes l

pub serialize_list-Appends :
    (l : List AssetFeeLiquidity) → Appends (serialize_list l) (list_bytes l)
unfolding serialize_list
serialize_list-Appends [] = λ w h. (h, sym (append-nil _))
serialize_list-Appends (liquidity ∷ l) =
    Appends-then (serialize_liquidity liquidity) (serialize_list l) _ _
      (serialize_liquidity-Appends liquidity) (serialize_list-Appends l)

pub deserialize_list-Frames :
    (l : List AssetFeeLiquidity)
    → All Fits l
    → Frames (deserialize_list (length l)) (list_bytes l) l
unfolding deserialize_list
deserialize_list-Frames [] h = Frames-pure []
deserialize_list-Frames (liquidity ∷ l) h =
    Frames-bind deserialize_liquidity _ (deserialize_liquidity-Frames liquidity h.0) (
      Frames-last (deserialize_list (length l)) _ (deserialize_list-Frames l h.1)
        (Frames-pure (liquidity ∷ l)))

-- What Serialize writes for an account without and with liquidities.
pub encoded : AssetFeeLiquidities → List ℕ
encoded self =
    if self.version == version_simple
    then put_uvarint 9 self.version
      ++ (length self.list % 256 ∷ (list_bytes self.list ++ self.collector))
    else put_uvarint 9 self.version

pub serialize-Appends : (self : AssetFeeLiquidities) → Appends (serialize self) (encoded self)
unfolding serialize encoded
serialize-Appends self = elim (Bool-cases (self.version == version_simple)) [
  | inl simple ↦ rw simple (
      Appends-then (write_uvarint self.version) _ _ _ (write_uvarint-Appends self.version) (
        Appends-then (write_byte (length self.list % 256)) _ _ _
          (write_byte-Appends (length self.list % 256))
          (Appends-then (serialize_list self.list) (write self.collector) _ _
            (serialize_list-Appends self.list) (write-Appends self.collector))))
  | inr other ↦ rw other (write_uvarint-Appends self.version)
]

-- The value of an account with liquidities.
abbrev simple_of : List AssetFeeLiquidity → List ℕ → AssetFeeLiquidities
simple_of l c = record { version = version_simple; list = l; collector = c }

deserialize-Frames_simple :
    (l : List AssetFeeLiquidity) (c : List ℕ)
    → length l ≤ 255
    → length c ≡ public_key_size
    → All Fits l
    → Frames (deserialize no_liquidities) (encoded (simple_of l c)) (simple_of l c)
unfolding deserialize encoded deserialize_simple
deserialize-Frames_simple l c few h fits =
    let count : length l % 256 ≡ length l = omega arith in
    rw count (
      Frames-bind read_uvarint _ (read_uvarint-Frames 1 (omega arith)) (
        Frames-bind read_byte _ (read_byte-Frames (length l)) (
          Frames-bind (deserialize_list (length l)) _ (deserialize_list-Frames l fits) (
            Frames-last (read_bytes public_key_size) _ (rw h at (read_bytes-Frames c))
              (Frames-pure (simple_of l c))))))

deserialize-Frames_none :
    Frames (deserialize no_liquidities) (encoded no_liquidities) no_liquidities
unfolding deserialize encoded
deserialize-Frames_none =
    Frames-last read_uvarint _ (read_uvarint-Frames 0 (omega arith)) (Frames-pure no_liquidities)

nil_of_length : {A : Type 0} (l : List A) → length l ≡ 0 → l ≡ []
nil_of_length [] h = refl
nil_of_length (x ∷ l) h = absurd (omega arith)

-- What Validate lets through: the empty value, or one with liquidities and a collector.
validate-cases :
    (self : AssetFeeLiquidities)
    → validate self ≡ ok tt
    → (self ≡ no_liquidities)
      ⊎ ((self ≡ simple_of self.list self.collector)
          × (length self.list ≤ 255)
          × (length self.collector ≡ public_key_size))
unfolding validate
validate-cases self valid = ground (arith, nil_of_length self.list, nil_of_length self.collector)

pub deserialize-Frames :
    (self : AssetFeeLiquidities)
    → validate self ≡ ok tt
    → All Fits self.list
    → Frames (deserialize no_liquidities) (encoded self) self
deserialize-Frames self valid fits = elim (validate-cases self valid) [
  | inl empty ↦ rw empty deserialize-Frames_none
  | inr (e, few, size) ↦
      subst (λ s. Frames (deserialize no_liquidities) (encoded s) s) (sym e)
        (deserialize-Frames_simple self.list self.collector few size fits)
]

-- Deserialize into a new value reads what Serialize wrote behind any writer, for every value that
-- passes Validate and whose entries hold 20-byte assets and uint64 rates.
pub deserialize-serialize :
    (self : AssetFeeLiquidities) (w : BufferWriter) (rest spare : List ℕ)
    → IsWriter w
    → validate self ≡ ok tt
    → All Fits self.list
    → let w' = serialize self w in
      deserialize no_liquidities (reader_after w w' rest spare)
      ≡ (ok self, reader_after w' w' rest spare)
deserialize-serialize self w rest spare h valid fits =
    read_written (serialize self) (deserialize no_liquidities) (encoded self) self
      (serialize-Appends self) (deserialize-Frames self valid fits) w rest spare h
