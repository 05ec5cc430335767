-- ===== src/ConditionalPayment/Encoding.antt =====
-- Serialize and Deserialize of conditional_payment.go.
use go_pandora_pay.Prelude.{
  ℕ, ◌%◌, ◌≤◌, ◌≡◌, sym, ◌++◌, Bool, true, false, List, [], ◌∷◌, length, All, ltb, if◌then◌else◌,
  arith,
}
use go_pandora_pay.Prelude.Result.{ok}
use go_pandora_pay.SafeMath.{IsU64}
use go_pandora_pay.Buffers.{
  BufferWriter, read_asset, read_bool, read_byte, read_bytes, read_uvarint, write, write_asset,
  write_bool, write_byte, write_uvarint, public_key_size, hash_size, asset_length, put_uvarint,
}
use go_pandora_pay.Buffers.Framing.{
  Frames, Frames-bind, Frames-last, Frames-pure, asset_bytes, read_asset-Frames, read_bool-Frames,
  read_byte-Frames, read_bytes-Frames, read_uvarint-Frames,
}
use go_pandora_pay.Buffers.Written.{
  Appends, Appends-then, IsWriter, write-Appends, write_asset-Appends, write_bool-Appends,
  write_byte-Appends, write_uvarint-Appends,
}
use go_pandora_pay.Buffers.RoundTrip.{reader_after, read_written}
use go_pandora_pay.ConditionalPayment.{
  ConditionalPayment, new_conditional_payment, write_all, serialize_pending, serialize, read_all,
  made, most_slices, deserialize_pending, after_head, deserialize,
}
use mathlib.Core.List.{append-nil}

abbrev flag : Bool → List ℕ
flag value = (if value then 1 else 0) ∷ []

abbrev joined : List (List ℕ) → List ℕ
joined [] = []
joined (p ∷ l) = p ++ joined l

write_all-Appends : (l : List (List ℕ)) → Appends (write_all l) (joined l)
unfolding write_all
write_all-Appends [] = λ w h. (h, sym (append-nil _))
write_all-Appends (p ∷ l) =
    Appends-then (write p) (write_all l) _ _ (write-Appends p) (write_all-Appends l)

-- The slices of a list all have one size.
abbrev pub Sized : ℕ → List (List ℕ) → Type 0
Sized size l = All (λ p. length p ≡ size) l

read_all-Frames :
    (size : ℕ) (l : List (List ℕ)) → Sized size l → Frames (read_all size (length l)) (joined l) l
unfolding read_all
read_all-Frames size [] h = Frames-pure []
read_all-Frames size (p ∷ l) (h, hs) =
    Frames-bind (read_bytes size) _ (rw h at (read_bytes-Frames p))
      (Frames-last (read_all size (length l)) _ (read_all-Frames size l hs) (Frames-pure (p ∷ l)))

made-Frames : (n : ℕ) → n ≤ most_slices → Frames (made n) [] tt
unfolding made
made-Frames n h =
    let few : ltb most_slices n ≡ false = ground arith in
    record { takes = λ front rest spare. rw (few, append-nil front) }

-- What the types of the fields and the sizes in Deserialize bound, for a payment not processed.
pub record FitsPending (p : ConditionalPayment) : Type 0 where
  pub asset : length p.asset ≡ asset_length
  pub few : length p.receiver_public_keys ≤ most_slices
  pub receiver_public_keys : Sized public_key_size p.receiver_public_keys
  pub receiver_amounts : Sized 66 p.receiver_amounts
  pub receiver_count : length p.receiver_amounts ≡ length p.receiver_public_keys
  pub sender_public_keys : Sized public_key_size p.sender_public_keys
  pub sender_count : length p.sender_public_keys ≡ length p.receiver_public_keys
  pub sender_amounts : Sized 66 p.sender_amounts
  pub sender_amount_count : length p.sender_amounts ≡ length p.receiver_public_keys
  pub multisig_public_keys : Sized public_key_size p.multisig_public_keys
  pub multisig_count : length p.multisig_public_keys ≤ 255

abbrev pending_bytes : ConditionalPayment → List ℕ
pending_bytes p =
    asset_bytes p.asset
    ++ (flag p.default_resolution
        ++ (put_uvarint 9 (length p.receiver_public_keys)
            ++ (joined p.receiver_public_keys
                ++ (joined p.receiver_amounts
                    ++ (joined p.sender_public_keys
                        ++ (joined p.sender_amounts
                            ++ ((p.multisig_threshold ∷ [])
                                ++ ((length p.multisig_public_keys % 256 ∷ [])
                                    ++ joined p.multisig_public_keys))))))))

serialize_pending-Appends :
    (p : ConditionalPayment) → Appends (serialize_pending p) (pending_bytes p)
unfolding serialize_pending
serialize_pending-Appends p =
    Appends-then (write_asset p.asset) _ _ _ (write_asset-Appends p.asset) (
      Appends-then (write_bool p.default_resolution) _ _ _ (write_bool-Appends p.default_resolution)
        (Appends-then (write_uvarint (length p.receiver_public_keys)) _ _ _
          (write_uvarint-Appends (length p.receiver_public_keys))
          (Appends-then (write_all p.receiver_public_keys) _ _ _
            (write_all-Appends p.receiver_public_keys)
            (Appends-then (write_all p.receiver_amounts) _ _ _
              (write_all-Appends p.receiver_amounts)
              (Appends-then (write_all p.sender_public_keys) _ _ _
                (write_all-Appends p.sender_public_keys)
                (Appends-then (write_all p.sender_amounts) _ _ _
                  (write_all-Appends p.sender_amounts)
                  (Appends-then (write_byte p.multisig_threshold) _ _ _
                    (write_byte-Appends p.multisig_threshold)
                    (Appends-then (write_byte (length p.multisig_public_keys % 256))
                      (write_all p.multisig_public_keys) _ _
                      (write_byte-Appends (length p.multisig_public_keys % 256))
                      (write_all-Appends p.multisig_public_keys)))))))))

-- The payment that Deserialize has when it comes to what is pending.
abbrev head_of : ConditionalPayment → ConditionalPayment
head_of p = record (new_conditional_payment p.key p.index p.block_height) {
  version = p.version;
  tx_id = p.tx_id;
  payload_index = p.payload_index;
  processed = p.processed;
}

deserialize_pending-Frames :
    (p : ConditionalPayment)
    → FitsPending p
    → Frames (deserialize_pending (head_of p)) (pending_bytes p) p
unfolding deserialize_pending new_conditional_payment
deserialize_pending-Frames p f =
    let m : length p.multisig_public_keys % 256 ≡ length p.multisig_public_keys =
      omega (arith, f.multisig_count) in
    Frames-bind read_asset _ (read_asset-Frames p.asset f.asset) (
      Frames-bind read_bool _ (read_bool-Frames p.default_resolution) (
        Frames-bind read_uvarint _
          (read_uvarint-Frames (length p.receiver_public_keys) (omega (arith, f.few)))
          (Frames-bind (made (length p.receiver_public_keys)) _
            (made-Frames (length p.receiver_public_keys) f.few)
            (Frames-bind (read_all public_key_size (length p.receiver_public_keys)) _
              (read_all-Frames public_key_size p.receiver_public_keys f.receiver_public_keys)
              (Frames-bind (read_all 66 (length p.receiver_public_keys)) _
                (rw f.receiver_count at (read_all-Frames 66 p.receiver_amounts f.receiver_amounts))
                (Frames-bind (read_all public_key_size (length p.receiver_public_keys)) _
                  (rw f.sender_count at
                    (read_all-Frames public_key_size p.sender_public_keys f.sender_public_keys))
                  (Frames-bind (read_all 66 (length p.receiver_public_keys)) _
                    (rw f.sender_amount_count at
                      (read_all-Frames 66 p.sender_amounts f.sender_amounts))
                    (Frames-bind read_byte _ (read_byte-Frames p.multisig_threshold) (
                      Frames-bind read_byte _
                        (read_byte-Frames (length p.multisig_public_keys % 256))
                        (Frames-last
                          (read_all public_key_size (length p.multisig_public_keys % 256)) _
                          (rw m (
                            read_all-Frames public_key_size p.multisig_public_keys
                              f.multisig_public_keys))
                          (Frames-pure p)))))))))))

abbrev finish : Bool → ConditionalPayment → BufferWriter → BufferWriter
finish processed p w = if processed then w else serialize_pending p w

abbrev finish_bytes : Bool → ConditionalPayment → List ℕ
finish_bytes processed p = if processed then [] else pending_bytes p

finish-Appends : (b : Bool) (p : ConditionalPayment) → Appends (finish b p) (finish_bytes b p)
finish-Appends true p = λ w h. (h, sym (append-nil _))
finish-Appends false p = serialize_pending-Appends p

-- Of a payment that is processed, the first four fields and the flag are all that is stored.
unfoldable pub stored : ConditionalPayment → ConditionalPayment
unfolding new_conditional_payment
stored p = if p.processed then head_of p else p

after_head-Frames :
    (b : Bool) (p : ConditionalPayment)
    → FitsPending p
    → Frames (after_head b (head_of p)) (finish_bytes b p) (if b then head_of p else p)
unfolding after_head
after_head-Frames true p f = Frames-pure (head_of p)
after_head-Frames false p f = deserialize_pending-Frames p f

abbrev payment_bytes : ConditionalPayment → List ℕ
payment_bytes p =
    put_uvarint 9 p.version
    ++ (p.tx_id ++ ((p.payload_index ∷ []) ++ (flag p.processed ++ finish_bytes p.processed p)))

serialize-Appends : (p : ConditionalPayment) → Appends (serialize p) (payment_bytes p)
unfolding serialize
serialize-Appends p =
    Appends-then (write_uvarint p.version) _ _ _ (write_uvarint-Appends p.version) (
      Appends-then (write p.tx_id) _ _ _ (write-Appends p.tx_id) (
        Appends-then (write_byte p.payload_index) _ _ _ (write_byte-Appends p.payload_index) (
          Appends-then (write_bool p.processed) (finish p.processed p) _ _
            (write_bool-Appends p.processed) (finish-Appends p.processed p))))

deserialize-Frames :
    (p : ConditionalPayment)
    → IsU64 p.version
    → length p.tx_id ≡ hash_size
    → FitsPending p
    → Frames
        (deserialize (new_conditional_payment p.key p.index p.block_height))
        (payment_bytes p)
        (stored p)
unfolding deserialize new_conditional_payment stored
deserialize-Frames p v t f = Frames-bind read_uvarint _ (read_uvarint-Frames p.version v) (
    Frames-bind (read_bytes hash_size) _ (rw t at (read_bytes-Frames p.tx_id)) (
      Frames-bind read_byte _ (read_byte-Frames p.payload_index) (
        Frames-bind read_bool _ (read_bool-Frames p.processed)
          (after_head-Frames p.processed p f))))

-- Deserialize into the new conditional payment of a key, an index and a block height reads what
-- Serialize wrote behind any writer, and is left behind those bytes, for a uint64 version, a tx id
-- of 32 bytes and lists of the sizes that Deserialize reads: all the fields of a payment that is not
-- processed, and of one that is, those in front of and with the flag, the others being empty.
pub deserialize-serialize_payment :
    (p : ConditionalPayment) (w : BufferWriter) (rest spare : List ℕ)
    → IsWriter w
    → IsU64 p.version
    → length p.tx_id ≡ hash_size
    → FitsPending p
    → let w' = serialize p w in
      deserialize
        (new_conditional_payment p.key p.index p.block_height)
        (reader_after w w' rest spare)
      ≡ (ok (stored p), reader_after w' w' rest spare)
deserialize-serialize_payment p w rest spare writer v t f =
    read_written (serialize p) (deserialize (new_conditional_payment p.key p.index p.block_height))
      (payment_bytes p) (stored p) (serialize-Appends p) (deserialize-Frames p v t f) w rest spare
      writer
