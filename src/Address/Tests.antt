-- ===== src/Address/Tests.antt =====
-- An address with a payment id and an amount, for a code that leaves its bytes as they are and a
-- checksum by the length.
use go_pandora_pay.Prelude.{
  ℕ, zero, suc, ◌%◌, ◌<◌, ◌≡◌, refl, inl, true, Option, none, some, List, [], ◌∷◌, length,
  replicate, arith,
}
use go_pandora_pay.Prelude.Result.{ok, panic}
use go_pandora_pay.Address.{Address, new_addr, create_addr, encode_addr, decode_addr, decode_buffer}
use go_pandora_pay.Address.Encoding.{AreBytes, OfBytes}
use go_pandora_pay.Address.RoundTrip.{decode_addr-encode_addr}

abbrev plain : List ℕ → List ℕ
plain buf = buf

abbrev plain_decode : List ℕ → Option (List ℕ)
plain_decode [] = none
plain_decode (byte ∷ buf) = some (byte ∷ buf)

abbrev sized : List ℕ → List ℕ
sized buf = length buf % 256 ∷ 0 ∷ 0 ∷ 0 ∷ []

abbrev payee : Address
payee = record {
  network = 0;
  version = 0;
  public_key = replicate 33 2;
  staked = true;
  spend_public_key = [];
  registration = replicate 64 3;
  payment_id = replicate 8 4;
  payment_amount = 70000;
  payment_asset = [];
}

repeated-AreBytes : (n byte : ℕ) → byte < 256 → AreBytes (replicate n byte)
repeated-AreBytes zero byte h = tt
repeated-AreBytes (suc n) byte h = (h, repeated-AreBytes n byte h)

payee-OfBytes : OfBytes payee
payee-OfBytes = record {
  public_key = repeated-AreBytes 33 2 (omega arith);
  spend_public_key = tt;
  registration = repeated-AreBytes 64 3 (omega arith);
  payment_id = repeated-AreBytes 8 4 (omega arith);
  payment_asset = tt;
}

plain_decodes : (buf : List ℕ) → 0 < length buf → AreBytes buf → plain_decode (plain buf) ≡ some buf
plain_decodes [] h o = absurd (omega arith)
plain_decodes (byte ∷ buf) h o = refl

sized-AreBytes : (buf : List ℕ) → AreBytes (sized buf)
sized-AreBytes buf = (omega arith, (omega arith, (omega arith, (omega arith, tt))))

decode_addr-encode_addr_example :
    (text : List ℕ) × (encode_addr plain plain_decode sized 0 payee ≡ ok text)
    × (decode_addr plain plain_decode sized 0 text ≡ ok payee)
unfolding new_addr create_addr
decode_addr-encode_addr_example =
    decode_addr-encode_addr plain plain_decode sized 0 plain_decodes (λ buf. refl) sized-AreBytes
      (replicate 33 2) true [] (replicate 64 3) (replicate 8 4) 70000 [] payee refl payee-OfBytes
      (inl refl) (omega arith)

-- A code of fewer than four bytes.
decode_short : decode_buffer plain plain_decode sized 0 0 (1 ∷ 2 ∷ []) ≡ panic
unfolding decode_buffer
decode_short = refl
