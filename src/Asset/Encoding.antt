-- ===== src/Asset/Encoding.antt =====
-- Serialize and Deserialize of asset.go.
use go_pandora_pay.Prelude.{
  ℕ, ◌≤◌, ◌<◌, ◌≡◌, refl, ◌∙◌, ◌++◌, Bool, List, [], ◌∷◌, length, if◌then◌else◌, arith,
}
use go_pandora_pay.Prelude.Result.{ok}
use go_pandora_pay.SafeMath.{IsU64}
use go_pandora_pay.Buffers.{
  BufferWriter, ReadError, read_bool, read_byte, read_bytes, read_uvarint, read_string,
  read_variable_bytes, write, write_bool, write_byte, write_uvarint, write_string,
  write_variable_bytes, public_key_size, put_uvarint,
}
use go_pandora_pay.Buffers.Framing.{
  Frames, Frames-bind, Frames-last, counted, read_bool-Frames, read_byte-Frames, read_bytes-Frames,
  read_uvarint-Frames, read_variable_bytes-Frames,
}
use go_pandora_pay.Buffers.Written.{
  Appends, Appends-then, IsWriter, write-Appends, write_bool-Appends, write_byte-Appends,
  write_uvarint-Appends, write_variable_bytes-Appends,
}
use go_pandora_pay.Buffers.RoundTrip.{reader_after, read_written}
use go_pandora_pay.Asset.{Asset, new_asset, set_identification, identified, serialize, deserialize}
use mathlib.Core.List.{append-nil}

abbrev flag : Bool → List ℕ
flag value = (if value then 1 else 0) ∷ []

abbrev texts_bytes : Asset → List ℕ
texts_bytes a =
    counted a.name ++ (counted a.ticker ++ (counted a.description ++ counted a.data_bytes))

abbrev amounts_bytes : Asset → List ℕ
amounts_bytes a =
    (a.decimal_separator ∷ [])
    ++ (put_uvarint 9 a.max_supply
        ++ (put_uvarint 9 a.supply
            ++ (a.update_public_key ++ (a.supply_public_key ++ texts_bytes a))))

abbrev asset_bytes : Asset → List ℕ
asset_bytes a =
    put_uvarint 9 a.version
    ++ (flag a.can_upgrade
        ++ (flag a.can_mint
            ++ (flag a.can_burn
                ++ (flag a.can_change_update_public_key
                    ++ (flag a.can_change_supply_public_key
                        ++ (flag a.can_pause ++ (flag a.can_freeze ++ amounts_bytes a)))))))

serialize-Appends : (a : Asset) → Appends (serialize a) (asset_bytes a)
unfolding serialize write_string
serialize-Appends a =
    Appends-then (write_uvarint a.version) _ _ _ (write_uvarint-Appends a.version) (
      Appends-then (write_bool a.can_upgrade) _ _ _ (write_bool-Appends a.can_upgrade) (
        Appends-then (write_bool a.can_mint) _ _ _ (write_bool-Appends a.can_mint) (
          Appends-then (write_bool a.can_burn) _ _ _ (write_bool-Appends a.can_burn) (
            Appends-then (write_bool a.can_change_update_public_key) _ _ _
              (write_bool-Appends a.can_change_update_public_key)
              (Appends-then (write_bool a.can_change_supply_public_key) _ _ _
                (write_bool-Appends a.can_change_supply_public_key)
                (Appends-then (write_bool a.can_pause) _ _ _ (write_bool-Appends a.can_pause) (
                  Appends-then (write_bool a.can_freeze) _ _ _ (write_bool-Appends a.can_freeze) (
                    Appends-then (write_byte a.decimal_separator) _ _ _
                      (write_byte-Appends a.decimal_separator)
                      (Appends-then (write_uvarint a.max_supply) _ _ _
                        (write_uvarint-Appends a.max_supply)
                        (Appends-then (write_uvarint a.supply) _ _ _
                          (write_uvarint-Appends a.supply)
                          (Appends-then (write a.update_public_key) _ _ _
                            (write-Appends a.update_public_key)
                            (Appends-then (write a.supply_public_key) _ _ _
                              (write-Appends a.supply_public_key)
                              (Appends-then (write_variable_bytes a.name) _ _ _
                                (write_variable_bytes-Appends a.name)
                                (Appends-then (write_variable_bytes a.ticker) _ _ _
                                  (write_variable_bytes-Appends a.ticker)
                                  (Appends-then (write_variable_bytes a.description)
                                    (write_variable_bytes a.data_bytes) _ _
                                    (write_variable_bytes-Appends a.description)
                                    (write_variable_bytes-Appends a.data_bytes))))))))))))))))

-- What the types of the fields, the limits of Deserialize and setIdentification bound.
pub record Fits (a : Asset) : Type 0 where
  pub version : IsU64 a.version
  pub max_supply : IsU64 a.max_supply
  pub supply : IsU64 a.supply
  pub update_public_key : length a.update_public_key ≡ public_key_size
  pub supply_public_key : length a.supply_public_key ≡ public_key_size
  pub name : length a.name ≤ 15
  pub ticker : length a.ticker ≤ 10
  pub description : length a.description ≤ 1024
  pub data_bytes : length a.data_bytes ≤ 5120
  pub identification : set_identification {E = ReadError} a ≡ ok a

identified-Frames :
    (a b : Asset) → set_identification {E = ReadError} b ≡ ok a → Frames (identified b) [] a
unfolding identified
identified-Frames a b e = record { takes = λ front rest spare. rw (e, append-nil front) }

-- A text within a limit of Deserialize is no longer than an int.
below_limit :
    (limit : ℕ) (bs : List ℕ)
    → length bs ≤ limit
    → limit ≤ 5120
    → length bs < 9_223_372_036_854_775_808
below_limit limit bs h small = omega arith

read_string-Frames :
    (limit : ℕ) (bs : List ℕ)
    → length bs ≤ limit
    → length bs < 9_223_372_036_854_775_808
    → Frames (read_string limit) (counted bs) bs
unfolding read_string
read_string-Frames limit bs h k = read_variable_bytes-Frames limit bs h k

set_identification-same :
    (a : Asset)
    → set_identification {E = ReadError} (record a { identification = [] }) ≡ set_identification a
unfolding set_identification
set_identification-same a = refl

asset-Frames :
    (a : Asset)
    → Fits a
    → Frames (deserialize (new_asset a.public_key_hash a.index)) (asset_bytes a) a
unfolding deserialize new_asset
asset-Frames a f = Frames-bind read_uvarint _ (read_uvarint-Frames a.version f.version) (
    Frames-bind read_bool _ (read_bool-Frames a.can_upgrade) (
      Frames-bind read_bool _ (read_bool-Frames a.can_mint) (
        Frames-bind read_bool _ (read_bool-Frames a.can_burn) (
          Frames-bind read_bool _ (read_bool-Frames a.can_change_update_public_key) (
            Frames-bind read_bool _ (read_bool-Frames a.can_change_supply_public_key) (
              Frames-bind read_bool _ (read_bool-Frames a.can_pause) (
                Frames-bind read_bool _ (read_bool-Frames a.can_freeze) (
                  Frames-bind read_byte _ (read_byte-Frames a.decimal_separator) (
                    Frames-bind read_uvarint _ (read_uvarint-Frames a.max_supply f.max_supply) (
                      Frames-bind read_uvarint _ (read_uvarint-Frames a.supply f.supply) (
                        Frames-bind (read_bytes public_key_size) _
                          (rw f.update_public_key at (read_bytes-Frames a.update_public_key))
                          (Frames-bind (read_bytes public_key_size) _
                            (rw f.supply_public_key at (read_bytes-Frames a.supply_public_key))
                            (Frames-bind (read_string 15) _
                              (read_string-Frames 15 a.name f.name
                                (below_limit 15 a.name f.name (omega arith)))
                              (Frames-bind (read_string 10) _
                                (read_string-Frames 10 a.ticker f.ticker
                                  (below_limit 10 a.ticker f.ticker (omega arith)))
                                (Frames-bind (read_string 1024) _
                                  (read_string-Frames 1024 a.description f.description
                                    (below_limit 1024 a.description f.description (omega arith)))
                                  (Frames-last (read_variable_bytes 5120) _
                                    (read_variable_bytes-Frames 5120 a.data_bytes f.data_bytes
                                      (below_limit 5120 a.data_bytes f.data_bytes (omega arith)))
                                    (identified-Frames a (record a { identification = [] })
                                      (set_identification-same a
                                        ∙ f.identification))))))))))))))))))

-- Deserialize into the new asset of a hash and an index reads what Serialize wrote behind any writer,
-- for an asset whose numbers are uint64, whose keys have 33 bytes, whose texts and data are within
-- the limits of Deserialize, and whose identification is that of setIdentification; and it is left
-- behind those bytes.
pub deserialize-serialize_asset :
    (a : Asset) (w : BufferWriter) (rest spare : List ℕ)
    → IsWriter w
    → Fits a
    → let w' = serialize a w in
      deserialize (new_asset a.public_key_hash a.index) (reader_after w w' rest spare)
      ≡ (ok a, reader_after w' w' rest spare)
deserialize-serialize_asset a w rest spare writer f =
    read_written (serialize a) (deserialize (new_asset a.public_key_hash a.index)) (asset_bytes a) a
      (serialize-Appends a) (asset-Frames a f) w rest spare writer
