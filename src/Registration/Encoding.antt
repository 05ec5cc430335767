-- ===== src/Registration/Encoding.antt =====
-- Serialize and Deserialize of registration.go.
use go_pandora_pay.Prelude.{
  ℕ, ◌≡◌, ◌⊎◌, inl, inr, refl, ◌++◌, Bool, true, List, [], ◌∷◌, length, ltb, if◌then◌else◌, arith,
}
use go_pandora_pay.Prelude.Result.{ok}
use go_pandora_pay.Buffers.{
  BufferWriter, read_bool, read_uvarint, write, write_bool, write_uvarint, public_key_size,
  put_uvarint,
}
use go_pandora_pay.Buffers.Framing.{
  Frames, Frames-bind, Frames-last, Frames-pure, read_bool-Frames, read_bytes-Frames,
  read_uvarint-Frames,
}
use go_pandora_pay.Buffers.Written.{
  Appends, Appends-then, IsWriter, write-Appends, write_bool-Appends, write_uvarint-Appends,
}
use go_pandora_pay.Buffers.RoundTrip.{reader_after, read_written}
use go_pandora_pay.Registration.{
  Registration, new_registration, validate, serialize, spend_public_key_of, deserialize,
}

abbrev flag : Bool → List ℕ
flag value = (if value then 1 else 0) ∷ []

abbrev registration_bytes : Registration → List ℕ
registration_bytes r =
    put_uvarint 9 r.version
    ++ (flag r.staked ++ (flag (ltb 0 (length r.spend_public_key)) ++ r.spend_public_key))

serialize-Appends : (r : Registration) → Appends (serialize r) (registration_bytes r)
unfolding serialize
serialize-Appends r =
    Appends-then (write_uvarint r.version) _ _ _ (write_uvarint-Appends r.version) (
      Appends-then (write_bool r.staked) _ _ _ (write_bool-Appends r.staked) (
        Appends-then (write_bool (ltb 0 (length r.spend_public_key))) (write r.spend_public_key) _ _
          (write_bool-Appends (ltb 0 (length r.spend_public_key)))
          (write-Appends r.spend_public_key)))

empty : (l : List ℕ) → length l ≡ 0 → l ≡ []
empty [] e = refl
empty (x ∷ l) e = absurd (omega arith)

-- The spend key is read back by the bool before it.
spend_public_key_of-Frames :
    (key : List ℕ)
    → (length key ≡ public_key_size) ⊎ (key ≡ [])
    → Frames (spend_public_key_of (ltb 0 (length key)) []) key key
unfolding spend_public_key_of
spend_public_key_of-Frames key (inl size) =
    let there : ltb 0 (length key) ≡ true = ground arith in
    rw there (rw size at (read_bytes-Frames key))
spend_public_key_of-Frames key (inr none) = rw none (Frames-pure [])

valid_key :
    (r : Registration)
    → validate r ≡ ok tt
    → (r.version ≡ 0) × ((length r.spend_public_key ≡ public_key_size) ⊎ (r.spend_public_key ≡ []))
unfolding validate
valid_key r valid = ground (arith, empty r.spend_public_key)

-- Deserialize into the new registration of a key and an index reads what Serialize wrote behind any
-- writer, for a registration that passes Validate, and is left behind those bytes.
pub deserialize-serialize_registration :
    (r : Registration) (w : BufferWriter) (rest spare : List ℕ)
    → IsWriter w
    → validate r ≡ ok tt
    → let w' = serialize r w in
      deserialize (new_registration r.public_key r.index) (reader_after w w' rest spare)
      ≡ (ok r, reader_after w' w' rest spare)
unfolding deserialize new_registration
deserialize-serialize_registration r w rest spare writer valid =
    let (version, key) = valid_key r valid in
    read_written (serialize r) (deserialize (new_registration r.public_key r.index))
      (registration_bytes r) r (serialize-Appends r)
      (Frames-bind read_uvarint _ (read_uvarint-Frames r.version (omega arith)) (
        Frames-bind read_bool _ (read_bool-Frames r.staked) (
          Frames-bind read_bool _ (read_bool-Frames (ltb 0 (length r.spend_public_key))) (
            Frames-last (spend_public_key_of (ltb 0 (length r.spend_public_key)) []) _
              (spend_public_key_of-Frames r.spend_public_key key) (Frames-pure r)))))
      w rest spare writer
