-- ===== src/Registration.antt =====
-- blockchain/data_storage/registrations/registration/registration.go: what an account registered.
pub mod Encoding
mod Tests
use go_pandora_pay.Prelude.{
  ℕ, Bool, true, false, not, ◌&&◌, List, [], ◌∷◌, length, ltb, ◌==◌, if◌then◌else◌,
}
use go_pandora_pay.Prelude.Result.{Result, ok, err}
use go_pandora_pay.Buffers.{
  BufferWriter, Read, pure, ◌>>=◌, read_bool, read_bytes, read_uvarint, write, write_bool,
  write_uvarint, public_key_size,
}

pub data RegistrationError : Type 0 where
  version_invalid spend_public_key_length : RegistrationError

-- A nil key is the empty one.
pub record Registration : Type 0 where
  pub public_key : List ℕ
  pub index : ℕ
  pub version : ℕ
  pub staked : Bool
  pub spend_public_key : List ℕ

unfoldable pub new_registration : List ℕ → ℕ → Registration
new_registration public_key index = record {
  public_key = public_key;
  index = index;
  version = 0;
  staked = false;
  spend_public_key = [];
}

unfoldable pub set_key : List ℕ → Registration → Registration
set_key key registration = record registration { public_key = key }

unfoldable pub set_index : ℕ → Registration → Registration
set_index value registration = record registration { index = value }

unfoldable pub validate : Registration → Result RegistrationError (Unit {0})
validate registration =
    if not (registration.version == 0)
    then err version_invalid
    else if not (length registration.spend_public_key == public_key_size)
        && not (length registration.spend_public_key == 0)
    then err spend_public_key_length
    else ok tt

unfoldable pub serialize : Registration → BufferWriter → BufferWriter
serialize registration w = write registration.spend_public_key (
    write_bool (ltb 0 (length registration.spend_public_key))
      (write_bool registration.staked (write_uvarint registration.version w)))

-- `if hasSpendPublicKey { … }`: without one the registration keeps the key that it has.
unfoldable pub spend_public_key_of : Bool → List ℕ → Read (List ℕ)
spend_public_key_of has_spend_public_key before =
    if has_spend_public_key then read_bytes public_key_size else pure before

unfoldable pub deserialize : Registration → Read Registration
unfolding spend_public_key_of
deserialize registration = do
  version ← read_uvarint
  staked ← read_bool
  has_spend_public_key ← read_bool
  spend_public_key ← spend_public_key_of has_spend_public_key registration.spend_public_key
  pure (record registration {
    version = version;
    staked = staked;
    spend_public_key = spend_public_key;
  })
