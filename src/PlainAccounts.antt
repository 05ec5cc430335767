-- ===== src/PlainAccounts.antt =====
-- blockchain/data_storage/plain_accounts/plain_accounts.go: the map of the plain accounts, which is a
-- store/hash_map by the public key, with no indices and no events.
pub mod Reopen
mod Tests
use go_pandora_pay.Prelude.{ℕ, Bool, false, Option, none, some, List, [], ◌∷◌}
use go_pandora_pay.Prelude.Result.{Result, ok, err, panic}
use go_pandora_pay.Buffers.{
  BufferReader, BufferWriter, Outcome, bytes, new_buffer_writer, public_key_size,
}
use go_pandora_pay.HashMap.Store.{Tx}
use go_pandora_pay.HashMap.Types.{Kind, MapError, HashMap, element_error}
use go_pandora_pay.HashMap.Element.{serialize_to_bytes, deserialize_from}
use go_pandora_pay.HashMap.Ops
use go_pandora_pay.HashMap.Commit
use go_pandora_pay.PlainAccount.{PlainAccount, new_plain_account}
use go_pandora_pay.PlainAccount

unfoldable pub validate_account : PlainAccount → Result MapError (Unit {0})
validate_account self = elim (PlainAccount.validate self) [
  | ok u ↦ ok u
  | err e ↦ err element_error
  | panic ↦ panic
]

-- The map of NewPlainAccounts, whose CreateObject is NewPlainAccount.
abbrev pub plain_accounts : Kind
plain_accounts = record {
  Elem = PlainAccount;
  validate = validate_account;
  is_deletable = PlainAccount.is_deletable;
  set_key = PlainAccount.set_key;
  set_index = PlainAccount.set_index;
  get_index = λ self. self.index;
  serialize = λ self. serialize_to_bytes PlainAccount.serialize self;
  deserialize = λ key index buf.
      deserialize_from (PlainAccount.deserialize (new_plain_account key index)) buf;
  name = b'p' ∷ b'l' ∷ b'a' ∷ b'i' ∷ b'n' ∷ b'A' ∷ b'c' ∷ b'c' ∷ b's' ∷ [];
  key_length = public_key_size;
  indexable = false;
  deleted_event = λ key tx. ok tx;
  stored_event = λ key element index tx. ok tx;
}

unfoldable pub create_new_plain_account :
    List ℕ → HashMap PlainAccount → Result MapError PlainAccount × HashMap PlainAccount
create_new_plain_account public_key h =
    let plain_acc = new_plain_account public_key 0 in
    let (r, h') = Ops.create plain_accounts public_key (some plain_acc) h in
    elim r [
      | ok _ ↦ (ok (PlainAccount.set_key public_key plain_acc), h')
      | err e ↦ (err e, h')
      | panic ↦ (panic, h')
    ]
