-- ===== src/Imap/Message/Flags/Stored.antt =====
-- What `STORE` makes of the flags of a message.
use enclave_mail.Prelude.{
  ◌≡◌, ◌∙◌, Bool, true, not, ◌&&◌, ◌||◌, List, [], ◌∷◌, arith, Text, text_Eq, contains,
  contains-filter, contains-set_add, contains-set_delete, set_delete, set_add,
}
use enclave_mail.Imap.Message.Flags.{
  imap_flag_order, StoreMode, add, remove, replace, StoreOperation, add_all, delete_all, apply_mode,
  apply_store_flags, normalize_db_flags,
}
use enclave_mail.Imap.Message.Flags.Normal.{means, contains-normalize_db_flags, or_false}

contains-add_all :
    (current flags : List Text) (flag : Text)
    → contains (add_all current flags) flag ≡ (contains current flag || contains flags flag)
unfolding add_all
contains-add_all current [] flag = or_false (contains current flag)
contains-add_all current (f ∷ flags) flag =
    ground (arith, contains-add_all (set_add current f) flags flag, contains-set_add current f flag)

contains-delete_all :
    (current flags : List Text) (flag : Text)
    → contains (delete_all current flags) flag
      ≡ (contains current flag && not (contains flags flag))
unfolding delete_all
contains-delete_all current [] flag = ground arith
contains-delete_all current (f ∷ flags) flag = ground (
  arith,
  contains-delete_all (set_delete current f) flags flag,
  contains-set_delete current f flag,
)

-- What becomes of one flag: `before` says that the message has it, `named` that the command names it.
abbrev pub stored : StoreMode → Bool → Bool → Bool
stored add before named = before || named
stored remove before named = before && not named
stored replace before named = named

-- Whether the command names the flag: a replacement is normalised first.
abbrev pub named_in : StoreMode → List Text → Text → Bool
named_in replace flags flag = means flags flag
named_in add flags flag = contains flags flag
named_in remove flags flag = contains flags flag

contains-apply_mode :
    (mode : StoreMode) (existing flags : List Text) (flag : Text)
    → contains imap_flag_order flag ≡ true
    → contains (apply_mode mode existing flags) flag
      ≡ stored mode (means existing flag) (named_in mode flags flag)
unfolding apply_mode
contains-apply_mode replace existing flags flag known =
    contains-normalize_db_flags flags flag ∙ rw known
contains-apply_mode add existing flags flag known =
    contains-filter (contains (add_all (normalize_db_flags existing) flags)) imap_flag_order flag
    ∙ rw (
      known,
      contains-add_all (normalize_db_flags existing) flags flag,
      contains-normalize_db_flags existing flag,
      known,
    )
contains-apply_mode remove existing flags flag known =
    contains-filter (contains (delete_all (normalize_db_flags existing) flags)) imap_flag_order flag
    ∙ rw (
      known,
      contains-delete_all (normalize_db_flags existing) flags flag,
      contains-normalize_db_flags existing flag,
      known,
    )

-- After `+FLAGS` a message has the flags that it had and those named, after `-FLAGS` those that it
-- had and that are not named, after `FLAGS` those named. This holds for each of the five flags.
pub contains-apply_store_flags :
    (existing : List Text) (operation : StoreOperation) (flag : Text)
    → contains imap_flag_order flag ≡ true
    → contains (apply_store_flags existing operation) flag
      ≡ stored operation.mode (means existing flag) (named_in operation.mode operation.flags flag)
unfolding apply_store_flags
contains-apply_store_flags existing operation flag known =
    contains-apply_mode operation.mode existing operation.flags flag known
