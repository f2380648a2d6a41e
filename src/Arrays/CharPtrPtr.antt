-- ===== src/Arrays/CharPtrPtr.antt =====
-- XS_unpack_charPtrPtr, XS_pack_charPtrPtr and XS_release_charPtrPtr. A `char **` is what its slots hold, the
-- closing NULL among them; to look at a slot that was never written is a fault.
use perl_xml_lib_xml.Common.{
  ℕ, ◌+◌, ◌*◌, Bool, Option, none, some, List, [], ◌∷◌, if◌then◌else◌, length,
}
use perl_xml_lib_xml.Store.{Str}
use perl_xml_lib_xml.Store.Outcome.{Cmd, pure, fault, ◌>>=◌}
use perl_xml_lib_xml.Strings.Scalar.{c_string}

-- An element of a Perl array: not there, a string by its bytes, or anything else.
pub data Element : Type 0 where
  absent : Element
  string_element : Str → Element
  other_element : Element

-- An argument: a reference to an array, or anything else.
pub data Argument : Type 0 where
  array_ref : List Element → Argument
  other_argument : Argument

pub data Slot : Type 0 where
  null_slot : Slot
  chars : Str → Slot
  unwritten : Slot

-- safemalloc, by the size; whether it gives a block.
module _ (safemalloc : ℕ → Bool) where
  -- What the loop leaves in one slot.
  unfoldable pub unpack_element : Element → Slot
  unpack_element absent = null_slot
  unpack_element (string_element s) =
      if safemalloc (length s + 1) then chars (c_string s) else null_slot
  unpack_element other_element = unwritten

  unfoldable pub unpack_loop : List Element → List Slot
  unpack_loop [] = null_slot ∷ []
  unpack_loop (e ∷ r) = unpack_element e ∷ unpack_loop r

  -- None is NULL. A pointer has 8 bytes.
  unfoldable pub xs_unpack_char_ptr_ptr : Argument → Option (List Slot)
  xs_unpack_char_ptr_ptr other_argument = none
  xs_unpack_char_ptr_ptr (array_ref []) = none
  xs_unpack_char_ptr_ptr (array_ref (e ∷ r)) =
      if safemalloc (8 * (length r + 2)) then some (unpack_loop (e ∷ r)) else none

-- The strings before the first NULL.
unfoldable pub xs_pack_char_ptr_ptr : List Slot → Cmd (List Str)
xs_pack_char_ptr_ptr [] = λ h. fault
xs_pack_char_ptr_ptr (null_slot ∷ r) = pure []
xs_pack_char_ptr_ptr (chars s ∷ r) = do rest ← xs_pack_char_ptr_ptr r; pure (s ∷ rest)
xs_pack_char_ptr_ptr (unwritten ∷ r) = λ h. fault

-- How many blocks are given back, the array among them.
unfoldable pub xs_release_char_ptr_ptr : List Slot → Cmd ℕ
xs_release_char_ptr_ptr [] = λ h. fault
xs_release_char_ptr_ptr (null_slot ∷ r) = pure 1
xs_release_char_ptr_ptr (chars s ∷ r) = do freed ← xs_release_char_ptr_ptr r; pure (freed + 1)
xs_release_char_ptr_ptr (unwritten ∷ r) = λ h. fault
