-- ===== src/Examples/Handlers.antt =====
-- Perl functions, converters and a hash table for the examples.
use perl_xml_lib_xml.Common.{
  ◌≡◌, ◌≢◌, refl, ap, ◌∙◌, sym, Bool, true, false, ◌&&◌, none, some, [], ◌∷◌, ◌==◌, if◌then◌else◌,
  ==_refl, ==_iff, Bool-cases, inl, inr,
}
use perl_xml_lib_xml.Store.{Ptr, null, Str, update}
use perl_xml_lib_xml.Store.Outcome.{done}
use perl_xml_lib_xml.Perl.{Perl}
use perl_xml_lib_xml.Strings.Scalar.{Coder, Coders}
use perl_xml_lib_xml.Registry.Table.{HashTable}

-- A handler that records its calls.
abbrev pub small_perl : Perl
small_perl = record {
  new_local =
      λ h. done 402 (record h { local_live = λ q. if q == 402 then true else h.local_live q });
  free_local = λ p h. done tt (record h { local_live = update h.local_live p false });
  sv_refcnt_inc = λ p h. done tt h;
  sv_refcnt_dec = λ p h. done tt h;
  fetch_handler = λ p h. done null h;
  fetch_join_characters = λ p h. done 0 h;
  call_method = λ call h. done false (record h { calls = call ∷ h.calls });
  sv_ok = λ p h. done false h;
  sv_catsv = λ p s h. done tt h;
  sv_setsv = λ p s h. done tt h;
}

-- A converter between one byte above 127 in Perl and two bytes in UTF-8.
abbrev to_two : Str → Str
to_two [] = []
to_two (c ∷ r) = 195 ∷ c ∷ to_two r

abbrev from_two : Str → Str
from_two [] = []
from_two (c ∷ []) = []
from_two (c ∷ d ∷ r) = d ∷ from_two r

abbrev pub small_coder : Coder
small_coder = record { to_utf8 = λ s. some (to_two s); from_utf8 = λ s. some (from_two s) }

abbrev pub small_coders : Coders
small_coders = record {
  get_handler = λ charset. some small_coder;
  find_handler = λ name. none;
  parse_encoding = λ name. 10;
  same_string = λ s t. false;
}

abbrev pub same_name : Str → Str → Bool
same_name [] [] = true
same_name (a ∷ r) (b ∷ s) = (a == b) && same_name r s
same_name _ _ = false

pub same_name_refl : (s : Str) → same_name s s ≡ true
same_name_refl [] = refl
same_name_refl (a ∷ r) = rw (==_refl a) (same_name_refl r)

and_parts : (a b : Bool) → (a && b) ≡ true → (a ≡ true) × (b ≡ true)
and_parts true true e = (refl, refl)
and_parts true false e = (refl, e)
and_parts false b e = absurd cc

pub same_name_eq : (s t : Str) → same_name s t ≡ true → s ≡ t
same_name_eq [] [] e = refl
same_name_eq [] (b ∷ t) e = absurd cc
same_name_eq (a ∷ s) [] e = absurd cc
same_name_eq (a ∷ s) (b ∷ t) e =
    let parts = and_parts (a == b) (same_name s t) e in
    ap (λ x. x ∷ s) ((==_iff a b).0 parts.0) ∙ ap (λ r. b ∷ r) (same_name_eq s t parts.1)

pub same_name_ne : (s t : Str) → s ≢ t → same_name s t ≡ false
same_name_ne s t ne = elim (Bool-cases (same_name s t)) [
  | inl e ↦ absurd (ne (same_name_eq s t e))
  | inr e ↦ e
]

abbrev changed : (Str → Ptr) → Str → Ptr → Str → Ptr
changed t n p m = if same_name m n then p else t m

pub changed_lookup :
    (t : Str → Ptr) (n : Str) (p : Ptr) (u : Str → Ptr)
    → some (changed t n p) ≡ some u
    → (u n ≡ p) × ((m : Str) → m ≢ n → u m ≡ t m)
changed_lookup t n p u e =
    let same : changed t n p ≡ u = ap (λ o. elim o [ none ↦ t | some v ↦ v ]) e in
    (
      sym (ap (λ v. v n) same) ∙ rw (same_name_refl n) refl,
      λ m ne. sym (ap (λ v. v m) same) ∙ rw (same_name_ne m n ne) refl,
    )

-- A hash table as a function of names, in which an entry is replaced by another of the same name.
abbrev pub small_table : HashTable
small_table = record {
  Table = Str → Ptr;
  lookup = λ t n. t n;
  add_entry = λ t n p. some (changed t n p);
  remove_entry = λ t n. some (changed t n null);
  size = λ t. 0;
  copy = λ t f h. done t h;
  add_ok = λ t n p free. (changed t n p, refl);
  lookup_added = λ t u n p added. changed_lookup t n p u added;
  remove_ok = λ t n there. (changed t n null, refl);
  lookup_removed = λ t u n removed. changed_lookup t n null u removed;
}
