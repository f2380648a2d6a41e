-- ===== src/Registry/Name.antt =====
-- The name of a pointer in the registry (PmmRegistryName). A pointer has 64 bits.
use Prim.Native.Nat.{bit_or}
use perl_xml_lib_xml.Common.{
  ℕ, zero, suc, ◌+◌, ◌-◌, ◌*◌, ◌/◌, ◌%◌, ◌^◌, ◌≤◌, ◌<◌, ◌≡◌, refl, [], ◌∷◌, arith, ltb, length, All,
  if◌then◌else◌, bit_or_high, sym, ap, ◌∙◌,
}
use perl_xml_lib_xml.Store.{Ptr, Str}

-- _PMM_HASH_NAME_SIZE
unfoldable pub pmm_hash_name_size : ℕ → ℕ
pmm_hash_name_size n = n + n / 8 + (if ltb 0 (n % 8) then 1 else 0)

-- `name[i] = (xmlChar) (128 | v); v >>= 7;` for the bytes that are left.
unfoldable pub name_bytes : ℕ → ℕ → Str
name_bytes zero v = []
name_bytes (suc k) v = (bit_or 128 v % 256) ∷ name_bytes k (v / 2 ^ 7)

unfoldable pub pmm_registry_name : Ptr → Str
pmm_registry_name p = name_bytes (pmm_hash_name_size 8) p

-- The number that the low seven bits of the bytes make, the lowest first.
abbrev pub name_value : Str → ℕ
name_value [] = 0
name_value (c ∷ r) = (c - 128) + 128 * name_value r

-- How many values `k` groups of seven bits have.
abbrev span : ℕ → ℕ
span zero = 1
span (suc k) = 128 * span k

name_bytes-value : (k v : ℕ) → v < span k → name_value (name_bytes k v) ≡ v
unfolding name_bytes
name_bytes-value zero v small = omega arith
name_bytes-value (suc k) v small =
    omega (arith, bit_or_high v, name_bytes-value k (v / 2 ^ 7) (omega arith))

name_bytes-wraps : (k v : ℕ) → name_bytes k (v + span k) ≡ name_bytes k v
unfolding name_bytes
name_bytes-wraps zero v = refl
name_bytes-wraps (suc k) v =
    let low : bit_or 128 (v + 128 * span k) % 256 ≡ bit_or 128 v % 256 =
      omega (arith, bit_or_high v, bit_or_high (v + 128 * span k)) in
    let high : (v + 128 * span k) / 2 ^ 7 ≡ v / 2 ^ 7 + span k = omega arith in
    rw (low, high, name_bytes-wraps k (v / 2 ^ 7)) refl

name_bytes-All : (k v : ℕ) → All (λ c. (128 ≤ c) × (c < 256)) (name_bytes k v)
unfolding name_bytes
name_bytes-All zero v = tt
name_bytes-All (suc k) v =
    ((omega (arith, bit_or_high v), omega (arith, bit_or_high v)), name_bytes-All k (v / 2 ^ 7))

length-name_bytes : (k v : ℕ) → length (name_bytes k v) ≡ k
unfolding name_bytes
length-name_bytes zero v = refl
length-name_bytes (suc k) v = omega (arith, length-name_bytes k (v / 2 ^ 7))

-- A pointer below 2^63 is what its name says: the name has nine bytes, each from 128 to 255 and so none of
-- them NUL, and their low seven bits are the pointer.
pub pmm_registry_name-value :
    (p : Ptr)
    → p < 2 ^ 63
    → (length (pmm_registry_name p) ≡ 9)
      × All (λ c. (128 ≤ c) × (c < 256)) (pmm_registry_name p)
      × (name_value (pmm_registry_name p) ≡ p)
unfolding pmm_registry_name pmm_hash_name_size
pmm_registry_name-value p small =
    (length-name_bytes 9 p, name_bytes-All 9 p, name_bytes-value 9 p small)

-- Two pointers whose addresses differ by 2^63 have the same name.
pub pmm_registry_name-wraps : (p : Ptr) → pmm_registry_name (p + 2 ^ 63) ≡ pmm_registry_name p
unfolding pmm_registry_name pmm_hash_name_size
pmm_registry_name-wraps p = name_bytes-wraps 9 p

pub pmm_registry_name-injective :
    (p q : Ptr) → p < 2 ^ 63 → q < 2 ^ 63 → pmm_registry_name p ≡ pmm_registry_name q → p ≡ q
pmm_registry_name-injective p q sp sq e =
    sym (pmm_registry_name-value p sp).2 ∙ ap name_value e ∙ (pmm_registry_name-value q sq).2
