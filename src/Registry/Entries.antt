-- ===== src/Registry/Entries.antt =====
-- The table and its entries as a count for each proxy.
use perl_xml_lib_xml.Common.{
  ℕ, ◌^◌, ◌<◌, ◌≡◌, ◌≢◌, sym, ap, ◌∙◌, true, false, arith, ◌==◌, if◌then◌else◌, ==_refl, ==_iff,
  Bool-cases, inl, inr,
}
use perl_xml_lib_xml.Store.{Ptr, null, Store, update, valid}
use perl_xml_lib_xml.Store.Outcome.{done}
use perl_xml_lib_xml.Perl.{Perl}
use perl_xml_lib_xml.Registry.Name.{pmm_registry_name, pmm_registry_name-injective}
use perl_xml_lib_xml.Registry.Table.{HashTable}

-- The abstract registry: how many references each proxy has.
abbrev pub Counts : Type 0
Counts = Ptr → ℕ

-- The table `t` and the entries in `h` say what `counts` says of the proxies below 2^63: a proxy without
-- references has no entry, and any other has one of its own.
pub record IsRegistry (ht : HashTable) (t : ht.Table) (h : Store) (counts : Counts) : Type 0 where
  pub absent : (p : Ptr) → p < 2 ^ 63 → counts p ≡ 0 → ht.lookup t (pmm_registry_name p) ≡ null
  pub present :
      (p : Ptr)
      → p < 2 ^ 63
      → 0 < counts p
      → (valid h.local_live (ht.lookup t (pmm_registry_name p)) ≡ true)
        × (h.local_proxy (ht.lookup t (pmm_registry_name p)) ≡ p)
        × (h.local_count (ht.lookup t (pmm_registry_name p)) ≡ counts p)

-- Newc hands out the entry `f`, which was not in use.
pub record AllocatesLocal (perl : Perl) (h : Store) (f : Ptr) : Type 0 where
  pub not_null : (f == null) ≡ false
  pub unused : h.local_live f ≡ false
  pub result :
      perl.new_local h
      ≡ done f (record h { local_live = λ q. if q == f then true else h.local_live q })

-- Safefree takes back any entry that is in use.
abbrev pub FreesLocals : Perl → Type 0
FreesLocals perl =
    (g : Store) (p : Ptr)
    → valid g.local_live p ≡ true
    → perl.free_local p g ≡ done tt (record g { local_live = update g.local_live p false })

pub other_name :
    (p q : Ptr)
    → p < 2 ^ 63
    → q < 2 ^ 63
    → (q == p) ≡ false
    → pmm_registry_name q ≢ pmm_registry_name p
other_name p q sp sq ne e = let same = pmm_registry_name-injective q p sq sp e in ground arith

-- What an operation on the proxy `p` does: the entries of the other proxies stay, and `p` has the count `n`.
pub record Sets (ht : HashTable) (t u : ht.Table) (h g : Store) (counts : Counts) (p : Ptr) (n : ℕ)
    : Type 0 where
  pub others :
      (q : Ptr)
      → q < 2 ^ 63
      → (q == p) ≡ false
      → ht.lookup u (pmm_registry_name q) ≡ ht.lookup t (pmm_registry_name q)
  pub keeps :
      (q : Ptr)
      → q < 2 ^ 63
      → (q == p) ≡ false
      → 0 < counts q
      → (valid g.local_live (ht.lookup t (pmm_registry_name q)) ≡ true)
        × (g.local_proxy (ht.lookup t (pmm_registry_name q))
            ≡ h.local_proxy (ht.lookup t (pmm_registry_name q)))
        × (g.local_count (ht.lookup t (pmm_registry_name q))
            ≡ h.local_count (ht.lookup t (pmm_registry_name q)))
  pub gone : n ≡ 0 → ht.lookup u (pmm_registry_name p) ≡ null
  pub there :
      0 < n
      → (valid g.local_live (ht.lookup u (pmm_registry_name p)) ≡ true)
        × (g.local_proxy (ht.lookup u (pmm_registry_name p)) ≡ p)
        × (g.local_count (ht.lookup u (pmm_registry_name p)) ≡ n)

pub Sets-IsRegistry :
    (ht : HashTable) (t u : ht.Table) (h g : Store) (counts : Counts) (p : Ptr) (n : ℕ)
    → IsRegistry ht t h counts
    → Sets ht t u h g counts p n
    → IsRegistry ht u g (update counts p n)
Sets-IsRegistry ht t u h g counts p n is sets = record {
  absent = λ q sq none_left. elim (Bool-cases (q == p)) [
    | inl e ↦ rw ((==_iff q p).0 e) (sets.gone (rw e at none_left))
    | inr e ↦ sets.others q sq e ∙ is.absent q sq (rw e at none_left)
  ];
  present = λ q sq some_left. elim (Bool-cases (q == p)) [
    | inl e ↦ let there = sets.there (rw e at some_left) in rw ((==_iff q p).0 e, ==_refl p) there
    | inr e ↦
        let some_left' : 0 < counts q = rw e at some_left in
        let old = is.present q sq some_left' in
        let new = sets.keeps q sq e some_left' in
        rw (sets.others q sq e, e) (new.0, new.1 ∙ old.1, new.2 ∙ old.2)
  ];
}

-- Different proxies have different entries.
pub entries_apart :
    (ht : HashTable) (t : ht.Table) (h : Store) (counts : Counts) (p q : Ptr)
    → IsRegistry ht t h counts
    → p < 2 ^ 63
    → q < 2 ^ 63
    → (q == p) ≡ false
    → 0 < counts p
    → 0 < counts q
    → (ht.lookup t (pmm_registry_name q) == ht.lookup t (pmm_registry_name p)) ≡ false
entries_apart ht t h counts p q is sp sq ne cp cq =
    let at_p = (is.present p sp cp).1 in
    let at_q = (is.present q sq cq).1 in
    elim (Bool-cases (ht.lookup t (pmm_registry_name q) == ht.lookup t (pmm_registry_name p))) [
      | inl e ↦
          let same = (==_iff _ _).0 e in
          let equal : q ≡ p = sym at_q ∙ ap h.local_proxy same ∙ at_p in absurd (ground arith)
      | inr e ↦ e
    ]

-- The store `g` with the entries that `h` has.
abbrev pub with_locals : Store → Store → Store
with_locals g h = record g {
  local_live = h.local_live;
  local_proxy = h.local_proxy;
  local_count = h.local_count;
}
