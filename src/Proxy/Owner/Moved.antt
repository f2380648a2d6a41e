-- ===== src/Proxy/Owner/Moved.antt =====
-- What PmmFixOwner does to the owners and the counts of proxies, as functions of the old ones.
use perl_xml_lib_xml.Common.{
  ℕ, suc, ◌+◌, ◌-◌, ◌^◌, ◌<◌, ◌≡◌, true, false, List, [], ◌∷◌, ◌++◌, arith, ◌==◌, if◌then◌else◌,
  length, mem, mem-append, Distinct,
}
use mathlib.Core.Path.{fun_ext}
use perl_xml_lib_xml.Store.{Ptr, Store, update, valid}
use perl_xml_lib_xml.Store.Outcome.{done}
use perl_xml_lib_xml.Libxml.{Libxml}
use perl_xml_lib_xml.Dom.Links.Chains.{valid-ne_null, Distinct-split}
use perl_xml_lib_xml.Proxy.Count.{int_inc, int_inc_small}
use perl_xml_lib_xml.Proxy.Counting.{pmm_refcnt_dec-shared, pmm_refcnt_inc-run}
use perl_xml_lib_xml.Proxy.Owner.{change_owner}

pub length-append : (xs ys : List Ptr) → length (xs ++ ys) ≡ length xs + length ys
length-append [] ys = omega arith
length-append (x ∷ xs) ys = omega (arith, length-append xs ys)

-- The owners once the proxies `ps` belong to the node `n`.
abbrev pub moved : Ptr → List Ptr → (Ptr → Ptr) → Ptr → Ptr
moved n ps w q = if mem q ps then n else w q

-- The counts once `i` references went over from `old` to `new`.
abbrev pub shifted : Ptr → Ptr → ℕ → (Ptr → ℕ) → Ptr → ℕ
shifted new old i c q = if q == new then c new + i else if q == old then c old - i else c q

abbrev pub with_owners : Store → (Ptr → Ptr) → (Ptr → ℕ) → Store
with_owners h w c = record h { proxy_owner = w; proxy_count = c }

-- The proxies `new` and `old` are two, and `old` is the proxy of the node `owner`.
pub record AreOwners (h : Store) (new old owner : Ptr) : Type 0 where
  pub new_live : valid h.proxy_live new ≡ true
  pub old_live : valid h.proxy_live old ≡ true
  pub differ : (new == old) ≡ false
  pub owner_live : valid h.live owner ≡ true
  pub owner_proxy : h.priv owner ≡ old

-- The proxies `ps` belong to `owner`, neither `new` nor `old` is one of them, and the counts of these
-- have room: `old` keeps a reference.
pub record CanMove (new old owner : Ptr) (w : Ptr → Ptr) (c : Ptr → ℕ) (ps : List Ptr)
    : Type 0 where
  pub owned : (q : Ptr) → mem q ps ≡ true → w q ≡ owner
  pub distinct : Distinct ps
  pub not_new : mem new ps ≡ false
  pub not_old : mem old ps ≡ false
  pub remain : length ps < c old
  pub old_small : c old < 2 ^ 31
  pub new_small : c new + length ps < 2 ^ 31

module _ (h : Store) (new old owner : Ptr) where
  -- The store in which `ps` have moved.
  abbrev pub all_moved : List Ptr → (Ptr → Ptr) → (Ptr → ℕ) → Store
  all_moved ps w c = with_owners h (moved (h.proxy_node new) ps w) (shifted new old (length ps) c)

  pub CanMove-split :
      (w : Ptr → Ptr) (c : Ptr → ℕ) (xs ys : List Ptr)
      → (new == old) ≡ false
      → CanMove new old owner w c (xs ++ ys)
      → CanMove new old owner w c xs
        × CanMove new old owner (moved (h.proxy_node new) xs w) (shifted new old (length xs) c) ys
  CanMove-split w c xs ys ne can =
      let (dx, dy, apart) = Distinct-split xs ys can.distinct in
      (
        record {
          owned = λ q i. can.owned q (ground (arith, mem-append q xs ys));
          distinct = dx;
          not_new = ground (arith, can.not_new, mem-append new xs ys);
          not_old = ground (arith, can.not_old, mem-append old xs ys);
          remain = omega (arith, can.remain, length-append xs ys);
          old_small = can.old_small;
          new_small = omega (arith, can.new_small, length-append xs ys);
        },
        record {
          owned = λ q i. ground (arith, apart q, can.owned q (ground (arith, mem-append q xs ys)));
          distinct = dy;
          not_new = ground (arith, can.not_new, mem-append new xs ys);
          not_old = ground (arith, can.not_old, mem-append old xs ys);
          remain = ground (arith, can.remain, length-append xs ys);
          old_small = ground (arith, can.old_small);
          new_small = ground (arith, can.new_small, length-append xs ys);
        },
      )

  pub all_moved-append :
      (w : Ptr → Ptr) (c : Ptr → ℕ) (xs ys : List Ptr)
      → (new == old) ≡ false
      → all_moved ys (moved (h.proxy_node new) xs w) (shifted new old (length xs) c)
        ≡ all_moved (xs ++ ys) w c
  all_moved-append w c xs ys ne =
      let owners : moved (h.proxy_node new) ys (moved (h.proxy_node new) xs w)
          ≡ moved (h.proxy_node new) (xs ++ ys) w =
        fun_ext λ q. ground (arith, mem-append q xs ys) in
      let counts : shifted new old (length ys) (shifted new old (length xs) c)
          ≡ shifted new old (length (xs ++ ys)) c =
        fun_ext λ q. ground (arith, length-append xs ys) in
      rw (owners, counts)

  pub all_moved-none : (w : Ptr → Ptr) (c : Ptr → ℕ) → all_moved [] w c ≡ with_owners h w c
  all_moved-none w c = let counts : shifted new old 0 c ≡ c = fun_ext λ q. ground arith in rw counts

  -- One proxy gets its new owner.
  pub change_owner-moved :
      (lib : Libxml) (k : ℕ) (w : Ptr → Ptr) (c : Ptr → ℕ) (proxy : Ptr)
      → AreOwners h new old owner
      → valid h.proxy_live proxy ≡ true
      → CanMove new old owner w c (proxy ∷ [])
      → change_owner lib (suc k) proxy old new (with_owners h w c)
        ≡ done tt (all_moved (proxy ∷ []) w c)
  unfolding change_owner
  change_owner-moved lib k w c proxy are vp can =
      let n = h.proxy_node new in
      let g1 = with_owners h (update w proxy n) c in
      let c' = update c new (int_inc (c new)) in
      let g2 = with_owners h (update w proxy n) c' in
      let ne_new : (new == proxy) ≡ false = ground (arith, can.not_new) in
      let ne_old : (old == proxy) ≡ false = ground (arith, can.not_old) in
      let ne : (old == new) ≡ false = ground (arith, are.differ) in
      let up : int_inc (c new) ≡ c new + 1 = int_inc_small (c new) (omega (arith, can.new_small)) in
      let here : c' old ≡ c old = rw ne in
      let many : 1 < c' old = rw here can.remain in
      let small : c' old < 2 ^ 31 = rw here can.old_small in
      let owners : update w proxy n ≡ moved n (proxy ∷ []) w = fun_ext λ q. ground arith in
      let counts : update c' old (c' old - 1) ≡ shifted new old 1 c =
        fun_ext λ q. ground (arith, here, up, are.differ) in
      rw
        (
          valid-ne_null h.proxy_live new are.new_live,
          ne_new,
          are.new_live,
          vp,
          pmm_refcnt_inc-run g1 new are.new_live,
          valid-ne_null h.proxy_live old are.old_live,
          ne_old,
          pmm_refcnt_dec-shared lib k g2 old are.old_live many small,
        )
        (rw (owners, counts))
