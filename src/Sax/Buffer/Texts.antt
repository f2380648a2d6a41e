-- ===== src/Sax/Buffer/Texts.antt =====
-- The character buffer holds the texts that were appended, in order.
use perl_xml_lib_xml.Common.{
  ℕ, zero, suc, ◌+◌, ◌-◌, ◌%◌, ◌^◌, ◌<◌, ◌≤◌, ◌≡◌, refl, true, false, Option, none, some, List, [],
  ◌∷◌, ◌++◌, arith, ltb, leb, ◌||◌, ◌==◌, ==_iff, if◌then◌else◌, length, mem, Bool-cases, inl, inr,
}
use mathlib.Core.List.{append_assoc, append-nil}
use mathlib.Core.Path.{subst}
use perl_xml_lib_xml.Store.{Ptr, null, Str, Store, valid, buffer_overflow}
use perl_xml_lib_xml.Store.Outcome.{Outcome, done, croaked, fault}
use perl_xml_lib_xml.Dom.Links.Chains.{valid-ne_null}
use perl_xml_lib_xml.Sax.Buffer.{
  size_max, has_text, length_loop, block_size, cbuffer_length, copy_text, copy_loop,
  cbuffer_characters,
}

-- The full chunks of a buffer: address and text of each.
abbrev pub Cells : Type 0
Cells = List (Ptr × Str)

abbrev pub addresses : Cells → List Ptr
addresses [] = []
addresses ((c, s) ∷ r) = c ∷ addresses r

abbrev pub total : Cells → ℕ
total [] = 0
total ((c, s) ∷ r) = length s + total r

abbrev pub texts : Cells → Str
texts [] = []
texts ((c, s) ∷ r) = s ++ texts r

-- From `p` the chunks `cs` lead to the chunk `t`. The length of a text is a size_t.
abbrev pub Chunks : Store → Ptr → Cells → Ptr → Type 0
Chunks h p [] t = p ≡ t
Chunks h p ((c, s) ∷ r) t =
    (p ≡ c)
    × (valid h.chunk_live c ≡ true)
    × (h.chunk_text c ≡ some s)
    × (h.chunk_len c ≡ length s)
    × (length s ≤ size_max)
    × Chunks h (h.chunk_next c) r t

-- The buffer `b` has the full chunks `cs`, and the empty chunk `t` behind them.
pub record IsBuffer (h : Store) (b : Ptr) (cs : Cells) (t : Ptr) : Type 0 where
  pub live : valid h.buf_live b ≡ true
  pub chunks : Chunks h (h.buf_head b) cs t
  pub tail : h.buf_tail b ≡ t
  pub tail_live : valid h.chunk_live t ≡ true
  pub tail_text : h.chunk_text t ≡ none
  pub tail_len : h.chunk_len t ≡ 0
  pub tail_next : h.chunk_next t ≡ null
  pub apart : mem t (addresses cs) ≡ false

-- What CBufferCharacters gives: nothing at all for an empty buffer.
abbrev pub contents : Cells → Option Str
contents [] = none
contents (c ∷ r) = some (texts (c ∷ r))

ltb-false : (a b : ℕ) → b ≤ a → ltb a b ≡ false
ltb-false a b le = ground arith

leb_le : (a b : ℕ) → leb a b ≡ true → a ≤ b
leb_le a b le = ground arith

no_wrap : (a limit : ℕ) → a ≤ limit → limit ≤ size_max → a % 2 ^ 64 ≡ a
no_wrap a limit le small = ground arith

module _ (h : Store) (t : Ptr) where
  length_loop-total :
      (k : ℕ) (p acc : ℕ) (cs : Cells)
      → Chunks h p cs t
      → valid h.chunk_live t ≡ true
      → h.chunk_len t ≡ 0
      → h.chunk_next t ≡ null
      → length cs + 1 < k
      → acc ≤ size_max
      → length_loop k p acc h ≡ (
          if leb (acc + total cs) size_max
          then done (acc + total cs) h
          else croaked buffer_overflow h)
  unfolding length_loop
  length_loop-total zero p acc cs c vt lt nt fuel fits = absurd (omega arith)
  length_loop-total (suc zero) p acc [] c vt lt nt fuel fits = absurd (omega arith)
  length_loop-total (suc (suc k)) p acc [] c vt lt nt fuel fits =
      rw (c, valid-ne_null h.chunk_live t vt, vt, vt, lt, nt) (ground arith)
  length_loop-total (suc k) p acc ((x, s) ∷ r) (px, vx, sx, lx, bx, cr) vt lt nt fuel fits =
      elim (Bool-cases (ltb (size_max - length s) acc)) [
        | inl over ↦ rw (px, valid-ne_null h.chunk_live x vx, vx, vx, lx, over) (ground arith)
        | inr fine ↦
            rw
              (
                px,
                valid-ne_null h.chunk_live x vx,
                vx,
                vx,
                lx,
                fine,
                length_loop-total k (h.chunk_next x) (acc + length s) r cr vt lt nt (ground arith)
                    (ground arith),
              )
              (ground arith)
      ]

  -- The copy loop walks the same chunks, and neither its limit nor the block's end is passed.
  copy_loop-texts :
      (k : ℕ) (p limit room copied : ℕ) (out : Str) (cs : Cells)
      → Chunks h p cs t
      → valid h.chunk_live t ≡ true
      → h.chunk_text t ≡ none
      → h.chunk_next t ≡ null
      → length cs + 1 < k
      → copied + total cs ≤ limit
      → limit < room
      → limit ≤ size_max
      → copy_loop k limit room p copied out h ≡ done (out ++ texts cs) h
  unfolding copy_loop copy_text
  copy_loop-texts zero p limit room copied out cs c vt xt nt fuel fits inside small =
      absurd (omega arith)
  copy_loop-texts (suc zero) p limit room copied out [] c vt xt nt fuel fits inside small =
      absurd (omega arith)
  copy_loop-texts (suc (suc k)) p limit room copied out [] c vt xt nt fuel fits inside small =
      rw (c, valid-ne_null h.chunk_live t vt, vt, vt, vt, xt, nt, append-nil out) refl
  copy_loop-texts (suc k) p limit room copied out ((x, s) ∷ r) (px, vx, sx, lx, bx, cr) vt xt nt
        fuel fits inside small =
      rw
        (
          px,
          valid-ne_null h.chunk_live x vx,
          vx,
          vx,
          vx,
          sx,
          lx,
          no_wrap (copied + length s) limit (omega arith) small,
          ltb-false limit (copied + length s) (omega arith),
          ltb-false room (copied + length s) (omega arith),
          copy_loop-texts k (h.chunk_next x) limit room (copied + length s) (out ++ s) r cr vt xt nt
              (ground arith) (omega arith) inside small,
          append_assoc out s (texts r),
        )
        refl

  -- In a block of no bytes, the first byte is already past the end.
  copy_loop-no_room :
      (k : ℕ) (p limit : ℕ) (out : Str) (cs : Cells)
      → Chunks h p cs t
      → length cs + 1 < k
      → 0 < total cs
      → copy_loop k limit 0 p 0 out h ≡ fault
  unfolding copy_loop copy_text
  copy_loop-no_room zero p limit out cs c fuel some_byte = absurd (omega arith)
  copy_loop-no_room (suc k) p limit out [] c fuel some_byte = absurd (omega arith)
  copy_loop-no_room (suc k) p limit out ((x, s) ∷ r) (px, vx, sx, lx, bx, cr) fuel some_byte =
      let now : (0 + length s) % 2 ^ 64 ≡ length s =
        ground (arith, no_wrap (length s) size_max bx) in
      elim (Bool-cases (ltb 0 (length s))) [
        | inl some_text ↦
            let over : (ltb limit (length s) || ltb 0 (length s)) ≡ true = ground arith in
            rw (px, valid-ne_null h.chunk_live x vx, vx, vx, vx, sx, lx, now, over) refl
        | inr no_text ↦
            let nil : length s ≡ 0 = ground arith in
            let free : (ltb limit 0 || false) ≡ false = ground arith in
            rw (px, valid-ne_null h.chunk_live x vx, vx, vx, vx, sx, lx, nil, free)
              (copy_loop-no_room k (h.chunk_next x) limit (out ++ s) r cr (ground arith)
                (ground arith))
      ]

pub length_loop-from_zero :
    (fuel : ℕ) (h : Store) (b : Ptr) (cs : Cells) (t : Ptr)
    → IsBuffer h b cs t
    → length cs + 1 < fuel
    → length_loop fuel (h.buf_head b) 0 h
      ≡ (if leb (total cs) size_max then done (total cs) h else croaked buffer_overflow h)
length_loop-from_zero fuel h b cs t good enough =
    let sum : 0 + total cs ≡ total cs = omega arith in
    subst
      (λ n.
        length_loop fuel (h.buf_head b) 0 h
        ≡ (if leb n size_max then done n h else croaked buffer_overflow h))
      sum
      (length_loop-total h t fuel (h.buf_head b) 0 cs good.chunks good.tail_live good.tail_len
        good.tail_next enough (omega arith))

-- What CBufferCharacters does with texts of `n` bytes together, whose concatenation is `text`.
abbrev pub handed_out : ℕ → Option Str → Store → Outcome (Option Str)
handed_out n text h =
    if ltb n size_max
    then done text h
    else if n == size_max
    then fault
    else croaked buffer_overflow h

-- CBufferCharacters gives the texts that the full chunks hold, one after the other, and nothing for an
-- empty buffer, if their length is less than SIZE_MAX; it croaks if the length is more than SIZE_MAX; and if
-- it is SIZE_MAX, the block for the copy has no bytes, since `length + 1` wraps around, and the copy writes
-- past its end. Unless it does that, the store stays as it is. The fuel has to be greater than the number of
-- the chunks, the empty one counted.
pub cbuffer_characters-texts :
    (fuel : ℕ) (h : Store) (b : Ptr) (cs : Cells) (t : Ptr)
    → IsBuffer h b cs t
    → length cs + 1 < fuel
    → cbuffer_characters fuel b h ≡ handed_out (total cs) (contents cs) h
unfolding cbuffer_characters cbuffer_length has_text block_size
cbuffer_characters-texts fuel h b [] t good enough =
    rw
      (
        good.live,
        length_loop-from_zero fuel h b [] t good enough,
        good.live,
        good.chunks,
        valid-ne_null h.chunk_live t good.tail_live,
        good.tail_live,
        good.tail_text,
      )
      refl
cbuffer_characters-texts fuel h b ((x, s) ∷ r) t good enough =
    let (px, vx, sx, lx, bx, cr) = good.chunks in
    let n = total ((x, s) ∷ r) in
    elim (Bool-cases (ltb n size_max)) [
      | inl fits ↦
          let small : leb n size_max ≡ true = ground arith in
          let room : (n + 1) % 2 ^ 64 ≡ n + 1 = ground arith in
          let inside : ltb n (n + 1) ≡ true = ground arith in
          rw
            (
              fits,
              good.live,
              length_loop-from_zero fuel h b ((x, s) ∷ r) t good enough,
              small,
              good.live,
              px,
              valid-ne_null h.chunk_live x vx,
              vx,
              sx,
              room,
              copy_loop-texts h t fuel x n (n + 1) 0 [] ((x, s) ∷ r) (refl, vx, sx, lx, bx, cr)
                  good.tail_live good.tail_text good.tail_next enough (omega arith) (omega arith)
                  (leb_le n size_max small),
              inside,
            )
            refl
      | inr long ↦ elim (Bool-cases (n == size_max)) [
        | inl e ↦
            let same = (==_iff n size_max).0 e in
            let small : leb n size_max ≡ true = ground arith in
            let room : (n + 1) % 2 ^ 64 ≡ 0 = ground arith in
            rw
              (
                long,
                e,
                good.live,
                length_loop-from_zero fuel h b ((x, s) ∷ r) t good enough,
                small,
                good.live,
                px,
                valid-ne_null h.chunk_live x vx,
                vx,
                sx,
                room,
                copy_loop-no_room h t fuel x n [] ((x, s) ∷ r) (refl, vx, sx, lx, bx, cr) enough
                    (omega arith),
              )
              refl
        | inr ne ↦
            let over : leb n size_max ≡ false = ground arith in
            rw
              (long, ne, good.live, length_loop-from_zero fuel h b ((x, s) ∷ r) t good enough, over)
              refl
      ]
    ]
