-- ===== src/Sax/Run.antt =====
-- A run of character events and the event after it (PSaxGetHandler's callbacks, PSaxCharacters).
use perl_xml_lib_xml.Common.{
  ℕ, ◌+◌, ◌<◌, ◌≤◌, ◌≡◌, refl, ap, ◌∙◌, Bool, true, false, ◌||◌, some, List, [], ◌∷◌, ◌++◌, arith,
  ◌==◌, if◌then◌else◌, length, mem, Distinct,
}
use mathlib.Core.List.{append_assoc, append-nil}
use perl_xml_lib_xml.Store.{Ptr, Str, Store}
use perl_xml_lib_xml.Store.Returns.{Returns, Returns-after}
use perl_xml_lib_xml.Libxml.{Libxml}
use perl_xml_lib_xml.Perl.{Perl}
use perl_xml_lib_xml.Sax.Buffer.{size_max}
use perl_xml_lib_xml.Sax.Buffer.Texts.{Cells, addresses, total, texts, IsBuffer}
use perl_xml_lib_xml.Sax.Buffer.Growth.{
  AllocatesChunk, appended, cbuffer_append-run, appended-IsBuffer,
}
use perl_xml_lib_xml.Sax.Buffer.Purge.{FreesChunks, freed}
use perl_xml_lib_xml.Sax.Characters.{int_max, psax_characters}
use perl_xml_lib_xml.Sax.Events.{
  Event, on_characters, on_comment, psax_get_handler, run_events, psax_comment,
}
use perl_xml_lib_xml.Sax.State.{
  IsSax, RecordsCalls, characters_call, moved, moved-IsSax, psax_characters-joins,
}
use perl_xml_lib_xml.Sax.Order.{
  moved-IsBuffer, moved-calls, moved-chunk_live, comment_call, psax_comment-order,
}

-- Each text with the block that its append takes for the next empty chunk.
abbrev pub Pieces : Type 0
Pieces = List (Str × Ptr)

abbrev pub event_list : Pieces → List Event → List Event
event_list [] rest = rest
event_list ((s, f) ∷ r) rest = on_characters s ∷ event_list r rest

abbrev pub joined : Pieces → Str
joined [] = []
joined ((s, f) ∷ r) = s ++ joined r

-- The chunks that the texts fill, the first in the chunk `t`; and the empty chunk then.
abbrev pub filled : Ptr → Pieces → Cells
filled t [] = []
filled t ((s, f) ∷ r) = (t, s) ∷ filled f r

abbrev pub empty_chunk : Ptr → Pieces → Ptr
empty_chunk t [] = t
empty_chunk t ((s, f) ∷ r) = empty_chunk f r

abbrev pub live_after : (Ptr → Bool) → Pieces → Ptr → Bool
live_after live [] = live
live_after live ((s, f) ∷ r) = live_after (λ q. if q == f then true else live q) r

-- xmlMalloc gives every append its block, and the length of each text is a size_t.
abbrev pub GivesAll : Libxml → (Ptr → Bool) → Pieces → Type 0
GivesAll lib live [] = Unit
GivesAll lib live ((s, f) ∷ r) =
    AllocatesChunk lib live f
    × (length s ≤ size_max)
    × GivesAll lib (λ q. if q == f then true else live q) r

-- The buffer `b` has the chunks `cs`, each once, and the SAX state is as it was.
record Collects (h g : Store) (ctxt sax handler b : Ptr) (cs : Cells) (t : Ptr) (live : Ptr → Bool)
    : Type 0 where
  is_sax : IsSax g ctxt sax handler b
  is_buffer : IsBuffer g b cs t
  apart : Distinct (addresses cs)
  same_calls : g.calls ≡ h.calls
  blocks : g.chunk_live ≡ live

mem-addresses :
    (x : Ptr) (cs : Cells) (t : Ptr) (s : Str)
    → mem x (addresses (cs ++ (t, s) ∷ [])) ≡ (mem x (addresses cs) || (x == t))
mem-addresses x [] t s = ground arith
mem-addresses x ((y, u) ∷ r) t s = ground (arith, mem-addresses x r t s)

Distinct-append :
    (cs : Cells) (t : Ptr) (s : Str)
    → Distinct (addresses cs)
    → mem t (addresses cs) ≡ false
    → Distinct (addresses (cs ++ (t, s) ∷ []))
Distinct-append [] t s apart out = (refl, tt)
Distinct-append ((x, u) ∷ r) t s apart out =
    let known = mem-addresses x r t s in
    (ground (arith, known, apart.0), Distinct-append r t s apart.1 (ground arith))

appended-IsSax :
    (h : Store) (ctxt sax handler b b' t f : Ptr) (s : Str)
    → IsSax h ctxt sax handler b
    → IsSax (appended h b' t s f) ctxt sax handler b
appended-IsSax h ctxt sax handler b b' t f s is = record {
  ctxt_live = is.ctxt_live;
  state = is.state;
  sax_live = is.sax_live;
  has_handler = is.has_handler;
  some_handler = is.some_handler;
  has_buffer = is.has_buffer;
  joins = is.joins;
}

psax_characters-Collects :
    (lib : Libxml) (perl : Perl) (h0 h : Store) (ctxt sax handler b : Ptr) (cs : Cells) (t f : Ptr)
    (s : Str) (live : Ptr → Bool)
    → Collects h0 h ctxt sax handler b cs t live
    → AllocatesChunk lib live f
    → length s ≤ size_max
    → Returns (psax_characters lib perl ctxt s h) (λ _ g.
      Collects h0 g ctxt sax handler b (cs ++ (t, s) ∷ []) f (λ q. if q == f then true else live q))
psax_characters-Collects lib perl h0 h ctxt sax handler b cs t f s live has gives small =
    let locator = h.sax_locator sax in
    let g = moved lib ctxt sax h locator in
    let good = moved-IsBuffer lib ctxt sax h locator b cs t has.is_buffer in
    let blocks : g.chunk_live ≡ live = moved-chunk_live lib ctxt sax h locator ∙ has.blocks in
    let gives' : AllocatesChunk lib g.chunk_live f = rw blocks gives in
    rw
      (
        psax_characters-joins lib perl h ctxt sax handler b s has.is_sax,
        cbuffer_append-run lib g b cs t f s good gives',
      )
      record {
        is_sax =
            appended-IsSax g ctxt sax handler b b t f s
              (moved-IsSax lib h ctxt sax handler b locator has.is_sax);
        is_buffer = appended-IsBuffer lib g b cs t f s good small gives';
        apart = Distinct-append cs t s has.apart has.is_buffer.apart;
        same_calls = moved-calls lib ctxt sax h locator ∙ has.same_calls;
        blocks = ap (λ used q. if q == f then true else used q) blocks;
      }

texts-filled : (t : Ptr) (ps : Pieces) → texts (filled t ps) ≡ joined ps
texts-filled t [] = refl
texts-filled t ((s, f) ∷ r) = rw (texts-filled f r) refl

length-filled : (t : Ptr) (ps : Pieces) → length (filled t ps) ≡ length ps
length-filled t [] = refl
length-filled t ((s, f) ∷ r) = rw (length-filled f r) refl

-- The character events are collected one after the other; `next` says what the events after them do.
run_events-Collects :
    (lib : Libxml) (perl : Perl) (fuel : ℕ) (h0 h : Store) (ctxt sax handler b : Ptr) (cs : Cells)
    (t : Ptr) (live : Ptr → Bool) (ps : Pieces) (rest : List Event) (Q : Unit {0} → Store → Type 0)
    → Collects h0 h ctxt sax handler b cs t live
    → GivesAll lib live ps
    → ((g : Store)
        → Collects h0 g ctxt sax handler b
            (cs ++ filled t ps)
            (empty_chunk t ps)
            (live_after live ps)
        → Returns (run_events lib perl fuel ctxt rest g) Q)
    → Returns (run_events lib perl fuel ctxt (event_list ps rest) h) Q
unfolding run_events psax_get_handler
run_events-Collects lib perl fuel h0 h ctxt sax handler b cs t live [] rest Q has gives next =
    next h (rw (append-nil cs) has)
run_events-Collects lib perl fuel h0 h ctxt sax handler b cs t live ((s, f) ∷ r) rest Q has
      (give, small, gives) next =
    Returns-after (psax_characters lib perl ctxt s h) _ _ Q
      (psax_characters-Collects lib perl h0 h ctxt sax handler b cs t f s live has give small)
      (λ _ g has'.
        run_events-Collects lib perl fuel h0 g ctxt sax handler b (cs ++ (t, s) ∷ []) f
          (λ q. if q == f then true else live q) r rest Q has' gives
          (λ k has''. next k (rw (append_assoc cs ((t, s) ∷ []) (filled f r)) at has'')))

-- Let the SAX state have a handler whose methods do not die and join texts in a well-formed buffer that is
-- empty; let libxml2 report at least one piece of character data, of at most INT_MAX bytes together, and
-- then a comment; and let xmlMalloc hand out a block that is not in use for each append and for the purge,
-- and xmlFree take blocks back. Then the handler gets two calls: `characters` with all the pieces joined
-- in order, however the parser cut them, and then `comment`.
pub run_events-joined :
    (lib : Libxml) (perl : Perl) (fuel : ℕ) (h : Store) (ctxt sax handler b t f last : Ptr)
    (s c : Str) (r : Pieces)
    → IsSax h ctxt sax handler b
    → IsBuffer h b [] t
    → GivesAll lib h.chunk_live ((s, f) ∷ r)
    → AllocatesChunk lib
        (freed
          (t ∷ addresses (filled f r))
          (empty_chunk f r)
          (live_after h.chunk_live ((s, f) ∷ r)))
        last
    → total (filled t ((s, f) ∷ r)) ≤ int_max
    → RecordsCalls perl
    → FreesChunks lib
    → length r + 2 < fuel
    → Returns
        (run_events lib perl fuel ctxt (event_list ((s, f) ∷ r) (on_comment (some c) ∷ [])) h)
        (λ _ g.
          g.calls
          ≡ comment_call handler c ∷ characters_call handler (joined ((s, f) ∷ r)) ∷ h.calls)
unfolding run_events psax_get_handler
run_events-joined lib perl fuel h ctxt sax handler b t f last s c r is good gives end short records
      frees enough =
    run_events-Collects lib perl fuel h h ctxt sax handler b [] t h.chunk_live ((s, f) ∷ r)
      (on_comment (some c) ∷ []) _
      (record { is_sax = is; is_buffer = good; apart = tt; same_calls = refl; blocks = refl }) gives
      (λ g has.
        Returns-after (psax_comment lib perl fuel ctxt (some c) g) _ _ _
          (psax_comment-order lib perl fuel g ctxt sax handler b t s c (filled f r)
            (empty_chunk f r) last has.is_sax has.is_buffer has.apart short records
            (rw has.blocks end) frees (omega (arith, length-filled f r)))
          (λ _ k (calls, at_head, no_text). rw (calls, texts-filled f r, has.same_calls) refl))
