-- ===== src/Store/Fields.antt =====
-- Reading and writing one field behind a pointer: `p->f` and `p->f = v`.
use perl_xml_lib_xml.Common.{ℕ, Bool, Option, if◌then◌else◌}
use perl_xml_lib_xml.Store.{Ptr, Str, NodeType, Store, update, valid}
use perl_xml_lib_xml.Store.Outcome.{Cmd, done, fault}

module _ {ℓ} {A : Type ℓ} where
  abbrev pub read : (Store → Ptr → Bool) → (Store → Ptr → A) → Ptr → Cmd A
  read alive f p h = if valid (alive h) p then done (f h p) h else fault

abbrev pub write : (Store → Ptr → Bool) → (Store → Store) → Ptr → Cmd (Unit {0})
write alive f p h = if valid (alive h) p then done tt (f h) else fault

abbrev pub get_kind : Ptr → Cmd NodeType
get_kind p = read (λ s. s.live) (λ s. s.kind) p

abbrev pub set_kind : Ptr → NodeType → Cmd (Unit {0})
set_kind p v = write (λ s. s.live) (λ s. record s { kind = update s.kind p v }) p

abbrev pub get_name : Ptr → Cmd (Option Str)
get_name p = read (λ s. s.live) (λ s. s.name) p

abbrev pub set_name : Ptr → Option Str → Cmd (Unit {0})
set_name p v = write (λ s. s.live) (λ s. record s { name = update s.name p v }) p

abbrev pub get_children : Ptr → Cmd Ptr
get_children p = read (λ s. s.live) (λ s. s.children) p

abbrev pub set_children : Ptr → Ptr → Cmd (Unit {0})
set_children p v = write (λ s. s.live) (λ s. record s { children = update s.children p v }) p

abbrev pub get_last : Ptr → Cmd Ptr
get_last p = read (λ s. s.live) (λ s. s.last) p

abbrev pub set_last : Ptr → Ptr → Cmd (Unit {0})
set_last p v = write (λ s. s.live) (λ s. record s { last = update s.last p v }) p

abbrev pub get_parent : Ptr → Cmd Ptr
get_parent p = read (λ s. s.live) (λ s. s.parent) p

abbrev pub set_parent : Ptr → Ptr → Cmd (Unit {0})
set_parent p v = write (λ s. s.live) (λ s. record s { parent = update s.parent p v }) p

abbrev pub get_next : Ptr → Cmd Ptr
get_next p = read (λ s. s.live) (λ s. s.next) p

abbrev pub set_next : Ptr → Ptr → Cmd (Unit {0})
set_next p v = write (λ s. s.live) (λ s. record s { next = update s.next p v }) p

abbrev pub get_prev : Ptr → Cmd Ptr
get_prev p = read (λ s. s.live) (λ s. s.prev) p

abbrev pub set_prev : Ptr → Ptr → Cmd (Unit {0})
set_prev p v = write (λ s. s.live) (λ s. record s { prev = update s.prev p v }) p

abbrev pub get_doc : Ptr → Cmd Ptr
get_doc p = read (λ s. s.live) (λ s. s.doc) p

abbrev pub set_doc : Ptr → Ptr → Cmd (Unit {0})
set_doc p v = write (λ s. s.live) (λ s. record s { doc = update s.doc p v }) p

abbrev pub get_ns : Ptr → Cmd Ptr
get_ns p = read (λ s. s.live) (λ s. s.ns) p

abbrev pub set_ns : Ptr → Ptr → Cmd (Unit {0})
set_ns p v = write (λ s. s.live) (λ s. record s { ns = update s.ns p v }) p

abbrev pub get_ns_def : Ptr → Cmd Ptr
get_ns_def p = read (λ s. s.live) (λ s. s.ns_def) p

abbrev pub set_ns_def : Ptr → Ptr → Cmd (Unit {0})
set_ns_def p v = write (λ s. s.live) (λ s. record s { ns_def = update s.ns_def p v }) p

abbrev pub get_properties : Ptr → Cmd Ptr
get_properties p = read (λ s. s.live) (λ s. s.properties) p

abbrev pub set_properties : Ptr → Ptr → Cmd (Unit {0})
set_properties p v = write (λ s. s.live) (λ s. record s { properties = update s.properties p v }) p

abbrev pub get_content : Ptr → Cmd (Option Str)
get_content p = read (λ s. s.live) (λ s. s.content) p

abbrev pub set_content : Ptr → Option Str → Cmd (Unit {0})
set_content p v = write (λ s. s.live) (λ s. record s { content = update s.content p v }) p

abbrev pub get_priv : Ptr → Cmd Ptr
get_priv p = read (λ s. s.live) (λ s. s.priv) p

abbrev pub set_priv : Ptr → Ptr → Cmd (Unit {0})
set_priv p v = write (λ s. s.live) (λ s. record s { priv = update s.priv p v }) p

abbrev pub get_psvi : Ptr → Cmd Ptr
get_psvi p = read (λ s. s.live) (λ s. s.psvi) p

abbrev pub set_psvi : Ptr → Ptr → Cmd (Unit {0})
set_psvi p v = write (λ s. s.live) (λ s. record s { psvi = update s.psvi p v }) p

abbrev pub get_int_subset : Ptr → Cmd Ptr
get_int_subset p = read (λ s. s.live) (λ s. s.int_subset) p

abbrev pub set_int_subset : Ptr → Ptr → Cmd (Unit {0})
set_int_subset p v = write (λ s. s.live) (λ s. record s { int_subset = update s.int_subset p v }) p

abbrev pub get_ext_subset : Ptr → Cmd Ptr
get_ext_subset p = read (λ s. s.live) (λ s. s.ext_subset) p

abbrev pub set_ext_subset : Ptr → Ptr → Cmd (Unit {0})
set_ext_subset p v = write (λ s. s.live) (λ s. record s { ext_subset = update s.ext_subset p v }) p

abbrev pub get_encoding : Ptr → Cmd (Option Str)
get_encoding p = read (λ s. s.live) (λ s. s.encoding) p

abbrev pub set_encoding : Ptr → Option Str → Cmd (Unit {0})
set_encoding p v = write (λ s. s.live) (λ s. record s { encoding = update s.encoding p v }) p

abbrev pub get_ns_next : Ptr → Cmd Ptr
get_ns_next p = read (λ s. s.ns_live) (λ s. s.ns_next) p

abbrev pub set_ns_next : Ptr → Ptr → Cmd (Unit {0})
set_ns_next p v = write (λ s. s.ns_live) (λ s. record s { ns_next = update s.ns_next p v }) p

abbrev pub get_ns_prefix : Ptr → Cmd (Option Str)
get_ns_prefix p = read (λ s. s.ns_live) (λ s. s.ns_prefix) p

abbrev pub set_ns_prefix : Ptr → Option Str → Cmd (Unit {0})
set_ns_prefix p v = write (λ s. s.ns_live) (λ s. record s { ns_prefix = update s.ns_prefix p v }) p

abbrev pub get_ns_href : Ptr → Cmd (Option Str)
get_ns_href p = read (λ s. s.ns_live) (λ s. s.ns_href) p

abbrev pub set_ns_href : Ptr → Option Str → Cmd (Unit {0})
set_ns_href p v = write (λ s. s.ns_live) (λ s. record s { ns_href = update s.ns_href p v }) p

abbrev pub get_proxy_node : Ptr → Cmd Ptr
get_proxy_node p = read (λ s. s.proxy_live) (λ s. s.proxy_node) p

abbrev pub set_proxy_node : Ptr → Ptr → Cmd (Unit {0})
set_proxy_node p v =
    write (λ s. s.proxy_live) (λ s. record s { proxy_node = update s.proxy_node p v }) p

abbrev pub get_proxy_owner : Ptr → Cmd Ptr
get_proxy_owner p = read (λ s. s.proxy_live) (λ s. s.proxy_owner) p

abbrev pub set_proxy_owner : Ptr → Ptr → Cmd (Unit {0})
set_proxy_owner p v =
    write (λ s. s.proxy_live) (λ s. record s { proxy_owner = update s.proxy_owner p v }) p

abbrev pub get_proxy_count : Ptr → Cmd ℕ
get_proxy_count p = read (λ s. s.proxy_live) (λ s. s.proxy_count) p

abbrev pub set_proxy_count : Ptr → ℕ → Cmd (Unit {0})
set_proxy_count p v =
    write (λ s. s.proxy_live) (λ s. record s { proxy_count = update s.proxy_count p v }) p

abbrev pub get_proxy_encoding : Ptr → Cmd ℕ
get_proxy_encoding p = read (λ s. s.proxy_live) (λ s. s.proxy_encoding) p

abbrev pub set_proxy_encoding : Ptr → ℕ → Cmd (Unit {0})
set_proxy_encoding p v =
    write (λ s. s.proxy_live) (λ s. record s { proxy_encoding = update s.proxy_encoding p v }) p

abbrev pub get_psvi_status : Ptr → Cmd ℕ
get_psvi_status p = read (λ s. s.proxy_live) (λ s. s.psvi_status) p

abbrev pub set_psvi_status : Ptr → ℕ → Cmd (Unit {0})
set_psvi_status p v =
    write (λ s. s.proxy_live) (λ s. record s { psvi_status = update s.psvi_status p v }) p

abbrev pub get_buf_head : Ptr → Cmd Ptr
get_buf_head p = read (λ s. s.buf_live) (λ s. s.buf_head) p

abbrev pub set_buf_head : Ptr → Ptr → Cmd (Unit {0})
set_buf_head p v = write (λ s. s.buf_live) (λ s. record s { buf_head = update s.buf_head p v }) p

abbrev pub get_buf_tail : Ptr → Cmd Ptr
get_buf_tail p = read (λ s. s.buf_live) (λ s. s.buf_tail) p

abbrev pub set_buf_tail : Ptr → Ptr → Cmd (Unit {0})
set_buf_tail p v = write (λ s. s.buf_live) (λ s. record s { buf_tail = update s.buf_tail p v }) p

abbrev pub get_chunk_next : Ptr → Cmd Ptr
get_chunk_next p = read (λ s. s.chunk_live) (λ s. s.chunk_next) p

abbrev pub set_chunk_next : Ptr → Ptr → Cmd (Unit {0})
set_chunk_next p v =
    write (λ s. s.chunk_live) (λ s. record s { chunk_next = update s.chunk_next p v }) p

abbrev pub get_chunk_text : Ptr → Cmd (Option Str)
get_chunk_text p = read (λ s. s.chunk_live) (λ s. s.chunk_text) p

abbrev pub set_chunk_text : Ptr → Option Str → Cmd (Unit {0})
set_chunk_text p v =
    write (λ s. s.chunk_live) (λ s. record s { chunk_text = update s.chunk_text p v }) p

abbrev pub get_chunk_len : Ptr → Cmd ℕ
get_chunk_len p = read (λ s. s.chunk_live) (λ s. s.chunk_len) p

abbrev pub set_chunk_len : Ptr → ℕ → Cmd (Unit {0})
set_chunk_len p v =
    write (λ s. s.chunk_live) (λ s. record s { chunk_len = update s.chunk_len p v }) p
