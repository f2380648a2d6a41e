-- ===== src/Lib.antt =====
-- XML::LibXML is the Perl binding of the XML library libxml2. Its C code has, on top of libxml2's node
-- trees, a DOM layer (dom.c), proxy structures that tie Perl values to nodes and decide when a tree is
-- freed (perl-libxml-mm.c, perl-libxml-mm.h), conversions of strings between Perl and the encoding of
-- a document (also there), SAX handlers with a character buffer and a stack of namespaces
-- (perl-libxml-sax.c), XPath queries (xpath.c), and arrays of strings (Av_CharPtrPtr.c). The XS glue
-- (LibXML.xs) calls the DOM operations on nodes that it gets from the proxies, wraps their results,
-- and then has the proxies' owners fixed. With interpreter threads, a registry has an entry for each
-- proxy that Perl refers to. While a document is parsed for SAX, libxml2 calls the functions of a
-- table, which call methods of a Perl object; the state between the calls hangs at the parser context,
-- for which there is a proxy too.
--
-- The model is written from that C code. Functions keep their names, in lower case with underscores:
-- domAppendChild is `dom_append_child`, PmmREFCNT_dec is `pmm_refcnt_dec`, CBufferAppend is
-- `cbuffer_append`. A loop, or a part of a long function that is of interest by itself, is a function
-- of its own.
--
--   Common           shared names, Boolean tests on numbers, lists of addresses
--   Store            the memory: one function of addresses for each field of a node, a namespace
--                    declaration, a proxy or a chunk; Outcome: commands, which return, leave by
--                    croak, follow a bad pointer or run out of fuel; Fields: `p->f` and `p->f = v`;
--                    Kinds: tests of node kinds; Returns: total correctness
--   Libxml, Perl     the functions of libxml2 and of Perl that the code calls, as parameters
--   Hash             the hashes and the method calls that Perl handlers get
--   Dom.NsDef        dom.c: domAddNsDef, domRemoveNsDef, _domAddNsChain; Declared, Removed: the
--                    declarations as a list
--   Dom.Reconcile    dom.c: _domReconcileNsAttr, _domReconcileNs, domReconcileNs; Holder, Reconciled:
--                    what is done about one namespace; Plain: trees without namespaces
--   Dom.Links        dom.c: domAddNodeToList, domUnlinkNode, domImportNode; Chains: what a
--                    well-formed child list is; Unlink, Splice, Insert, Swap, Fragment, Frames: the
--                    lemmas on it
--   Dom.Hierarchy    dom.c: domIsParent, domTestHierarchy, domTestDocument
--   Dom.Edit         dom.c: domAppendChild, domRemoveChild, domReplaceChild, domInsertBefore,
--                    domInsertAfter, domReplaceNode; Append, Inserted, Before, Replace, OnlyChild,
--                    Refuse: what these do
--   Dom.Values       dom.c: domReadWellBalancedString, domName, domGetNodeValue, domSetNodeValue,
--                    domGetElementsByTagName(NS), domNewNs, domGetAttrNode, domSetAttributeNode,
--                    domAttrSerializeContent; Found, Queries: the queries by name as filters
--   Dom.Traverse     dom.c: domClearPSVI(InList), domNodeNormalize(List), domRemoveNsRefs; NsRefs:
--                    the walk over a whole subtree
--   Proxy            perl-libxml-mm.c: Node (PmmNodeTypeName, PmmNewNode, PmmNewFragment,
--                    PmmFreeNode, PmmREFCNT_dec), Sv (PmmNodeToSv, PmmCloneNode, PmmSvNodeExt,
--                    PmmSvOwner, PmmSetSvOwner), Owner (PmmFixOwner, PmmFixOwnerList,
--                    PmmFixOwnerNode), Count (the arithmetic of a C int); Counting, LastReference,
--                    Lifetime, Unwrapping: what these promise; Owner's Walk (subtrees with proxies),
--                    Moved (owners and counts as functions), Fixed: what PmmFixOwner does to a
--                    subtree; Context (PmmNewContext, PmmContextREFCNT_dec, PmmContextSv,
--                    PmmSvContext); ContextFreed: what these free
--   Registry         perl-libxml-mm.c: Name (PmmRegistryName), Local (PmmRegisterProxyNode to
--                    PmmProxyNodeRegistrySize), Table (the hash table of libxml2), Threaded
--                    (PmmNodeToSv and the method DESTROY with threads); Entries, Counts: the registry
--                    as a count for each proxy; Restored: wrapping and destroying
--   Strings          perl-libxml-mm.c: Convert (PmmFastEncodeString, PmmFastDecodeString,
--                    PmmEncodeString, C2Sv, Sv2C), Node (nodeC2Sv, nodeSv2C), Scalar (Perl scalars);
--                    NoNul, OverRead, RoundTrip: what is converted and what memory is read
--   Sax.Buffer       perl-libxml-sax.c: the CBuffer functions; Texts, Growth, Purge, Same: a buffer
--                    as the list of its texts
--   Sax              perl-libxml-sax.c: Values, Attributes (the PmmGen functions), NsStack (the
--                    namespace stack), Context (PmmSAXInitContext, PmmSAXCloseContext,
--                    PmmUpdateLocator), Characters (PSaxCharacters, PSaxCharactersFlush,
--                    PSaxCharactersDispatch), Events (the other PSax functions, and PSaxGetHandler as
--                    what each event runs), Errors (PmmSaxWarning, PmmSaxError, PmmSaxFatalError);
--                    State, Flush, Order, Run: joined character data; Narrow, Balance: the namespace
--                    stack; Closed: what closing a context frees
--   Xpath            xpath.c: Find (domXPathFind to domXPathSelectCtxt), Document
--                    (perlDocumentFunction), Engine (libxml2's XPath, as a parameter); Restored: a
--                    tree without a document
--   Arrays           Av_CharPtrPtr.c: CharPtrPtr; Copied: what is copied and given back
--   Xs               LibXML.xs: Kept (what the methods share: LibXML_set_int_subset and
--                    LibXML_reparent_removed_node), Insert (insertBefore, insertAfter, appendChild,
--                    replaceChild, replaceNode), Add (addChild, addSibling), Remove (removeChild,
--                    removeChildNodes, unbindNode, DESTROY); Inserted, Moved: insertBefore on a node
--                    from another parent
--   Examples         concrete stores, and the theorems applied to them
--
-- A pointer is a number, NULL is 0, and following NULL or freed memory is a fault, which a theorem
-- about what a function returns rules out. A loop has fuel, and a theorem that a function returns says
-- how much is enough: more than the length of the list or the path, or twice the size of the subtree.
-- One fuel is handed to all loops of an operation. A reference count is a 32-bit pattern with
-- wrap-around, and a size_t has 64 bits.
--
-- Nothing is assumed about libxml2 and Perl except where a theorem names it: that xmlMalloc hands out
-- a block that was not in use, that xmlFree takes back one block, that a hash table keeps its entries,
-- that a node set keeps its nodes in order, that a converter undoes what it did, that a handler's
-- method records its call and does not die. Texts are values: their allocation, failure of it, and
-- freeing them are left out, but for the size of the block that CBufferCharacters fills. The document
-- of a document node is itself, as libxml2 sets it. The proxies are those of a build without
-- interpreter threads, except in Registry.Threaded, and the locking that goes with the registry does
-- nothing.
--
-- Not modelled: PmmFreeHashTable, PmmDumpRegistry and PmmProxyNodeRegistryPtr, which only warn, croak
-- or hand on; PmmSAXInitialize, which computes hash values for Perl; the other methods of the XS glue,
-- which hand their work to this code, to libxml2 or to Perl; GDOME support; the Perl modules;
-- ppport.h, which is generated. Warnings for debugging (xs_warn) do nothing.
pub mod Common
pub mod Hash
pub mod Store
pub mod Libxml
pub mod Perl
pub mod Dom
pub mod Proxy
pub mod Registry
pub mod Strings
pub mod Sax
pub mod Xpath
pub mod Arrays
pub mod Xs
pub mod Examples
