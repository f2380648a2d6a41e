-- ===== src/Xs.antt =====
-- The methods of XML::LibXML::Node that move nodes (LibXML.xs). They call the DOM operations and then have
-- the owners of proxies fixed. The typemap has made nodes of the arguments, and `none` is undef.
pub mod Kept
pub mod Insert
pub mod Add
pub mod Remove
pub mod Inserted
pub mod Moved
