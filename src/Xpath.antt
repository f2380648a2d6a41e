-- ===== src/Xpath.antt =====
-- XPath (xpath.c), as built with libxml2 2.6.27 or later.
pub mod Engine
pub mod Find
pub mod Document
pub mod Restored
