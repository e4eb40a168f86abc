-- ===== src/Parser.antt =====
-- src/parser.c.
pub mod Tables
pub mod Lookup
pub mod Chart
pub mod Buffer
pub mod Machine
pub mod Safe
pub mod Shapes
pub mod Outline
pub mod Grammar
