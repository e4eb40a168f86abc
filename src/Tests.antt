-- ===== src/Tests.antt =====
-- The program on concrete inputs, and the theorems at them.
mod Parsing
mod Chains
mod Aliasing
mod Queueing
mod Building
mod Linking
mod Running
mod Refusing
mod Ordering
mod Sessions
mod Popping
mod Sequencing
mod Pipelining
mod Redirecting
mod Inside
