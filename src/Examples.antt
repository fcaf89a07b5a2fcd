-- ===== src/Examples.antt =====
-- Runs on concrete inputs, and the theorems at concrete inputs.
mod Reading
mod Creating
mod Splitting
mod Seeding
mod Repeating
mod Table
mod Wire
mod Marshalling
mod MarshallingRsa
