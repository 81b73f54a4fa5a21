-- ===== src/Passes.antt =====
-- The compiler passes, shadow_stack_x86/ and shadow_stack/.
pub mod X86
pub mod Masks
