-- ===== src/Edit.antt =====
-- The edit instructions of src/autoslice/edit_instruction.py and how
-- src/autoslice/edit_instruction_builder.py makes them.
pub mod Json
pub mod Instruction
pub mod RoundTrip
pub mod Build
pub mod Fits
