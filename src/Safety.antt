-- ===== src/Safety.antt =====
-- No response and no timeout reaches a freed cell: every operation of the library keeps the table of
-- handlers and the cells in agreement. One module for each layer of the calls.
pub mod Cells
pub mod Destructors
pub mod Calls
pub mod Updates
pub mod Messages
pub mod Processes
