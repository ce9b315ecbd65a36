-- ===== src/Tests.antt =====
-- Runs of the models and instances of their properties at concrete inputs.
mod Addresses
mod Relocations
mod Symbols
mod Sections
mod Splits
mod Info
mod Split
mod Padding
mod LinkOrder
mod Executor
mod Vm
mod Archives
mod Comment
mod Rel
