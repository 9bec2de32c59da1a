-- ===== src/Homework.antt =====
-- homework-1-FreezeKickerz: its small programs, each in a module of its own.
pub mod IntList
pub mod Integers
pub mod Kobject
