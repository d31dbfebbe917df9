-- ===== src/Options.antt =====
-- The options' own protocols (include/telnetpp/options, src/options).
pub mod NewEnviron
pub mod Msdp
pub mod Basic
pub mod Naws
pub mod Charset
pub mod Mccp
pub mod TerminalType
