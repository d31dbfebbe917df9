-- ===== src/Element/Range.antt =====
-- Bytes are 8 bits wide (`telnetpp::byte`, include/telnetpp/core.hpp).
use telnetpp.Prelude.{◌<◌, [], ◌∷◌, Bytes}

abbrev pub AllBytes : Bytes → Type 0
AllBytes [] = Unit
AllBytes (by ∷ bs) = (by < 256) × AllBytes bs
