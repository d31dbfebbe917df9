-- ===== src/Core.antt =====
-- The protocol's byte values (include/telnetpp/core.hpp).
use telnetpp.Prelude.{ℕ, Bool, ◌||◌, ◌==◌}

abbrev pub se : ℕ
se = 240

abbrev pub nop : ℕ
nop = 241

abbrev pub dm : ℕ
dm = 242

abbrev pub brk : ℕ
brk = 243

abbrev pub ip : ℕ
ip = 244

abbrev pub ao : ℕ
ao = 245

abbrev pub ayt : ℕ
ayt = 246

abbrev pub ec : ℕ
ec = 247

abbrev pub el : ℕ
el = 248

abbrev pub ga : ℕ
ga = 249

abbrev pub sb : ℕ
sb = 250

abbrev pub will : ℕ
will = 251

abbrev pub wont : ℕ
wont = 252

abbrev pub do_ : ℕ
do_ = 253

abbrev pub dont : ℕ
dont = 254

abbrev pub iac : ℕ
iac = 255

-- The four requests of a negotiation.
abbrev pub is_request : ℕ → Bool
is_request by = by == will || by == wont || by == do_ || by == dont
