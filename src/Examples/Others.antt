-- ===== src/Examples/Others.antt =====
-- Examples for CHARSET and MCCP.
use telnetpp.Prelude.{◌≡◌, refl, List, [], ◌∷◌, Bytes, some}
use telnetpp.Options.Charset
use telnetpp.Options.Charset.{request, joined, without, AllCharsets, handle_subnegotiation-joined}
use telnetpp.Options.Mccp.Compression.{
  Inv, run, new_server, run-new_server-Inv, activates, starts, negotiates,
}

abbrev names : List Bytes
names = (b'A' ∷ b'B' ∷ []) ∷ (b'C' ∷ []) ∷ []

names-AllCharsets : AllCharsets b';' names
names-AllCharsets = (((λ e. cc e), (refl, (refl, tt))), (((λ e. cc e), (refl, tt)), tt))

handle_subnegotiation-joined_example :
    Charset.handle_subnegotiation (request ∷ b';' ∷ joined b';' names) ≡ some names
handle_subnegotiation-joined_example =
    handle_subnegotiation-joined b';' (b'A' ∷ b'B' ∷ []) ((b'C' ∷ []) ∷ []) names-AllCharsets

abbrev advertised : List Bytes
advertised = (b'A' ∷ []) ∷ (b'B' ∷ []) ∷ []

abbrev two_separators : Bytes
two_separators = b';' ∷ b'A' ∷ b';' ∷ b';' ∷ b'B' ∷ []

run-new_server-Inv_example :
    Inv (run (9 ∷ []) (activates ∷ negotiates 253 ∷ starts ∷ []) new_server)
run-new_server-Inv_example = run-new_server-Inv (9 ∷ []) (activates ∷ negotiates 253 ∷ starts ∷ [])
