-- ===== src/Options/Charset.antt =====
-- CHARSET (src/options/charset/server.cpp).
use telnetpp.Prelude.{
  ℕ, ◌≡◌, ◌≢◌, refl, sym, ◌∙◌, ap, false, List, [], ◌∷◌, ◌++◌, ◌==◌, ==_iff, if◌then◌else◌,
  is_empty, Bytes, concat, Option, none, some, append-nil, append_assoc, Bool-cases, inl, inr,
  concat-append, subst,
}

abbrev pub request : ℕ
request = 1

abbrev pub accepted : ℕ
accepted = 2

-- The content that `request_charsets` writes: REQUEST and ';'.
abbrev pub request_charsets : Bytes
request_charsets = request ∷ b';' ∷ []

-- The content that `select_charset` writes.
unfoldable pub select_charset : Bytes → Bytes
select_charset charset = accepted ∷ charset

-- `if (!charset.empty()) advertised_charsets.push_back(charset)`.
abbrev pub push_charset : Bytes → List Bytes → List Bytes
push_charset charset advertised =
    if is_empty charset then advertised else advertised ++ charset ∷ []

-- The loop over the bytes behind the separator, and the last charset.
unfoldable pub split_charsets : ℕ → Bytes → Bytes → List Bytes → List Bytes
split_charsets separator [] charset advertised = push_charset charset advertised
split_charsets separator (by ∷ bs) charset advertised =
    if by == separator
    then split_charsets separator bs [] (push_charset charset advertised)
    else split_charsets separator bs (charset ++ by ∷ []) advertised

abbrev signal : List Bytes → Option (List Bytes)
signal [] = none
signal (c ∷ cs) = some (c ∷ cs)

-- What is signalled as advertised, if anything.
unfoldable pub handle_subnegotiation : Bytes → Option (List Bytes)
unfolding split_charsets
handle_subnegotiation (first ∷ separator ∷ bs) =
    if first == request then signal (split_charsets separator bs [] []) else none
handle_subnegotiation _ = none

-- The bytes that are no separators.
abbrev pub without : ℕ → Bytes → Bytes
without separator [] = []
without separator (by ∷ bs) =
    if by == separator then without separator bs else by ∷ without separator bs

abbrev pub IsFree : ℕ → Bytes → Type 0
IsFree separator [] = Unit
IsFree separator (by ∷ c) = ((by == separator) ≡ false) × IsFree separator c

-- A charset's name.
abbrev pub IsCharset : ℕ → Bytes → Type 0
IsCharset separator c = (c ≢ []) × IsFree separator c

abbrev pub AllCharsets : ℕ → List Bytes → Type 0
AllCharsets separator [] = Unit
AllCharsets separator (c ∷ cs) = IsCharset separator c × AllCharsets separator cs

-- Charsets with a separator between each two.
abbrev pub joined : ℕ → List Bytes → Bytes
joined separator [] = []
joined separator (c ∷ []) = c
joined separator (c ∷ d ∷ cs) = c ++ (separator ∷ joined separator (d ∷ cs))

AllCharsets-push_charset :
    (separator : ℕ) (c : Bytes) (cs : List Bytes)
    → IsFree separator c
    → AllCharsets separator cs
    → AllCharsets separator (push_charset c cs)
AllCharsets-push_charset separator [] cs h a = a
AllCharsets-push_charset separator (x ∷ c) [] h a = ((λ e. cc e, h), tt)
AllCharsets-push_charset separator (x ∷ c) (d ∷ cs) h a =
    (a.0, AllCharsets-push_charset separator (x ∷ c) cs h a.1)

concat-push_charset : (c : Bytes) (cs : List Bytes) → concat (push_charset c cs) ≡ concat cs ++ c
concat-push_charset [] cs = sym (append-nil (concat cs))
concat-push_charset (x ∷ c) cs = concat-append cs ((x ∷ c) ∷ []) ∙ rw append-nil

IsFree-concat :
    (separator by : ℕ) (c : Bytes)
    → IsFree separator c
    → (by == separator) ≡ false
    → IsFree separator (c ++ by ∷ [])
IsFree-concat separator by [] h e = (e, tt)
IsFree-concat separator by (x ∷ c) h e = (h.0, IsFree-concat separator by c h.1 e)

split_charsets_sound :
    (separator : ℕ) (bs c : Bytes) (cs : List Bytes)
    → IsFree separator c
    → AllCharsets separator cs
    → AllCharsets separator (split_charsets separator bs c cs)
      × (concat (split_charsets separator bs c cs) ≡ concat cs ++ (c ++ without separator bs))
unfolding split_charsets
split_charsets_sound separator [] c cs h a = (
  AllCharsets-push_charset separator c cs h a,
  concat-push_charset c cs ∙ ap (◌++◌ (concat cs)) (sym (append-nil c)),
)
split_charsets_sound separator (by ∷ bs) c cs h a = elim (Bool-cases (by == separator)) [
  | inl e ↦
      let later =
        split_charsets_sound separator bs [] (push_charset c cs) tt
          (AllCharsets-push_charset separator c cs h a) in
      rw e (
        later.0,
        later.1 ∙ rw (concat-push_charset c cs) (append_assoc (concat cs) c (without separator bs)),
      )
  | inr e ↦
      let kept = IsFree-concat separator by c h e in
      let later = split_charsets_sound separator bs (c ++ by ∷ []) cs kept a in
      rw e
        (later.0, later.1 ∙ ap (◌++◌ (concat cs)) (append_assoc c (by ∷ []) (without separator bs)))
]

-- What a request advertises, if anything, is charsets that are not empty and hold no separator, and
-- together they are all the bytes behind the separator that are none.
handle_subnegotiation_sound :
    (separator : ℕ) (bs : Bytes) (advertised : List Bytes)
    → handle_subnegotiation (request ∷ separator ∷ bs) ≡ some advertised
    → (advertised ≢ [])
      × AllCharsets separator advertised
      × (concat advertised ≡ without separator bs)
unfolding handle_subnegotiation
handle_subnegotiation_sound separator bs advertised e =
    signalled (split_charsets separator bs [] []) (split_charsets_sound separator bs [] [] tt tt) e
  where
    signalled :
        (cs : List Bytes)
        → AllCharsets separator cs × (concat cs ≡ without separator bs)
        → signal cs ≡ some advertised
        → (advertised ≢ [])
          × AllCharsets separator advertised
          × (concat advertised ≡ without separator bs)
    signalled [] h s = cc
    signalled (c ∷ cs) h s =
        let same : c ∷ cs ≡ advertised = cc in
        ((λ n. cc (same ∙ n)), subst (AllCharsets separator) same h.0, ap concat (sym same) ∙ h.1)

split_charsets-separator :
    (separator : ℕ) (bs c : Bytes) (cs : List Bytes)
    → split_charsets separator (separator ∷ bs) c cs
      ≡ split_charsets separator bs [] (push_charset c cs)
unfolding split_charsets
split_charsets-separator separator bs c cs =
    ap
      (λ t.
        if t
        then split_charsets separator bs [] (push_charset c cs)
        else split_charsets separator bs (c ++ separator ∷ []) cs)
      ((==_iff separator separator).1 refl)

split_charsets-word :
    (separator : ℕ) (c bs d : Bytes) (cs : List Bytes)
    → IsFree separator c
    → split_charsets separator (c ++ bs) d cs ≡ split_charsets separator bs (d ++ c) cs
unfolding split_charsets
split_charsets-word separator [] bs d cs h =
    ap (λ z. split_charsets separator bs z cs) (sym (append-nil d))
split_charsets-word separator (x ∷ c) bs d cs h = rw h.0 (
    split_charsets-word separator c bs (d ++ x ∷ []) cs h.1
    ∙ ap (λ z. split_charsets separator bs z cs) (append_assoc d (x ∷ []) c))

push_charset-charset : (c : Bytes) (cs : List Bytes) → c ≢ [] → push_charset c cs ≡ cs ++ c ∷ []
push_charset-charset [] cs h = absurd (h refl)
push_charset-charset (x ∷ c) cs h = refl

split_charsets-joined :
    (separator : ℕ) (cs done : List Bytes)
    → AllCharsets separator cs
    → split_charsets separator (joined separator cs) [] done ≡ done ++ cs
unfolding split_charsets
split_charsets-joined separator [] done h = sym (append-nil done)
split_charsets-joined separator (c ∷ []) done h =
    ap (λ z. split_charsets separator z [] done) (sym (append-nil c))
    ∙ split_charsets-word separator c [] [] done h.0.1
    ∙ push_charset-charset c done h.0.0
split_charsets-joined separator (c ∷ d ∷ cs) done h =
    split_charsets-word separator c (separator ∷ joined separator (d ∷ cs)) [] done h.0.1
    ∙ split_charsets-separator separator (joined separator (d ∷ cs)) c done
    ∙ ap (split_charsets separator (joined separator (d ∷ cs)) [])
        (push_charset-charset c done h.0.0)
    ∙ split_charsets-joined separator (d ∷ cs) (done ++ c ∷ []) h.1
    ∙ append_assoc done (c ∷ []) (d ∷ cs)

-- One or more charsets, none of them empty and none with the separator in it, that are requested with
-- a separator between each two, are advertised as they were requested, whatever byte separates
-- them.
pub handle_subnegotiation-joined :
    (separator : ℕ) (c : Bytes) (cs : List Bytes)
    → AllCharsets separator (c ∷ cs)
    → handle_subnegotiation (request ∷ separator ∷ joined separator (c ∷ cs)) ≡ some (c ∷ cs)
unfolding handle_subnegotiation
handle_subnegotiation-joined separator c cs h = rw (split_charsets-joined separator (c ∷ cs) [] h)
