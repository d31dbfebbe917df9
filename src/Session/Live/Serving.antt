-- ===== src/Session/Live/Serving.antt =====
-- A session (src/session.cpp) on which handlers of commands, and the application when it is given text,
-- install others while a chunk is read.
use telnetpp.Prelude.{
  ℕ, ◌≡◌, refl, ap, ◌∙◌, List, [], ◌∷◌, ◌++◌, Bytes, Option, none, some, or_else, ◌==◌,
  if◌then◌else◌, Bool-cases, inl, inr,
}
use telnetpp.Element.{
  Element, text, negotiation, subnegotiation, command, Command, Negotiation, Subnegotiation,
}
use telnetpp.Parser.{Parser, parse}
use telnetpp.Parser.Live.{returned}
use telnetpp.Parser.Live.Batch.{act_all}
use telnetpp.Router.{Router, negotiation_key, handler, byte_key, register_route}
use telnetpp.Router.Laws.{find-assign}
use telnetpp.TelnetOption.{TelnetOption}
use telnetpp.Session.{Channel}
use telnetpp.Session.Registration.{handled}
use telnetpp.Session.Live.{
  Routed, Program, NamedInstall, command_handler, client_option, server_option, NegotiationHandler,
  refuses, negotiates, run_command, run_negotiation, run_subnegotiation, live_token_handler,
  live_receive, live_install, live_register_option, live_installed,
}
use telnetpp.Session.Live.Lifted.{lifted}
use telnetpp.Session.Live.Named.{static_program, named_all, lifted-live_installed}
use telnetpp.Session.Live.Static.{live_token_handler-handled}
use telnetpp.Session.Live.Reading.{live_receive-parse}

handler-register_route :
    {N : Type 0} (c cmd : ℕ) (n : N) (r : Router ℕ N)
    → handler (register_route c n r) cmd ≡ (if c == cmd then some n else handler r cmd)
unfolding handler register_route
handler-register_route c cmd n r =
    ap (λ x. or_else x r.unregistered_route) (find-assign c cmd n r.registered_functions)
    ∙ elim (Bool-cases (c == cmd)) [ inl e ↦ rw e refl | inr e ↦ rw e refl ]

module _ {N A : Type 0} (channel : Channel A) (function_of : N → Command → A → A)
    (option_of : N → TelnetOption A) (installs_of : N → Command → List (NamedInstall N))
    (callback : Bytes → A → A) (asks : Bytes → List (NamedInstall N)) where
  abbrev plain : Program N A
  plain = static_program channel function_of option_of

  -- The calls of `install`, the latest first.
  abbrev install_all : List (NamedInstall N) → Routed N A → Routed N A
  install_all [] s = s
  install_all (i ∷ older) s = live_install plain i (install_all older s)

  -- What the handler of a command does, and then installs.
  abbrev pub serving_program : Program N A
  serving_program = record plain {
    command_function = λ n cmd s. install_all (installs_of n cmd) (lifted (function_of n cmd) s);
  }

  -- What the application does with text, and then installs.
  abbrev pub serving_callback : Bytes → Routed N A → Routed N A
  serving_callback bs s = install_all (asks bs) (lifted (callback bs) s)

  -- The latest handler installed for a command.
  abbrev pub command_name : List (NamedInstall N) → ℕ → Option N
  command_name [] cmd = none
  command_name (command_handler c n ∷ older) cmd =
      if c == cmd then some n else command_name older cmd
  command_name (client_option n ∷ older) cmd = command_name older cmd
  command_name (server_option n ∷ older) cmd = command_name older cmd

  abbrev pub commanded : Option N → Command → List (NamedInstall N) × A → List (NamedInstall N) × A
  commanded none cmd x = x
  commanded (some n) cmd (is, a) = (installs_of n cmd ++ is, function_of n cmd a)

  -- What has been installed, the latest first, and all else, behind one element.
  abbrev pub serve : Element → List (NamedInstall N) × A → List (NamedInstall N) × A
  serve (text bs) (is, a) = (asks bs ++ is, callback bs a)
  serve (command cmd) (is, a) = commanded (command_name is cmd.value) cmd (is, a)
  serve (negotiation n) (is, a) =
      (is, handled channel (named_all channel function_of option_of is) callback (negotiation n) a)
  serve (subnegotiation s) (is, a) = (
    is,
    handled channel (named_all channel function_of option_of is) callback (subnegotiation s) a,
  )

  abbrev pub serve_all : List Element → List (NamedInstall N) × A → List (NamedInstall N) × A
  serve_all [] x = x
  serve_all (e ∷ es) x = serve_all es (serve e x)

  -- The session with these.
  abbrev pub session_of : List (NamedInstall N) × A → Routed N A
  session_of (is, a) = live_installed plain is a

  install_all-installed :
      (js is : List (NamedInstall N)) (a : A)
      → install_all js (live_installed plain is a) ≡ live_installed plain (js ++ is) a
  unfolding live_installed
  install_all-installed [] is a = refl
  install_all-installed (j ∷ js) is a = ap (live_install plain j) (install_all-installed js is a)

  install_all-lifted :
      (js : List (NamedInstall N)) (f : A → A) (is : List (NamedInstall N)) (a : A)
      → install_all js (lifted f (live_installed plain is a))
        ≡ live_installed plain (js ++ is) (f a)
  install_all-lifted js f is a =
      ap (install_all js) (lifted-live_installed channel function_of option_of f is a)
      ∙ install_all-installed js is (f a)

  handler-command_name :
      (is : List (NamedInstall N)) (a : A) (cmd : ℕ)
      → handler (live_installed plain is a).command_router cmd ≡ command_name is cmd
  unfolding live_installed live_install live_register_option handler register_route
  handler-command_name [] a cmd = refl
  handler-command_name (command_handler c n ∷ is) a cmd =
      handler-register_route c cmd n (live_installed plain is a).command_router
      ∙ ap (λ x. if c == cmd then some n else x) (handler-command_name is a cmd)
  handler-command_name (client_option n ∷ is) a cmd = handler-command_name is a cmd
  handler-command_name (server_option n ∷ is) a cmd = handler-command_name is a cmd

  run_command-commanded :
      (h : Option N) (cmd : Command) (is : List (NamedInstall N)) (a : A)
      → run_command serving_program h cmd (live_installed plain is a)
        ≡ session_of (commanded h cmd (is, a))
  run_command-commanded none cmd is a = refl
  run_command-commanded (some n) cmd is a =
      install_all-lifted (installs_of n cmd) (function_of n cmd) is a

  run_negotiation-plain :
      (h : Option (NegotiationHandler N)) (n : Negotiation) (s : Routed N A)
      → run_negotiation serving_program h n s ≡ run_negotiation plain h n s
  run_negotiation-plain none n s = refl
  run_negotiation-plain (some refuses) n s = refl
  run_negotiation-plain (some (negotiates m request)) n s = refl

  run_subnegotiation-plain :
      (h : Option N) (sub : Subnegotiation) (s : Routed N A)
      → run_subnegotiation serving_program h sub s ≡ run_subnegotiation plain h sub s
  run_subnegotiation-plain none sub s = refl
  run_subnegotiation-plain (some m) sub s = refl

  live_token_handler-serve :
      (e : Element) (is : List (NamedInstall N)) (a : A)
      → live_token_handler serving_program serving_callback e (live_installed plain is a)
        ≡ session_of (serve e (is, a))
  unfolding live_token_handler
  live_token_handler-serve (text bs) is a = install_all-lifted (asks bs) (callback bs) is a
  live_token_handler-serve (command cmd) is a =
      ap (λ h. run_command serving_program h cmd (live_installed plain is a))
        (handler-command_name is a cmd.value)
      ∙ run_command-commanded (command_name is cmd.value) cmd is a
  live_token_handler-serve (negotiation n) is a =
      run_negotiation-plain (handler (live_installed plain is a).negotiation_router n) n
        (live_installed plain is a)
      ∙ live_token_handler-handled channel function_of option_of is callback (negotiation n) a
  live_token_handler-serve (subnegotiation s) is a =
      run_subnegotiation-plain (handler (live_installed plain is a).subnegotiation_router s.option)
        s (live_installed plain is a)
      ∙ live_token_handler-handled channel function_of option_of is callback (subnegotiation s) a

  act_all-serve_all :
      (es : List Element) (is : List (NamedInstall N)) (a : A)
      → act_all (live_token_handler serving_program serving_callback) es (live_installed plain is a)
        ≡ session_of (serve_all es (is, a))
  act_all-serve_all [] is a = refl
  act_all-serve_all (e ∷ es) is a =
      ap (act_all (live_token_handler serving_program serving_callback) es)
        (live_token_handler-serve e is a)
      ∙ act_all-serve_all es (serve e (is, a)).0 (serve e (is, a)).1

  -- A session on which any commands and options have been installed, its parser in any state, reads
  -- any bytes; when a command's handler is called, and when the application is given text, they may
  -- install more. The parser is left as reading the bytes leaves it. Each element that it reads
  -- in them has gone, in order, to the latest of what was installed for it when it was its
  -- turn, and has been refused or dropped where there was nothing; a call with no data has followed;
  -- and the session is one on which all that was installed at first and on the way has been
  -- installed, in that order.
  pub live_receive-serve_all :
      (content : Bytes) (p : Parser) (is : List (NamedInstall N)) (a : A)
      → live_receive serving_program serving_callback content
          (record { parser = p; rest = session_of (is, a) })
        ≡ returned (record {
          parser = (parse content p).0;
          rest = session_of (serve (text []) (serve_all (parse content p).1 (is, a)));
        })
  live_receive-serve_all content p is a =
      let q = (parse content p).0 in
      let served = serve_all (parse content p).1 (is, a) in
      live_receive-parse serving_program serving_callback content p (live_installed plain is a)
      ∙ ap (λ s. returned (record { parser = q; rest = serving_callback [] s }))
          (act_all-serve_all (parse content p).1 is a)
      ∙ ap (λ s. returned (record { parser = q; rest = s }))
          (install_all-lifted (asks []) (callback []) served.0 served.1)
