-- ===== src/Session/Registration.antt =====
-- The handlers of a session (src/session.cpp, src/detail/registration.cpp) after installations.
use telnetpp.Prelude.{
  ℕ, ◌≡◌, refl, Bool, ◌&&◌, ◌||◌, List, [], ◌∷◌, Option, none, some, or_else, ◌==◌, if◌then◌else◌,
  arith, Bytes,
}
use telnetpp.Element.{
  Element, text, negotiation, subnegotiation, command, Command, Negotiation, Subnegotiation,
  negotiation_equal,
}
use telnetpp.Router.{route, runs, byte_key, negotiation_key}
use telnetpp.Router.Laws.{
  Change, registers, sets_unregistered, changed, latest, latest_default, handler-changed,
}
use telnetpp.TelnetOption.{
  TelnetOption, Polarity, client_polarity, server_polarity, negotiate, subnegotiate,
}
use telnetpp.Session.{
  Channel, refuse, token_handler, Install, command_handler, client_option, server_option, installed,
}

module _ {W : Type 0} where
  -- The option that a negotiation is for: a client option takes WILL and WONT, a server option DO
  -- and DONT, and the latest installed counts.
  abbrev takes : Polarity → TelnetOption W → Negotiation → Bool
  takes polarity o n =
      o.option_code == n.option_code
      && (n.request == polarity.remote_positive || n.request == polarity.remote_negative)

  abbrev pub negotiation_target : List (Install W) → Negotiation → Option (TelnetOption W)
  negotiation_target [] n = none
  negotiation_target (command_handler c f ∷ older) n = negotiation_target older n
  negotiation_target (client_option o ∷ older) n =
      if takes client_polarity o n then some o else negotiation_target older n
  negotiation_target (server_option o ∷ older) n =
      if takes server_polarity o n then some o else negotiation_target older n

  -- The option that a subnegotiation is for: the latest installed with its code, on either side.
  abbrev pub subnegotiation_target : List (Install W) → ℕ → Option (TelnetOption W)
  subnegotiation_target [] code = none
  subnegotiation_target (command_handler c f ∷ older) code = subnegotiation_target older code
  subnegotiation_target (client_option o ∷ older) code =
      if o.option_code == code then some o else subnegotiation_target older code
  subnegotiation_target (server_option o ∷ older) code =
      if o.option_code == code then some o else subnegotiation_target older code

  abbrev pub command_target : List (Install W) → ℕ → Option (Command → W → W)
  command_target [] cmd = none
  command_target (command_handler c f ∷ older) cmd =
      if c == cmd then some f else command_target older cmd
  command_target (client_option o ∷ older) cmd = command_target older cmd
  command_target (server_option o ∷ older) cmd = command_target older cmd

  -- What is then done.
  abbrev pub negotiates : Channel W → Option (TelnetOption W) → Negotiation → W → W
  negotiates channel (some o) n = negotiate o n.request
  negotiates channel none n = refuse channel n

  abbrev pub subnegotiates : Option (TelnetOption W) → Subnegotiation → W → W
  subnegotiates (some o) sub = subnegotiate o sub.content
  subnegotiates none sub = λ w. w

  abbrev pub commands : Option (Command → W → W) → Command → W → W
  commands (some f) cmd = f cmd
  commands none cmd = λ w. w

  -- The routers' histories.
  abbrev registration :
      Polarity
      → TelnetOption W
      → List (Change Negotiation (Negotiation → W → W))
      → List (Change Negotiation (Negotiation → W → W))
  registration polarity o older =
      registers (record { request = polarity.remote_negative; option_code = o.option_code })
        (λ _. negotiate o polarity.remote_negative)
      ∷ registers (record { request = polarity.remote_positive; option_code = o.option_code })
          (λ _. negotiate o polarity.remote_positive)
      ∷ older

  abbrev negotiation_changes :
      Channel W → List (Install W) → List (Change Negotiation (Negotiation → W → W))
  negotiation_changes channel [] = sets_unregistered (refuse channel) ∷ []
  negotiation_changes channel (command_handler c f ∷ older) = negotiation_changes channel older
  negotiation_changes channel (client_option o ∷ older) =
      registration client_polarity o (negotiation_changes channel older)
  negotiation_changes channel (server_option o ∷ older) =
      registration server_polarity o (negotiation_changes channel older)

  negotiation_router-installed :
      (channel : Channel W) (is : List (Install W))
      → (installed channel is).negotiation_router ≡ changed (negotiation_changes channel is)
  unfolding installed changed
  negotiation_router-installed channel [] = refl
  negotiation_router-installed channel (command_handler c f ∷ is) =
      negotiation_router-installed channel is
  negotiation_router-installed channel (client_option o ∷ is) =
      rw (negotiation_router-installed channel is)
  negotiation_router-installed channel (server_option o ∷ is) =
      rw (negotiation_router-installed channel is)

  latest-negotiation :
      (channel : Channel W) (is : List (Install W)) (n : Negotiation)
      → runs
          (or_else
            (latest (negotiation_changes channel is) n)
            (latest_default (negotiation_changes channel is)))
          n
        ≡ negotiates channel (negotiation_target is n) n
  unfolding negotiation_equal
  latest-negotiation channel [] n = refl
  latest-negotiation channel (command_handler c f ∷ is) n = latest-negotiation channel is n
  latest-negotiation channel (client_option o ∷ is) n =
      ground (arith, latest-negotiation channel is n)
  latest-negotiation channel (server_option o ∷ is) n =
      ground (arith, latest-negotiation channel is n)

  abbrev subnegotiation_changes : List (Install W) → List (Change ℕ (Subnegotiation → W → W))
  subnegotiation_changes [] = []
  subnegotiation_changes (command_handler c f ∷ older) = subnegotiation_changes older
  subnegotiation_changes (client_option o ∷ older) =
      registers o.option_code (λ sub. subnegotiate o sub.content) ∷ subnegotiation_changes older
  subnegotiation_changes (server_option o ∷ older) =
      registers o.option_code (λ sub. subnegotiate o sub.content) ∷ subnegotiation_changes older

  abbrev command_changes : List (Install W) → List (Change ℕ (Command → W → W))
  command_changes [] = []
  command_changes (command_handler c f ∷ older) = registers c f ∷ command_changes older
  command_changes (client_option o ∷ older) = command_changes older
  command_changes (server_option o ∷ older) = command_changes older

  subnegotiation_router-installed :
      (channel : Channel W) (is : List (Install W))
      → (installed channel is).subnegotiation_router ≡ changed (subnegotiation_changes is)
  unfolding installed changed
  subnegotiation_router-installed channel [] = refl
  subnegotiation_router-installed channel (command_handler c f ∷ is) =
      subnegotiation_router-installed channel is
  subnegotiation_router-installed channel (client_option o ∷ is) =
      rw (subnegotiation_router-installed channel is)
  subnegotiation_router-installed channel (server_option o ∷ is) =
      rw (subnegotiation_router-installed channel is)

  command_router-installed :
      (channel : Channel W) (is : List (Install W))
      → (installed channel is).command_router ≡ changed (command_changes is)
  unfolding installed changed
  command_router-installed channel [] = refl
  command_router-installed channel (command_handler c f ∷ is) =
      rw (command_router-installed channel is)
  command_router-installed channel (client_option o ∷ is) = command_router-installed channel is
  command_router-installed channel (server_option o ∷ is) = command_router-installed channel is

  latest-subnegotiation :
      (is : List (Install W)) (sub : Subnegotiation)
      → runs
          (or_else
            (latest (subnegotiation_changes is) sub.option)
            (latest_default (subnegotiation_changes is)))
          sub
        ≡ subnegotiates (subnegotiation_target is sub.option) sub
  latest-subnegotiation [] sub = refl
  latest-subnegotiation (command_handler c f ∷ is) sub = latest-subnegotiation is sub
  latest-subnegotiation (client_option o ∷ is) sub = ground (arith, latest-subnegotiation is sub)
  latest-subnegotiation (server_option o ∷ is) sub = ground (arith, latest-subnegotiation is sub)

  latest-command :
      (is : List (Install W)) (cmd : Command)
      → runs
          (or_else (latest (command_changes is) cmd.value) (latest_default (command_changes is)))
          cmd
        ≡ commands (command_target is cmd.value) cmd
  latest-command [] cmd = refl
  latest-command (command_handler c f ∷ is) cmd = ground (arith, latest-command is cmd)
  latest-command (client_option o ∷ is) cmd = latest-command is cmd
  latest-command (server_option o ∷ is) cmd = latest-command is cmd

  -- What an element should lead to.
  abbrev pub handled : Channel W → List (Install W) → (Bytes → W → W) → Element → W → W
  handled channel is callback (text bs) = callback bs
  handled channel is callback (negotiation n) = negotiates channel (negotiation_target is n) n
  handled channel is callback (subnegotiation s) =
      subnegotiates (subnegotiation_target is s.option) s
  handled channel is callback (command c) = commands (command_target is c.value) c

  -- On a session on which any commands and options have been installed, in any order, text goes to
  -- the application; a negotiation goes to the latest option installed for its side and code and is
  -- refused where there is none; a subnegotiation goes to the latest option installed with its
  -- code, on either side, and a command to the latest handler for it, and both are dropped where
  -- there is none.
  pub token_handler-installed :
      (channel : Channel W) (is : List (Install W)) (callback : Bytes → W → W) (e : Element)
      → token_handler (installed channel is) callback e ≡ handled channel is callback e
  unfolding token_handler route
  token_handler-installed channel is callback (text bs) = refl
  token_handler-installed channel is callback (negotiation n) =
      rw
        (
          negotiation_router-installed channel is,
          handler-changed (negotiation_changes channel is) n,
        )
        (latest-negotiation channel is n)
  token_handler-installed channel is callback (subnegotiation s) =
      rw
        (
          subnegotiation_router-installed channel is,
          handler-changed (subnegotiation_changes is) s.option,
        )
        (latest-subnegotiation is s)
  token_handler-installed channel is callback (command c) =
      rw (command_router-installed channel is, handler-changed (command_changes is) c.value)
        (latest-command is c)
