-- ===== src/Options/Basic.antt =====
-- Options that are switched on and off and have no subnegotiations
-- (include/telnetpp/options/basic_client.hpp, basic_server.hpp), and the three of them: BINARY, ECHO
-- and SUPPRESS-GO-AHEAD.
use telnetpp.Prelude.{ℕ}
use telnetpp.TelnetOption.{TelnetOption, client_polarity, server_polarity, skip}

abbrev pub binary : ℕ
binary = 0

abbrev pub echo : ℕ
echo = 1

abbrev pub suppress_ga : ℕ
suppress_ga = 3

-- `base` has the option's state, its session and its slots.
module _ {W : Type 0} (code : ℕ) (base : TelnetOption W) where
  abbrev pub basic_client : TelnetOption W
  basic_client = record base {
    polarity = client_polarity;
    option_code = code;
    handle_subnegotiation = λ content. skip;
  }

  abbrev pub basic_server : TelnetOption W
  basic_server = record base {
    polarity = server_polarity;
    option_code = code;
    handle_subnegotiation = λ content. skip;
  }

-- The classes that instantiate them.
module _ {W : Type 0} where
  abbrev pub binary_client : TelnetOption W → TelnetOption W
  binary_client = basic_client binary

  abbrev pub binary_server : TelnetOption W → TelnetOption W
  binary_server = basic_server binary

  abbrev pub echo_client : TelnetOption W → TelnetOption W
  echo_client = basic_client echo

  abbrev pub echo_server : TelnetOption W → TelnetOption W
  echo_server = basic_server echo

  abbrev pub suppress_ga_client : TelnetOption W → TelnetOption W
  suppress_ga_client = basic_client suppress_ga

  abbrev pub suppress_ga_server : TelnetOption W → TelnetOption W
  suppress_ga_server = basic_server suppress_ga
