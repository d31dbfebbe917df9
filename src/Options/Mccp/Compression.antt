-- ===== src/Options/Mccp/Compression.antt =====
-- The server's compression (src/options/mccp/server.cpp) over any calls of its application and negotiations of its client.
use telnetpp.Prelude.{some, ℕ, ◌≡◌, refl, ◌⊎◌, Bool, true, false, List, [], ◌∷◌, ◌++◌, Bytes, arith}
use telnetpp.Element.{Element}
use telnetpp.TelnetOption.{
  TelnetOption, InternalState, inactive, active, deactivating, server_polarity, activate,
  deactivate, negotiate,
}
use telnetpp.Options.Mccp.{
  Codec, MccpOption, server_state_changed, start_compression, finish_compression,
}

abbrev pub option : ℕ
option = 86

-- A server, its option and its codec, and what happens to each: `flushed` is what the codec hands
-- on at its end.
pub data Event : Type 0 where
  wrote : Element → Event
  started finished : Event

pub record World : Type 0 where
  pub state : InternalState
  pub compressing : Bool
  pub engaged : Bool
  pub events : List Event

abbrev log : Event → World → World
log e w = record w { events = w.events ++ e ∷ [] }

-- What can happen to the server.
pub data Call : Type 0 where
  activates deactivates starts finishes : Call
  negotiates : ℕ → Call

module _ (flushed : Bytes) where
  abbrev pub world_codec : Codec World
  world_codec = record {
    engaged = λ w. w.engaged;
    set_engaged = λ b w. record w { engaged = b };
    do_start = log started;
    do_finish = λ cont w. cont flushed true (log finished w);
    transform_chunk = λ bs cont w. (some [], w);
  }

  -- The option before its constructor has connected the slot.
  abbrev unconnected : TelnetOption World
  unconnected = record {
    polarity = server_polarity;
    option_code = option;
    state = λ w. w.state;
    set_state = λ s w. record w { state = s };
    session_write = λ e. log (wrote e);
    on_state_changed = λ w. w;
    handle_subnegotiation = λ content w. w;
  }

  abbrev mccp : TelnetOption World → MccpOption World
  mccp o = record {
    option = o;
    codec = world_codec;
    compression_active = λ w. w.compressing;
    set_compression_active = λ b w. record w { compressing = b };
  }

  abbrev pub connected : TelnetOption World
  connected = record unconnected { on_state_changed = server_state_changed (mccp unconnected) }

  abbrev pub mccp_server : MccpOption World
  mccp_server = mccp connected

  unfoldable pub call : Call → World → World
  call activates = activate connected
  call deactivates = deactivate connected
  call starts = start_compression mccp_server
  call finishes = finish_compression mccp_server
  call (negotiates neg) = negotiate connected neg

  unfoldable pub run : List Call → World → World
  unfolding call
  run [] w = w
  run (c ∷ cs) w = run cs (call c w)

-- The server's flag says whether the codec is engaged, and it is engaged only while the option is
-- active, or deactivating and waiting for the answer.
pub record Inv (w : World) : Type 0 where
  pub flag : w.compressing ≡ w.engaged
  pub in_use : w.engaged ≡ true → (w.state ≡ active) ⊎ (w.state ≡ deactivating)

module _ (flushed : Bytes) where
  call-Inv :
      (c : Call) (s : InternalState) (compressing engaged : Bool) (events : List Event)
      → Inv (record { state = s; compressing = compressing; engaged = engaged; events = events })
      → Inv (
          call flushed c
            (record { state = s; compressing = compressing; engaged = engaged; events = events }))
  unfolding call activate deactivate negotiate start_compression finish_compression
      server_state_changed
  call-Inv activates inactive b e ev h = ground arith
  call-Inv activates _ b e ev h = ground arith
  call-Inv deactivates inactive b e ev h = ground arith
  call-Inv deactivates _ b e ev h = ground arith
  call-Inv starts inactive b e ev h = ground arith
  call-Inv starts _ b e ev h = ground arith
  call-Inv finishes inactive b e ev h = ground arith
  call-Inv finishes _ b e ev h = ground arith
  call-Inv (negotiates neg) inactive b e ev h = ground arith
  call-Inv (negotiates neg) _ b e ev h = ground arith

  run-Inv : (cs : List Call) (w : World) → Inv w → Inv (run flushed cs w)
  unfolding run
  run-Inv [] w h = h
  run-Inv (c ∷ cs) w h =
      run-Inv cs (call flushed c w) (call-Inv c w.state w.compressing w.engaged w.events h)

-- A new server.
abbrev pub new_server : World
new_server = record { state = inactive; compressing = false; engaged = false; events = [] }

-- Whatever the application calls and the client negotiates, the server's flag says whether its
-- codec is engaged, and the codec is engaged only while the option is active, or is deactivating
-- and waits for the answer.
pub run-new_server-Inv : (flushed : Bytes) (cs : List Call) → Inv (run flushed cs new_server)
run-new_server-Inv flushed cs =
    run-Inv flushed cs new_server (record { flag = refl; in_use = λ e. cc e })
