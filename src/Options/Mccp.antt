-- ===== src/Options/Mccp.antt =====
-- MCCP (src/options/mccp/codec.cpp, client.cpp, server.cpp). What a codec derives from the class
-- (zlib, in this repository) is a parameter, and so is the state `W` that all calls can change. A
-- codec's `transform_chunk` leaves `none` where it throws `corrupted_stream_error`.
pub mod Loop
pub mod Compression
pub mod Zlib
pub mod Stacked
pub mod Finishing
pub mod Receiver
pub mod Streamed
pub mod Ending
use telnetpp.Prelude.{
  ℕ, zero, suc, Bool, true, false, not, ◌&&◌, List, [], ◌∷◌, if◌then◌else◌, Bytes, Option, none,
  some,
}
use telnetpp.Core
use telnetpp.TelnetOption.{
  TelnetOption, ◌⨾◌, skip, is_active, is_option_active, write_text, write_subnegotiation,
}

-- `codec::continuation`.
abbrev pub Continuation : Type 0 → Type 0
Continuation W = Bytes → Bool → W → W

pub record Codec (W : Type 0) : Type 0 where
  pub engaged : W → Bool
  pub set_engaged : Bool → W → W
  pub do_start : W → W
  pub do_finish : Continuation W → W → W
  pub transform_chunk : Bytes → Continuation W → W → Option Bytes × W

-- How a call of `operator()` ends.
pub data Outcome (W : Type 0) : Type 0 where
  returned : W → Outcome W
  thrown : W → Outcome W

module _ {W : Type 0} (c : Codec W) where
  unfoldable pub start : W → W
  start = c.set_engaged true ⨾ c.do_start

  unfoldable pub finish : Continuation W → W → W
  finish cont = c.do_finish cont ⨾ c.set_engaged false

  -- The continuation that `operator()` hands to `transform_chunk`.
  abbrev pub noting_end : Continuation W → Continuation W
  noting_end cont bs ended = c.set_engaged (not ended) ⨾ cont bs ended

  -- One round of the loop of `operator()`, on data that is not empty.
  unfoldable pub round : Continuation W → ℕ → Bytes → W → Option Bytes × W
  round cont by bs w =
      if c.engaged w
      then c.transform_chunk (by ∷ bs) (noting_end cont) w
      else (some bs, cont (by ∷ []) false w)

  -- What follows a round, from what it has left.
  abbrev pub resume : (Bytes → W → Option (Outcome W)) → Option Bytes × W → Option (Outcome W)
  resume rest (none, w) = some (thrown w)
  resume rest (some left, w) = rest left w

  -- The loop. `none` means that the fuel ran out.
  unfoldable pub transform : ℕ → Bytes → Continuation W → W → Option (Outcome W)
  unfolding round
  transform fuel [] cont w = some (returned w)
  transform zero (by ∷ bs) cont w = none
  transform (suc fuel) (by ∷ bs) cont w =
      resume (λ left. transform fuel left cont) (round cont by bs w)

-- The option's client and server, over an option and a codec.
pub record MccpOption (W : Type 0) : Type 0 where
  pub option : TelnetOption W
  pub codec : Codec W
  pub compression_active : W → Bool
  pub set_compression_active : Bool → W → W

module _ {W : Type 0} (m : MccpOption W) where
  -- `codec_.finish` with what it hands on written as text.
  unfoldable pub finish_codec : W → W
  unfolding finish write_text
  finish_codec = finish m.codec (λ content ended. write_text m.option content)

  -- The client's slot on `on_state_changed`, and its `handle_subnegotiation`.
  unfoldable pub client_state_changed : W → W
  unfolding finish_codec
  client_state_changed w = if is_option_active m.option w then w else finish_codec w

  unfoldable pub client_handle_subnegotiation : Bytes → W → W
  unfolding start
  client_handle_subnegotiation content = start m.codec

  -- The server's slot.
  unfoldable pub server_state_changed : W → W
  unfolding finish_codec
  server_state_changed w =
      if m.compression_active w then m.set_compression_active false (finish_codec w) else w

  unfoldable pub start_compression : W → W
  unfolding start write_subnegotiation
  start_compression w =
      if is_option_active m.option w
      then m.set_compression_active true (start m.codec (write_subnegotiation m.option [] w))
      else w

  unfoldable pub finish_compression : W → W
  unfolding finish_codec
  finish_compression w =
      if is_option_active m.option w && m.compression_active w
      then m.set_compression_active false (finish_codec w)
      else w
