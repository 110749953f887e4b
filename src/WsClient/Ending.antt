-- ===== src/WsClient/Ending.antt =====
-- How `processFrame` comes to an end.
use mod_audio_stream.Prelude.{ℕ, ◌≡◌, ◌⊎◌, true, false, ◌==◌, drop}
use mod_audio_stream.WsClient.Receive.{
  Frame, need_more, overrun, got, parse_frame, Receiver, closing, Outcome, done, overran,
  out_of_fuel,
}
use mod_audio_stream.WsClient.Overrun.{IsHuge}

-- How processFrame ends: with a rest that holds no whole frame, at a close frame, or at a frame
-- behind `n` bytes whose payload it reads past the buffer.
pub record AtRest (r r' : Receiver) : Type 0 where
  pub taken : ℕ
  pub rest : r'.rxbuf ≡ drop taken r.rxbuf
  pub reason :
      (parse_frame r'.rxbuf ≡ need_more)
      ⊎ ((f : Frame) × (parse_frame r'.rxbuf ≡ got f)
          × ((f.opcode == 0x8) ≡ true)
          × (r'.state ≡ closing)
          × (r'.running ≡ false))

abbrev pub Finished : Receiver → Outcome → Type 0
Finished r (done r' es) = AtRest r r'
Finished r overran = (n : ℕ) × (parse_frame (drop n r.rxbuf) ≡ overrun) × IsHuge (drop n r.rxbuf)
Finished r out_of_fuel = ⊥
