-- ===== src/Tests/Console.antt =====
-- The console's stream on two frames and a header that is cut off.
use overworld_ops.Base.{[], ◌∷◌, ◌++◌, List, arith, ◌≡◌, refl}
use overworld_ops.Docker.Logs.{demux_logs}
use overworld_ops.Docker.Logs.Lines.{has_break}
use overworld_ops.Docker.Logs.RoundTrip.{
  Frame, empty, written, encoded, all_shown, in_header, demux_logs-encoded,
}

abbrev frames : List Frame
frames = written 1 ((65 ∷ []) ∷ []) [] 66 1 ∷ empty 1 ∷ written 2 [] (67 ∷ []) 68 0 ∷ []

demux_logs-encoded_example : demux_logs (encoded frames ++ (2 ∷ 0 ∷ [])) ≡ all_shown frames
unfolding has_break
demux_logs-encoded_example =
    demux_logs-encoded frames (2 ∷ 0 ∷ [])
      (((refl, tt), refl, refl, omega arith), (tt, ((tt, refl, refl, omega arith), tt)))
      (in_header (2 ∷ 0 ∷ []) (omega arith))
