-- ===== src/Docker/Logs.antt =====
-- `DemuxLogs` of backend/internal/docker/logs.go, and `Logs` of minecraft.go.
--
-- The stream is the bytes that arrive until it ends. A read of fewer bytes than asked for is
-- `io.EOF` or `io.ErrUnexpectedEOF`, where `DemuxLogs` returns nil; the cancelled context, which
-- cuts the lines off at some point, is left out.
pub mod Lines
pub mod RoundTrip
pub mod Fuel
use overworld_ops.Base.{
  ℕ, zero, suc, ◌+◌, ◌*◌, ◌==◌, Bool, true, false, if◌then◌else◌, Option, none, some, List, [], ◌∷◌,
  ◌++◌, map, reverse, length, Text, codes, is_empty,
}
use overworld_ops.Docker.Types.{container_logs}
use overworld_ops.Docker.Client.{DockerError, found_or_wrap}
use overworld_ops.System.{Act, map_err, send}

-- `Stream` is "stderr" or "stdout".
pub record LogLine : Type 0 where
  pub is_stderr : Bool
  pub text : Text

-- `io.ReadFull`: the bytes read and those that are left
unfoldable pub read_full : ℕ → List ℕ → Option (List ℕ × List ℕ)
read_full zero s = some ([], s)
read_full (suc n) [] = none
read_full (suc n) (b ∷ s) = elim (read_full n s) [
  | none ↦ none
  | some (front, rest) ↦ some (b ∷ front, rest)
]

-- `strings.Split(s, "\n")`, after `word`
unfoldable pub split_lines : Text → Text → List Text
split_lines word [] = word ∷ []
split_lines word (c ∷ s) = elim (c == 10) [
  | true ↦ word ∷ split_lines [] s
  | false ↦ split_lines (word ++ c ∷ []) s
]

unfoldable pub drop_breaks : Text → Text
drop_breaks [] = []
drop_breaks (c ∷ s) = let rest = drop_breaks s in if c == 10 then rest else c ∷ s

-- `strings.TrimRight(s, "\n")`
unfoldable pub trim_breaks : Text → Text
unfolding drop_breaks
trim_breaks s = reverse (drop_breaks (reverse s))

-- The lines of one payload; a frame of size 0 is passed over.
unfoldable pub lines_of : ℕ → Text → List LogLine
unfolding trim_breaks split_lines
lines_of stream [] = []
lines_of stream (c ∷ payload) =
    map (λ t. record { is_stderr = stream == 2; text = t })
      (split_lines [] (trim_breaks (c ∷ payload)))

-- `binary.BigEndian.Uint32`
unfoldable pub be32 : ℕ → ℕ → ℕ → ℕ → ℕ
be32 a b c d = ((a * 256 + b) * 256 + c) * 256 + d

-- One round of the loop for each frame; a frame has at least the eight bytes of its header.
unfoldable pub demux_on : ℕ → List ℕ → List LogLine
unfolding read_full lines_of be32
demux_on (suc fuel) (stream ∷ _ ∷ _ ∷ _ ∷ a ∷ b ∷ c ∷ d ∷ rest) =
    elim (read_full (be32 a b c d) rest) [
      | none ↦ []
      | some (payload, rest') ↦ lines_of stream payload ++ demux_on fuel rest'
    ]
demux_on _ _ = []

unfoldable pub demux_logs : List ℕ → List LogLine
unfolding demux_on
demux_logs s = demux_on (length s) s

-- `Logs`, with `follow` set
unfoldable pub logs : Text → Text → Act DockerError (List ℕ)
unfolding codes
logs id tail =
    let lines = if is_empty tail then codes "200" else tail in
    map_err (found_or_wrap "container logs " id)
      (send (container_logs id lines) (λ e past. e.engine_logs past id lines))
