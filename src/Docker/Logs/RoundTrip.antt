-- ===== src/Docker/Logs/RoundTrip.antt =====
-- `DemuxLogs` on a stream that the Docker Engine wrote.
use overworld_ops.Base.{
  refl, [], ◌∷◌, ◌++◌, map, false, Text, List, ◌≡◌, ℕ, zero, suc, ◌==◌, arith, length, some, none,
  ◌/◌, ◌%◌, ◌<◌, ◌^◌, ◌≤◌, is_empty, ap, ◌∙◌, sym,
}
use overworld_ops.Docker.Logs.{
  LogLine, read_full, be32, lines_of, demux_on, demux_logs, split_lines, trim_breaks,
}
use overworld_ops.Docker.Logs.Lines.{
  has_break, breaks, joined, NoBreaks, length-append, trim_breaks-breaks, split_lines-joined,
  joined-append, trim_breaks-padded, has_break-snoc, length-breaks,
}
use overworld_ops.Api.Session.Sound.{append_assoc}

-- What one frame carries: nothing, line breaks only, or lines, of which the last one ends with a
-- byte that is no line break, before any number of line breaks.
pub data Frame : Type 0 where
  empty : ℕ → Frame
  blank : ℕ → ℕ → Frame
  written : ℕ → List Text → Text → ℕ → ℕ → Frame

unfoldable pub payload : Frame → Text
payload (empty stream) = []
payload (blank stream more) = 10 ∷ breaks more
payload (written stream lines front end more) = joined lines (front ++ end ∷ []) ++ breaks more

unfoldable pub stream_of : Frame → ℕ
stream_of (empty stream) = stream
stream_of (blank stream more) = stream
stream_of (written stream lines front end more) = stream

abbrev log_line : ℕ → Text → LogLine
log_line stream text = record { is_stderr = stream == 2; text = text }

-- The lines that are to be shown for it.
unfoldable pub shown : Frame → List LogLine
shown (empty stream) = []
shown (blank stream more) = log_line stream [] ∷ []
shown (written stream lines front end more) =
    map (log_line stream) (lines ++ (front ++ end ∷ []) ∷ [])

abbrev pub IsFrame : Frame → Type 0
IsFrame (empty stream) = Unit {0}
IsFrame (blank stream more) = suc more < 2 ^ 32
IsFrame (written stream lines front end more) =
    NoBreaks lines
    × (has_break front ≡ false)
    × ((end == 10) ≡ false)
    × (length (joined lines (front ++ end ∷ []) ++ breaks more) < 2 ^ 32)

abbrev pub AreFrames : List Frame → Type 0
AreFrames [] = Unit {0}
AreFrames (f ∷ fs) = IsFrame f × AreFrames fs

-- The header of the format: the stream, three bytes of padding, and the length in four bytes.
unfoldable pub framed : ℕ → Text → Text
framed stream p =
    stream
    ∷ 0
    ∷ 0
    ∷ 0
    ∷ (length p / 16777216)
    ∷ (length p / 65536 % 256)
    ∷ (length p / 256 % 256)
    ∷ (length p % 256)
    ∷ p

unfoldable pub encoded : List Frame → Text
unfolding framed payload stream_of
encoded [] = []
encoded (f ∷ fs) = framed (stream_of f) (payload f) ++ encoded fs

unfoldable pub all_shown : List Frame → List LogLine
unfolding shown
all_shown [] = []
all_shown (f ∷ fs) = shown f ++ all_shown fs

-- What can follow the last whole frame where the stream ends: a header that is cut off, or a whole
-- header before a payload that is cut off.
pub data IsCut : Text → Type 0 where
  in_header : (s : Text) → length s < 8 → IsCut s
  in_payload :
      (stream x y z a b c d : ℕ) (s : Text)
      → length s < be32 a b c d
      → IsCut (stream ∷ x ∷ y ∷ z ∷ a ∷ b ∷ c ∷ d ∷ s)

read_full-append : (p s : Text) → read_full (length p) (p ++ s) ≡ some (p, s)
unfolding read_full
read_full-append [] s = refl
read_full-append (c ∷ p) s = rw (read_full-append p s) refl

read_full-short : (n : ℕ) (s : Text) → length s < n → read_full n s ≡ none
unfolding read_full
read_full-short zero s h = absurd (omega arith)
read_full-short (suc n) [] h = refl
read_full-short (suc n) (c ∷ s) h = rw (read_full-short n s (omega arith)) refl

be32-bytes :
    (n : ℕ) → n < 2 ^ 32 → be32 (n / 16777216) (n / 65536 % 256) (n / 256 % 256) (n % 256) ≡ n
unfolding be32
be32-bytes n h = omega arith

-- The lines of a payload that is not empty.
lines_of-nonempty :
    (stream c : ℕ) (s : Text)
    → lines_of stream (c ∷ s) ≡ map (log_line stream) (split_lines [] (trim_breaks (c ∷ s)))
unfolding lines_of
lines_of-nonempty stream c s = refl

lines_of-by :
    (stream : ℕ) (p : Text) (ls : List Text)
    → is_empty p ≡ false
    → split_lines [] (trim_breaks p) ≡ ls
    → lines_of stream p ≡ map (log_line stream) ls
unfolding is_empty
lines_of-by stream [] ls some_bytes h = absurd cc
lines_of-by stream (c ∷ p) ls some_bytes h =
    lines_of-nonempty stream c p ∙ ap (map (log_line stream)) h

ends-nonempty :
    (ls : List Text) (x s : Text) (c : ℕ) → is_empty (joined ls (x ++ c ∷ []) ++ s) ≡ false
unfolding is_empty
ends-nonempty [] [] s c = refl
ends-nonempty [] (d ∷ x) s c = refl
ends-nonempty ([] ∷ ls) x s c = refl
ends-nonempty ((d ∷ l) ∷ ls) x s c = refl

lines_of-payload : (f : Frame) → IsFrame f → lines_of (stream_of f) (payload f) ≡ shown f
unfolding stream_of payload shown is_empty has_break
lines_of-payload (empty stream) h = unfold lines_of in refl
lines_of-payload (blank stream more) h =
    lines_of-by stream (10 ∷ breaks more) ([] ∷ []) refl
      (ap (split_lines []) (trim_breaks-breaks (suc more)) ∙ split_lines-joined [] [] tt refl)
lines_of-payload (written stream lines front end more) (plain, start, last, small) =
    lines_of-by stream (joined lines (front ++ end ∷ []) ++ breaks more)
      (lines ++ (front ++ end ∷ []) ∷ []) (ends-nonempty lines front (breaks more) end)
      (ap (split_lines []) (
          ap (λ t. trim_breaks (t ++ breaks more)) (joined-append lines front (end ∷ []))
          ∙ trim_breaks-padded (joined lines front) end more last
          ∙ sym (joined-append lines front (end ∷ [])))
        ∙ split_lines-joined lines (front ++ end ∷ []) plain (has_break-snoc front end start last))

small_payload : (f : Frame) → IsFrame f → length (payload f) < 2 ^ 32
unfolding payload
small_payload (empty stream) h = omega arith
small_payload (blank stream more) h = omega (arith, length-breaks more)
small_payload (written stream lines front end more) (plain, start, last, small) = small

-- The two outcomes of a round whose header is whole.
pub demux_on-whole :
    (fuel stream x y z a b c d : ℕ) (rest p s : Text)
    → read_full (be32 a b c d) rest ≡ some (p, s)
    → demux_on (suc fuel) (stream ∷ x ∷ y ∷ z ∷ a ∷ b ∷ c ∷ d ∷ rest)
      ≡ lines_of stream p ++ demux_on fuel s
unfolding demux_on
demux_on-whole fuel stream x y z a b c d rest p s h = rw (demux_on, h) refl

pub demux_on-short :
    (fuel stream x y z a b c d : ℕ) (rest : Text)
    → read_full (be32 a b c d) rest ≡ none
    → demux_on (suc fuel) (stream ∷ x ∷ y ∷ z ∷ a ∷ b ∷ c ∷ d ∷ rest) ≡ []
unfolding demux_on
demux_on-short fuel stream x y z a b c d rest h = rw (demux_on, h) refl

demux_on-framed :
    (fuel stream : ℕ) (p s : Text)
    → length p < 2 ^ 32
    → demux_on (suc fuel) (framed stream p ++ s) ≡ lines_of stream p ++ demux_on fuel s
unfolding framed
demux_on-framed fuel stream p s small =
    demux_on-whole fuel stream 0 0 0 (length p / 16777216) (length p / 65536 % 256)
      (length p / 256 % 256) (length p % 256) (p ++ s) p s
      (rw (be32-bytes (length p) small) (read_full-append p s))

demux_on-cut : (fuel : ℕ) (s : Text) → IsCut s → demux_on fuel s ≡ []
unfolding demux_on
demux_on-cut zero s h = refl
demux_on-cut (suc fuel) s (in_payload stream x y z a b c d t short) =
    demux_on-short fuel stream x y z a b c d t (read_full-short (be32 a b c d) t short)
demux_on-cut (suc fuel) [] (in_header _ short) = refl
demux_on-cut (suc fuel) (a ∷ []) (in_header _ short) = refl
demux_on-cut (suc fuel) (a ∷ b ∷ []) (in_header _ short) = refl
demux_on-cut (suc fuel) (a ∷ b ∷ c ∷ []) (in_header _ short) = refl
demux_on-cut (suc fuel) (a ∷ b ∷ c ∷ d ∷ []) (in_header _ short) = refl
demux_on-cut (suc fuel) (a ∷ b ∷ c ∷ d ∷ x ∷ []) (in_header _ short) = refl
demux_on-cut (suc fuel) (a ∷ b ∷ c ∷ d ∷ x ∷ y ∷ []) (in_header _ short) = refl
demux_on-cut (suc fuel) (a ∷ b ∷ c ∷ d ∷ x ∷ y ∷ z ∷ []) (in_header _ short) = refl
demux_on-cut (suc fuel) (a ∷ b ∷ c ∷ d ∷ x ∷ y ∷ z ∷ w ∷ s) (in_header _ short) =
    absurd (omega arith)

length-framed : (stream : ℕ) (p s : Text) → length s < length (framed stream p ++ s)
unfolding framed
length-framed stream p s = omega (arith, length-append p s)

demux_on-encoded :
    (fuel : ℕ) (fs : List Frame) (cut : Text)
    → AreFrames fs
    → IsCut cut
    → length (encoded fs ++ cut) ≤ fuel
    → demux_on fuel (encoded fs ++ cut) ≡ all_shown fs
unfolding encoded all_shown
demux_on-encoded fuel [] cut good ends enough = demux_on-cut fuel cut ends
demux_on-encoded zero (f ∷ fs) cut good ends enough = absurd (unfold framed in omega arith)
demux_on-encoded (suc fuel) (f ∷ fs) cut (g, good) ends enough =
    let more : length (encoded fs ++ cut)
        < length (framed (stream_of f) (payload f) ++ (encoded fs ++ cut)) =
      length-framed (stream_of f) (payload f) (encoded fs ++ cut) in
    let shape : (framed (stream_of f) (payload f) ++ encoded fs) ++ cut
        ≡ framed (stream_of f) (payload f) ++ (encoded fs ++ cut) =
      append_assoc (framed (stream_of f) (payload f)) (encoded fs) cut in
    rw shape (
      demux_on-framed fuel (stream_of f) (payload f) (encoded fs ++ cut) (small_payload f g)
      ∙ rw
          (
            lines_of-payload f g,
            demux_on-encoded fuel fs cut good ends (omega (arith, ap length shape)),
          )
          refl)

-- From a stream of frames as the Docker Engine writes them, of which each is shorter than 2^32
-- bytes, whether it ends between two frames or inside the header or the payload of one more, the
-- loop delivers the lines of every whole frame, in order, with the name of its stream: a frame
-- without a payload gives no line, one of line breaks only gives a blank one, and the line breaks
-- at the end of a frame give none.
pub demux_logs-encoded :
    (fs : List Frame) (cut : Text)
    → AreFrames fs
    → IsCut cut
    → demux_logs (encoded fs ++ cut) ≡ all_shown fs
unfolding demux_logs
demux_logs-encoded fs cut good ends =
    demux_on-encoded (length (encoded fs ++ cut)) fs cut good ends (omega arith)
