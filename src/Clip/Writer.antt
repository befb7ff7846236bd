-- ===== src/Clip/Writer.antt =====
-- `ClipWriter`: `create`, `push_frame` and the bytes that `finish` writes. The scratch file, its name
-- and its move onto the final path are left out. `deflate` is a parameter; so is the capture rate
-- but for its 32 bits, which are only copied.
use pc_pulse.Prelude.{
  ℕ, ◌+◌, ◌*◌, ◌%◌, ◌^◌, Bool, true, false, Option, none, some, List, [], ◌∷◌, ◌++◌, ltb, ◌==◌,
  if◌then◌else◌, length,
}
use pc_pulse.Text.{codes}
use pc_pulse.Clip.Color.{quantize}
use pc_pulse.Clip.Bytes.{le_bytes}

-- b"PCLIP1"
abbrev pub magic : List ℕ
magic = codes "PCLIP1"

abbrev pub header_len : ℕ
header_len = 6 + 2 + 2 + 4 + 4

pub record ClipHeader : Type 0 where
  pub grid_w : ℕ
  pub grid_h : ℕ
  pub capture_fps : ℕ
  pub frame_count : ℕ

abbrev pub frame_pixel_len : ClipHeader → ℕ
frame_pixel_len h = h.grid_w * h.grid_h * 3

pub record ClipWriter : Type 0 where
  pub grid_w : ℕ
  pub grid_h : ℕ
  pub capture_fps : ℕ
  pub offsets : List ℕ
  pub frames : List ℕ

unfoldable pub create : ℕ → ℕ → ℕ → ClipWriter
create grid_w grid_h capture_fps = record {
  grid_w = grid_w;
  grid_h = grid_h;
  capture_fps = capture_fps;
  offsets = [];
  frames = [];
}

-- The writer, and whether the frame was taken. A frame whose compressed length does not fit 32 bits
-- is refused behind the push of its offset.
unfoldable pub push_frame : (List ℕ → List ℕ) → ClipWriter → List ℕ → ClipWriter × Bool
unfolding quantize le_bytes
push_frame deflate w rgb =
    let compressed = deflate (quantize rgb) in
    let pushed = record w { offsets = w.offsets ++ length w.frames ∷ [] } in
    let taken : ClipWriter × Bool =
      (record pushed { frames = w.frames ++ le_bytes 4 (length compressed) ++ compressed }, true) in
    let too_long : ClipWriter × Bool = (pushed, false) in
    let wrong_size : ClipWriter × Bool = (w, false) in
    if length rgb == w.grid_w * w.grid_h * 3
    then if ltb (length compressed) (2 ^ 32) then taken else too_long
    else wrong_size

-- `for relative_offset in &self.offsets`
unfoldable pub seek_table : ℕ → List ℕ → List ℕ
unfolding le_bytes
seek_table frames_start [] = []
seek_table frames_start (offset ∷ offsets) =
    le_bytes 8 ((frames_start + offset) % 2 ^ 64) ++ seek_table frames_start offsets

-- What `finish` writes; `none` where the number of frames does not fit 32 bits.
unfoldable pub finish : ClipWriter → Option (List ℕ)
unfolding le_bytes seek_table
finish w =
    let frame_count = length w.offsets in
    if ltb frame_count (2 ^ 32)
    then some (
        magic
        ++ le_bytes 2 w.grid_w
        ++ le_bytes 2 w.grid_h
        ++ le_bytes 4 w.capture_fps
        ++ le_bytes 4 frame_count
        ++ le_bytes 4 frame_count
        ++ seek_table (header_len + 4 + frame_count * 8) w.offsets
        ++ w.frames)
    else none
