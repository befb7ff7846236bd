-- ===== src/Clip/Reader/Roundtrip.antt =====
-- What the writer finishes, the reader opens.
use mathlib.Core.List.{append_assoc}
use pc_pulse.Prelude.{
  ℕ, suc, ◌+◌, ◌-◌, ◌*◌, ◌%◌, ◌^◌, ◌≤◌, ◌<◌, ◌≡◌, refl, ap, ◌∙◌, false, some, List, [], ◌∷◌, ◌++◌,
  map, arith, ◌==◌, length, All, lt→ltb, le→ltb, ==_false, ==_refl, length-append,
}
use pc_pulse.Text.{text_eq}
use pc_pulse.Clip.Bytes.{
  bound, le_bytes, read_le, length-le_bytes, read_exact-append, read_le-le_bytes,
}
use pc_pulse.Clip.Writer.{magic, header_len, ClipWriter, seek_table, finish}
use pc_pulse.Clip.Reader.{ClipReader, read_offsets, open_table, open_clip}

abbrev pub FitsFile : ℕ → List ℕ → Type 0
FitsFile start offsets = All (λ (o : ℕ). start + o < 2 ^ 64) offsets

read_offsets-suc :
    (n o : ℕ) (bytes rest os : List ℕ)
    → read_le 8 bytes ≡ some (o, rest)
    → read_offsets n rest ≡ some os
    → read_offsets (suc n) bytes ≡ some (o ∷ os)
unfolding read_offsets
read_offsets-suc n o bytes rest os h k = rw (h, k) refl

read_offsets-seek_table :
    (start : ℕ) (offsets tail : List ℕ)
    → FitsFile start offsets
    → read_offsets (length offsets) (seek_table start offsets ++ tail)
      ≡ some (map (λ o. start + o) offsets)
unfolding read_offsets seek_table
read_offsets-seek_table start [] tail h = refl
read_offsets-seek_table start (o ∷ offsets) tail h =
    let later = seek_table start offsets ++ tail in
    let small : (start + o) % 2 ^ 64 ≡ start + o = omega arith in
    let whole = append_assoc (le_bytes 8 ((start + o) % 2 ^ 64)) (seek_table start offsets) tail in
    read_offsets-suc (length offsets) (start + o)
      ((le_bytes 8 ((start + o) % 2 ^ 64) ++ seek_table start offsets) ++ tail) later
      (map (λ i. start + i) offsets)
      (ap (read_le 8) whole
        ∙ ap (λ m. read_le 8 (le_bytes 8 m ++ later)) small
        ∙ read_le-le_bytes 8 (start + o) later (unfold bound in omega arith))
      (read_offsets-seek_table start offsets tail h.1)

pub length-seek_table :
    (start : ℕ) (offsets : List ℕ) → length (seek_table start offsets) ≡ length offsets * 8
unfolding seek_table
length-seek_table start [] = refl
length-seek_table start (o ∷ offsets) = omega (
  arith,
  length-append (le_bytes 8 ((start + o) % 2 ^ 64)) (seek_table start offsets),
  length-le_bytes 8 ((start + o) % 2 ^ 64),
  length-seek_table start offsets,
)

-- A writer whose header fields fit their widths, with at least one cell, fewer than 2 ^ 32 frames, and
-- offsets that stay below 2 ^ 64 in the file.
pub record FitsHeader (w : ClipWriter) : Type 0 where
  pub width : 1 ≤ w.grid_w
  pub width_u16 : w.grid_w < 65_536
  pub height : 1 ≤ w.grid_h
  pub height_u16 : w.grid_h < 65_536
  pub fps_u32 : w.capture_fps < 2 ^ 32
  pub count_u32 : length w.offsets < 2 ^ 32
  pub offsets_u64 : FitsFile (header_len + 4 + length w.offsets * 8) w.offsets

-- The reader that the file should open as.
abbrev pub opened : ClipWriter → List ℕ → ClipReader
opened w file = record {
  file = file;
  header = record {
    grid_w = w.grid_w;
    grid_h = w.grid_h;
    capture_fps = w.capture_fps;
    frame_count = length w.offsets;
  };
  offsets = map (λ o. header_len + 4 + length w.offsets * 8 + o) w.offsets;
}

-- The table and the frames of the file.
abbrev pub table_on : ClipWriter → List ℕ
table_on w = seek_table (header_len + 4 + length w.offsets * 8) w.offsets ++ w.frames

open_table-finish :
    (w : ClipWriter) (file : List ℕ)
    → FitsHeader w
    → length w.offsets * 8 + 22 ≤ length file
    → open_table file w.grid_w w.grid_h w.capture_fps
        (length w.offsets)
        (length w.offsets)
        (table_on w)
      ≡ some (opened w file)
unfolding open_table
open_table-finish w file f long =
    let start = header_len + 4 + length w.offsets * 8 in
    let table = read_offsets-seek_table start w.offsets w.frames f.offsets_u64 in
    let room = le→ltb (length file - (header_len + 4)) (length w.offsets * 8) (omega arith) in
    let wide : (w.grid_w == 0) ≡ false = ==_false w.grid_w 0 (omega (arith, f.width)) in
    let high : (w.grid_h == 0) ≡ false = ==_false w.grid_h 0 (omega (arith, f.height)) in
    rw (==_refl (length w.offsets), wide, high, room, table) refl

file_long :
    (w : ClipWriter)
    → length w.offsets * 8 + 22
      ≤ length (
          magic
          ++ le_bytes 2 w.grid_w
          ++ le_bytes 2 w.grid_h
          ++ le_bytes 4 w.capture_fps
          ++ le_bytes 4 (length w.offsets)
          ++ le_bytes 4 (length w.offsets)
          ++ table_on w)
unfolding le_bytes
file_long w = omega (
  arith,
  length-append (seek_table (header_len + 4 + length w.offsets * 8) w.offsets) w.frames,
  length-seek_table (header_len + 4 + length w.offsets * 8) w.offsets,
)

open_clip-header :
    (w h fps count table : ℕ) (rest : List ℕ)
    → w < 65_536
    → h < 65_536
    → fps < 2 ^ 32
    → count < 2 ^ 32
    → table < 2 ^ 32
    → let file =
        magic
        ++ le_bytes 2 w
        ++ le_bytes 2 h
        ++ le_bytes 4 fps
        ++ le_bytes 4 count
        ++ le_bytes 4 table
        ++ rest in
      open_clip file ≡ open_table file w h fps count table rest
unfolding open_clip text_eq le_bytes
open_clip-header w h fps count table rest hw hh hf hc ht =
    let r5 = le_bytes 4 table ++ rest in
    let r4 = le_bytes 4 count ++ r5 in
    let r3 = le_bytes 4 fps ++ r4 in
    let r2 = le_bytes 2 h ++ r3 in
    let r1 = le_bytes 2 w ++ r2 in
    rw
      (
        read_exact-append magic r1 6 refl,
        read_le-le_bytes 2 w r2 (unfold bound in omega arith),
        read_le-le_bytes 2 h r3 (unfold bound in omega arith),
        read_le-le_bytes 4 fps r4 (unfold bound in omega arith),
        read_le-le_bytes 4 count r5 (unfold bound in omega arith),
        read_le-le_bytes 4 table rest (unfold bound in omega arith),
      )
      refl

-- `finish` succeeds on a writer whose fields fit the format, and `open` reads its bytes back: the
-- same dimensions and rate, the number of frames, and each frame's offset from the start of the file.
pub open_clip-finish :
    (w : ClipWriter)
    → FitsHeader w
    → (file : List ℕ) × (finish w ≡ some file) × (open_clip file ≡ some (opened w file))
unfolding finish
open_clip-finish w f =
    let n = length w.offsets in
    let file : List ℕ =
      magic
      ++ le_bytes 2 w.grid_w
      ++ le_bytes 2 w.grid_h
      ++ le_bytes 4 w.capture_fps
      ++ le_bytes 4 n
      ++ le_bytes 4 n
      ++ table_on w in
    (
      file,
      rw (lt→ltb n (2 ^ 32) f.count_u32) refl,
      open_clip-header w.grid_w w.grid_h w.capture_fps n n (table_on w) f.width_u16 f.height_u16
            f.fps_u32 f.count_u32 f.count_u32
          ∙ open_table-finish w file f (file_long w),
    )
