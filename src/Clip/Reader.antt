-- ===== src/Clip/Reader.antt =====
-- `ClipReader`: `open` (here `open_clip`) and `frame`, on the bytes of the file. `inflate` is a parameter; it is `none`
-- where the decoder fails.
pub mod Roundtrip
pub mod Frames
use pc_pulse.Prelude.{
  ℕ, zero, suc, ◌+◌, ◌-◌, ◌*◌, ◌^◌, min, Bool, true, false, not, ◌&&◌, ◌||◌, Option, none, some,
  List, [], ◌∷◌, ltb, leb, ◌==◌, if◌then◌else◌, length, drop, get_elem?,
}
use pc_pulse.Text.{text_eq}
use pc_pulse.Clip.Color.{dequantize}
use pc_pulse.Clip.Bytes.{read_exact, read_le}
use pc_pulse.Clip.Writer.{magic, header_len, ClipHeader}

-- The file's bytes stand for the handle; `file_len` is their number.
pub record ClipReader : Type 0 where
  pub file : List ℕ
  pub header : ClipHeader
  pub offsets : List ℕ

-- `?` behind a read.
abbrev pub and_then {ℓ κ} : {A : Type ℓ} {B : Type κ} → Option A → (A → Option B) → Option B
and_then none f = none
and_then (some a) f = f a

-- `for i in 0..seek_table_len { offsets.push(read_u64(&mut file)?); }`
unfoldable pub read_offsets : ℕ → List ℕ → Option (List ℕ)
unfolding read_le
read_offsets zero bytes = some []
read_offsets (suc n) bytes =
    and_then (read_le 8 bytes) (λ r. and_then (read_offsets n r.1) (λ rest. some (r.0 ∷ rest)))

-- From the five numbers of the header on.
unfoldable pub open_table : List ℕ → ℕ → ℕ → ℕ → ℕ → ℕ → List ℕ → Option ClipReader
unfolding read_offsets
open_table file grid_w grid_h capture_fps frame_count seek_table_len rest =
    if not (seek_table_len == frame_count)
      || (grid_w == 0 || (grid_h == 0 || ltb (length file - (header_len + 4)) (seek_table_len * 8)))
    then none
    else and_then (read_offsets seek_table_len rest) (λ offsets. some (record {
      file = file;
      header = record {
        grid_w = grid_w;
        grid_h = grid_h;
        capture_fps = capture_fps;
        frame_count = frame_count;
      };
      offsets = offsets;
    }))

unfoldable pub open_clip : List ℕ → Option ClipReader
unfolding read_exact read_le open_table text_eq
open_clip file = and_then (read_exact 6 file) (λ m.
    if not (text_eq m.0 magic)
    then none
    else and_then (read_le 2 m.1) (λ w. and_then (read_le 2 w.1) (λ h.
      and_then (read_le 4 h.1) (λ fps. and_then (read_le 4 fps.1) (λ count.
        and_then (read_le 4 count.1)
          (λ table. open_table file w.0 h.0 fps.0 count.0 table.0 table.1))))))

-- The compressed bytes of a frame at this offset; a claimed length that the file cannot hold is refused
-- before anything is read. A seek past the end leaves nothing to read.
unfoldable pub read_compressed : List ℕ → ℕ → Option (List ℕ × List ℕ)
unfolding read_exact read_le
read_compressed file offset = and_then (read_le 4 (drop offset file)) (λ r.
    if ltb (length file - min (offset + 4) (2 ^ 64 - 1)) r.0 then none else read_exact r.0 r.1)

unfoldable pub frame : (List ℕ → Option (List ℕ)) → ClipReader → ℕ → Option (List ℕ)
unfolding read_compressed dequantize
frame inflate reader index = and_then (get_elem? reader.offsets index) (λ offset.
    and_then (read_compressed reader.file offset) (λ compressed.
      and_then (inflate compressed.0) (λ indices.
        if length indices == reader.header.grid_w * reader.header.grid_h
        then some (dequantize indices)
        else none)))
