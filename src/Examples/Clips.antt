-- ===== src/Examples/Clips.antt =====
-- The clip codec's theorems at a clip of two frames and a few colours.
use pc_pulse.Prelude.{ℕ, ◌≡◌, refl, true, some, List, [], ◌∷◌, arith}
use pc_pulse.Clip.Color.{quantize, dequantize, quantize-dequantize, AreNear, dequantize-quantize}
use pc_pulse.Clip.Bytes.{le_bytes}
use pc_pulse.Clip.Writer.{ClipWriter, push_frame, finish}
use pc_pulse.Clip.Reader.{ClipReader, open_clip, frame}
use pc_pulse.Clip.Reader.Frames.{push_frame-frame}
use pc_pulse.Clip.Reader.Roundtrip.{opened, open_clip-finish}

quantize-dequantize_example : quantize (dequantize (0 ∷ 100 ∷ 251 ∷ [])) ≡ 0 ∷ 100 ∷ 251 ∷ []
quantize-dequantize_example =
    quantize-dequantize (0 ∷ 100 ∷ 251 ∷ []) (omega arith, (omega arith, (omega arith, tt)))

-- Two frames of one cell, each deflated to one byte.
abbrev two_frames : ClipWriter
two_frames = record {
  grid_w = 1;
  grid_h = 1;
  capture_fps = 30;
  offsets = 0 ∷ 5 ∷ [];
  frames = 1 ∷ 0 ∷ 0 ∷ 0 ∷ 77 ∷ 1 ∷ 0 ∷ 0 ∷ 0 ∷ 78 ∷ [];
}

open_clip-finish_example :
    (file : List ℕ) × (finish two_frames ≡ some file)
    × (open_clip file ≡ some (opened two_frames file))
open_clip-finish_example = open_clip-finish two_frames (record {
  width = omega arith;
  width_u16 = omega arith;
  height = omega arith;
  height_u16 = omega arith;
  fps_u32 = omega arith;
  count_u32 = omega arith;
  offsets_u64 = (omega arith, (omega arith, tt));
})

-- One cell of a dark red, pushed behind the two frames; bytes are stored as they are.
push_frame-frame_example :
    let r = push_frame (λ xs. xs) two_frames (99 ∷ 0 ∷ 0 ∷ []) in
    (r.1 ≡ true)
    × (file : List ℕ) × (reader : ClipReader) × (finish r.0 ≡ some file)
    × (open_clip file ≡ some reader)
    × (frame (λ xs. some xs) reader 2 ≡ some (dequantize (quantize (99 ∷ 0 ∷ 0 ∷ []))))
unfolding push_frame quantize le_bytes
push_frame-frame_example =
    push_frame-frame (λ xs. xs) (λ xs. some xs) two_frames (99 ∷ 0 ∷ 0 ∷ []) (λ xs. refl) refl
      (omega arith)
      (record {
        width = omega arith;
        width_u16 = omega arith;
        height = omega arith;
        height_u16 = omega arith;
        fps_u32 = omega arith;
        count_u32 = omega arith;
        offsets_u64 = (omega arith, (omega arith, (omega arith, tt)));
      })
      (omega arith)

dequantize-quantize_example :
    AreNear (dequantize (quantize (213 ∷ 0 ∷ 255 ∷ []))) (213 ∷ 0 ∷ 255 ∷ [])
dequantize-quantize_example =
    dequantize-quantize 1 (213 ∷ 0 ∷ 255 ∷ []) refl (omega arith, (omega arith, (omega arith, tt)))
