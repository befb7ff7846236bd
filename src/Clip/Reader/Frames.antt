-- ===== src/Clip/Reader/Frames.antt =====
-- A frame that the writer takes last comes back from the reader.
use mathlib.Core.List.{append_assoc, append-nil}
use pc_pulse.Prelude.{
  ℕ, zero, suc, ◌+◌, ◌-◌, ◌*◌, ◌^◌, ◌≤◌, ◌<◌, ◌≡◌, refl, ap, sym, subst, ◌∙◌, true, Option, some,
  List, [], ◌∷◌, ◌++◌, map, min, arith, length, drop, get_elem?, lt→ltb, le→ltb, ==_iff,
  length-append, length-drop, drop-length-append,
}
use pc_pulse.Clip.Color.{quantize, dequantize}
use pc_pulse.Clip.Bytes.{
  bound, le_bytes, read_exact, length-le_bytes, read_exact-append, read_le-le_bytes,
}
use pc_pulse.Clip.Writer.{magic, header_len, ClipWriter, push_frame, seek_table, finish}
use pc_pulse.Clip.Reader.{ClipReader, read_compressed, frame, open_clip}
use pc_pulse.Clip.Reader.Roundtrip.{
  FitsHeader, opened, table_on, length-seek_table, open_clip-finish,
}

length-quantize : (n : ℕ) (rgb : List ℕ) → length rgb ≡ n * 3 → length (quantize rgb) ≡ n
unfolding quantize
length-quantize zero [] h = refl
length-quantize (suc n) [] h = absurd (omega arith)
length-quantize n (r ∷ []) h = absurd (omega arith)
length-quantize n (r ∷ g ∷ []) h = absurd (omega arith)
length-quantize zero (r ∷ g ∷ b ∷ rest) h = absurd (omega arith)
length-quantize (suc n) (r ∷ g ∷ b ∷ rest) h = ap suc (length-quantize n rest (omega arith))

module _ {ℓ} {A : Type ℓ} where
  drop-append : (xs ys : List A) (k n : ℕ) → n ≡ length xs + k → drop n (xs ++ ys) ≡ drop k ys
  drop-append [] ys k n e = ap (λ m. drop m ys) (e ∙ omega arith)
  drop-append (x ∷ xs) ys k zero e = absurd (omega arith)
  drop-append (x ∷ xs) ys k (suc n) e = drop-append xs ys k n (omega arith)

  get_elem?-last :
      {B : Type 0} (f : A → B) (xs : List A) (x : A)
      → get_elem? (map f (xs ++ x ∷ [])) (length xs) ≡ some (f x)
  get_elem?-last f [] x = refl
  get_elem?-last f (y ∷ xs) x = get_elem?-last f xs x

read_compressed-stored :
    (file compressed : List ℕ) (offset : ℕ)
    → drop offset file ≡ le_bytes 4 (length compressed) ++ compressed
    → length compressed < 2 ^ 32
    → offset + 4 < 2 ^ 64
    → read_compressed file offset ≡ some (compressed, [])
unfolding read_compressed
read_compressed-stored file compressed offset e short low =
    let n = length compressed in
    let room : n ≤ length file - min (offset + 4) (2 ^ 64 - 1) =
      let l = length-drop offset file in
      let m = ap length e ∙ length-append (le_bytes 4 n) compressed in
      let k = length-le_bytes 4 n in omega arith in
    let whole : compressed ≡ compressed ++ [] = sym (append-nil compressed) in
    rw
      (
        e,
        read_le-le_bytes 4 n compressed (unfold bound in omega arith),
        le→ltb (length file - min (offset + 4) (2 ^ 64 - 1)) n room,
      )
      (ap (read_exact n) whole ∙ read_exact-append compressed [] n refl)

some-injective : {x y : List ℕ} → some x ≡ some y → x ≡ y
some-injective h = cc

-- The bytes before the table.
abbrev head_of : ClipWriter → List ℕ
head_of w =
    magic
    ++ le_bytes 2 w.grid_w
    ++ le_bytes 2 w.grid_h
    ++ le_bytes 4 w.capture_fps
    ++ le_bytes 4 (length w.offsets)
    ++ le_bytes 4 (length w.offsets)

length-head_of : (w : ClipWriter) → length (head_of w) ≡ 22
unfolding le_bytes
length-head_of w = refl

finish-head :
    (w : ClipWriter) → length w.offsets < 2 ^ 32 → finish w ≡ some (head_of w ++ table_on w)
unfolding finish le_bytes
finish-head w h = rw (lt→ltb (length w.offsets) (2 ^ 32) h) refl

-- The writer that has taken a frame with these compressed bytes.
abbrev appended : ClipWriter → List ℕ → ClipWriter
appended w compressed = record {
  grid_w = w.grid_w;
  grid_h = w.grid_h;
  capture_fps = w.capture_fps;
  offsets = w.offsets ++ length w.frames ∷ [];
  frames = w.frames ++ le_bytes 4 (length compressed) ++ compressed;
}

push_frame-appended :
    (deflate : List ℕ → List ℕ) (w : ClipWriter) (rgb : List ℕ)
    → length rgb ≡ w.grid_w * w.grid_h * 3
    → length (deflate (quantize rgb)) < 2 ^ 32
    → push_frame deflate w rgb ≡ (appended w (deflate (quantize rgb)), true)
unfolding push_frame
push_frame-appended deflate w rgb size short =
    rw
      (
        (==_iff (length rgb) (w.grid_w * w.grid_h * 3)).1 size,
        lt→ltb (length (deflate (quantize rgb))) (2 ^ 32) short,
      )
      refl

-- Where the last frame's offset points in the file.
drop-last_frame :
    (w : ClipWriter) (compressed : List ℕ)
    → let w' = appended w compressed in
      drop (header_len + 4 + length w'.offsets * 8 + length w.frames) (head_of w' ++ table_on w')
      ≡ le_bytes 4 (length compressed) ++ compressed
drop-last_frame w compressed =
    let w' = appended w compressed in
    let start = header_len + 4 + length w'.offsets * 8 in
    let table = seek_table start w'.offsets in
    let rows = length w'.offsets * 8 in
    let last : drop (length w.frames) w'.frames ≡ le_bytes 4 (length compressed) ++ compressed =
      ap (drop (length w.frames))
        (append_assoc w.frames (le_bytes 4 (length compressed)) compressed)
      ∙ drop-length-append w.frames (le_bytes 4 (length compressed) ++ compressed) in
    drop-append (head_of w') (table ++ w'.frames) (rows + length w.frames) (start + length w.frames)
      (omega (arith, length-head_of w'))
    ∙ drop-append table w'.frames (length w.frames) (rows + length w.frames)
        (omega (arith, length-seek_table start w'.offsets))
    ∙ last

frame-decodes :
    (inflate : List ℕ → Option (List ℕ)) (reader : ClipReader) (index offset : ℕ)
    (compressed indices : List ℕ)
    → get_elem? reader.offsets index ≡ some offset
    → read_compressed reader.file offset ≡ some (compressed, [])
    → inflate compressed ≡ some indices
    → length indices ≡ reader.header.grid_w * reader.header.grid_h
    → frame inflate reader index ≡ some (dequantize indices)
unfolding frame
frame-decodes inflate reader index offset compressed indices at read decoded size =
    rw
      (
        at,
        read,
        decoded,
        (==_iff (length indices) (reader.header.grid_w * reader.header.grid_h)).1 size,
      )
      refl

-- A compression that the decoder undoes, a frame of the clip's size whose compressed form is short
-- enough, and a clip that fits the format with that frame as its last: the writer takes the frame,
-- finishes, the reader opens the file, and its last frame is the one pushed, but for the loss of
-- quantizing it.
pub push_frame-frame :
    (deflate : List ℕ → List ℕ) (inflate : List ℕ → Option (List ℕ)) (w : ClipWriter) (rgb : List ℕ)
    → ((xs : List ℕ) → inflate (deflate xs) ≡ some xs)
    → length rgb ≡ w.grid_w * w.grid_h * 3
    → length (deflate (quantize rgb)) < 2 ^ 32
    → FitsHeader (push_frame deflate w rgb).0
    → 26 + (length w.offsets + 1) * 8 + length w.frames < 2 ^ 64
    → ((push_frame deflate w rgb).1 ≡ true)
      × (file : List ℕ) × (reader : ClipReader) × (finish (push_frame deflate w rgb).0 ≡ some file)
      × (open_clip file ≡ some reader)
      × (frame inflate reader (length w.offsets) ≡ some (dequantize (quantize rgb)))
push_frame-frame deflate inflate w rgb codec size short fits low =
    let compressed = deflate (quantize rgb) in
    let w' = appended w compressed in
    let taken = push_frame-appended deflate w rgb size short in
    let f : FitsHeader w' = subst FitsHeader (ap (λ r. r.0) taken) fits in
    let (file, written, read) = open_clip-finish w' f in
    let shape : some file ≡ some (head_of w' ++ table_on w') =
      sym written ∙ finish-head w' f.count_u32 in
    let start = header_len + 4 + length w'.offsets * 8 in
    let many = length-append w.offsets (length w.frames ∷ []) in
    let stored : drop (start + length w.frames) file
        ≡ le_bytes 4 (length compressed) ++ compressed =
      ap (drop (start + length w.frames)) (some-injective shape) ∙ drop-last_frame w compressed in
    rw taken (
      refl,
      file,
      opened w' file,
      written,
      read,
      frame-decodes inflate (opened w' file) (length w.offsets) (start + length w.frames) compressed
          (quantize rgb) (get_elem?-last (λ o. start + o) w.offsets (length w.frames))
          (read_compressed-stored file compressed (start + length w.frames) stored short
            (omega arith))
          (codec (quantize rgb)) (length-quantize (w.grid_w * w.grid_h) rgb size),
    )
