-- ===== src/Launches/Paths.antt =====
-- Image paths: device prefixes, executable names, console hosts (launches.rs).
-- The Win32 call `QueryDosDeviceW` is a parameter: from a wide drive name to the buffer that it
-- fills and the length that it returns.
use pc_pulse.Prelude.{
  ℕ, zero, suc, ◌+◌, ◌-◌, ◌*◌, min, Bool, true, false, ◌&&◌, ◌||◌, Option, none, some, List, [],
  ◌∷◌, ◌++◌, leb, ◌==◌, if◌then◌else◌, length, take, drop, any,
}
use pc_pulse.Text.{Text, codes, Unicode, byte_len, strip_prefix, text_eq}

abbrev pub DeviceMap : Type 0
DeviceMap = List (Text × Text)

abbrev pub is_separator : ℕ → Bool
is_separator c = c == b'\\' || c == b'/'

-- What follows a device prefix: nothing, or a path separator.
abbrev pub at_boundary : Text → Bool
at_boundary [] = true
at_boundary (c ∷ rest) = is_separator c

abbrev pub boundary_after : Option Text → Bool
boundary_after none = false
boundary_after (some rest) = at_boundary rest

unfoldable pub device_prefix_matches : Text → Text → Bool
device_prefix_matches lower device = boundary_after (strip_prefix device lower)

-- One round of `max_by_key` by byte length: of two equal keys the later one stays.
abbrev pub longer : Option (Text × Text) → Text × Text → Option (Text × Text)
longer none entry = some entry
longer (some best) entry =
    if leb (byte_len best.0) (byte_len entry.0) then some entry else some best

unfoldable pub longest_match : Text → DeviceMap → Option (Text × Text) → Option (Text × Text)
longest_match lower [] best = best
longest_match lower (entry ∷ device_map) best =
    longest_match lower device_map
      (if device_prefix_matches lower entry.0 then longer best entry else best)

abbrev pub substitute : Text → Option (Text × Text) → Text × Bool
substitute lower none = (lower, false)
substitute lower (some (device, drive)) = (drive ++ drop (length device) lower, true)

unfoldable pub normalize_image_path : Unicode → Text → DeviceMap → Text × Bool
normalize_image_path u raw device_map =
    let lower = u.to_lowercase raw in substitute lower (longest_match lower device_map none)

-- `String::from_utf16_lossy`: a lone surrogate becomes U+FFFD.
abbrev is_high : ℕ → Bool
is_high w = leb 0xd800 w && leb w 0xdbff

abbrev is_low : ℕ → Bool
is_low w = leb 0xdc00 w && leb w 0xdfff

pub from_utf16_lossy : List ℕ → Text
from_utf16_lossy [] = []
from_utf16_lossy (w ∷ []) = (if is_high w || is_low w then 0xfffd else w) ∷ []
from_utf16_lossy (w ∷ v ∷ rest) =
    let paired = (0x1_0000 + (w - 0xd800) * 0x400 + (v - 0xdc00)) ∷ from_utf16_lossy rest in
    let single = (if is_high w || is_low w then 0xfffd else w) ∷ from_utf16_lossy (v ∷ rest) in
    if is_high w && is_low v then paired else single

-- `split(|&c| c == 0).next()`.
unfoldable pub until_nul : List ℕ → List ℕ
until_nul [] = []
until_nul (c ∷ rest) = if c == 0 then [] else c ∷ until_nul rest

abbrev pub decode_target : List ℕ → Option Text
decode_target [] = none
decode_target (c ∷ first) = some (from_utf16_lossy (c ∷ first))

unfoldable pub first_multi_sz_target : List ℕ → ℕ → Option Text
first_multi_sz_target buf len =
    if len == 0 then none else decode_target (until_nul (take (min len (length buf)) buf))

abbrev pub QueryDosDevice : Type 0
QueryDosDevice = List ℕ → List ℕ × ℕ

abbrev pub push_device : Unicode → Text → Option Text → DeviceMap → DeviceMap
push_device u drive none device_map = device_map
push_device u drive (some device) device_map =
    (u.to_lowercase device, u.to_lowercase drive) ∷ device_map

-- The loop over the drive letters that are left.
unfoldable pub map_letters : Unicode → QueryDosDevice → ℕ → ℕ → DeviceMap
map_letters u query zero letter = []
map_letters u query (suc n) letter =
    let drive = letter ∷ b':' ∷ [] in
    let (buf, len) = query (drive ++ 0 ∷ []) in
    push_device u drive (first_multi_sz_target buf len) (map_letters u query n (letter + 1))

unfoldable pub build_device_map : Unicode → QueryDosDevice → DeviceMap
build_device_map u query = map_letters u query 26 b'A'

-- The last of the pieces that `rsplit` finds between separators.
unfoldable pub last_component : Text → Text → Text
last_component current [] = current
last_component current (c ∷ path) =
    last_component (if is_separator c then [] else current ++ c ∷ []) path

unfoldable pub exe_name_from_path : Text → Text
exe_name_from_path path = last_component [] path

abbrev pub console_hosts : List Text
console_hosts =
    codes "cmd.exe"
    ∷ codes "powershell.exe"
    ∷ codes "pwsh.exe"
    ∷ codes "conhost.exe"
    ∷ codes "wt.exe"
    ∷ codes "windowsterminal.exe"
    ∷ codes "openconsole.exe"
    ∷ []

unfoldable pub is_console_host : Unicode → Text → Bool
is_console_host u exe_name =
    let lower = u.to_lowercase exe_name in any (λ host. text_eq host lower) console_hosts
