-- ===== src/Launches/Groups.antt =====
-- Launch grouping: `lineage_sig` to `group_launches` of src/PcPulse.Service/src/launches.rs.
pub mod Counts
pub mod Total
pub mod Order
use pc_pulse.Prelude.{
  ℕ, zero, suc, ◌+◌, ◌-◌, ◌*◌, ◌/◌, ◌%◌, Bool, true, false, not, ◌&&◌, ◌||◌, Option, none, some,
  List, [], ◌∷◌, ◌++◌, map, leb, ltb, ◌==◌, if◌then◌else◌, length, get_or, take,
}
use pc_pulse.Prelude.Int.{
  ℤ, pos, negsuc, ◌+ℤ◌, leb_ℤ, ltb_ℤ, eqb_ℤ, i64_max, wrap, saturating_sub, saturating_add,
}
use pc_pulse.Text.{Text, codes, Unicode, text_eq, text_leb}
use pc_pulse.Launches.Model.{
  WindowState, windowed, never_windowed, unobserved, running, LineageEntry, LaunchEvent,
}

abbrev pub trailing_24h_ms : ℤ
trailing_24h_ms = pos 86_400_000

unfoldable pub lineage_sig : Unicode → List LineageEntry → Text
lineage_sig u [] = []
lineage_sig u (e ∷ []) = u.to_lowercase e.name
lineage_sig u (e ∷ f ∷ rest) = u.to_lowercase e.name ++ b'<' ∷ lineage_sig u (f ∷ rest)

abbrev pub launcher_summary : List LineageEntry → Text
launcher_summary [] = codes "unknown"
launcher_summary (e ∷ rest) = e.name

pub record LaunchGroup : Type 0 where
  pub exe_name : Text
  pub exe_path : Text
  pub lineage_sig : Text
  pub launcher_summary : Text
  pub count : ℕ
  pub first_ms : ℤ
  pub last_ms : ℤ
  pub median_interval_ms : Option ℤ
  pub mean_duration_ms : Option ℤ
  pub max_duration_ms : Option ℤ
  pub windowed : ℕ
  pub never_windowed : ℕ
  pub unobserved : ℕ
  pub running : ℕ
  pub console_host : Bool

-- `sort_unstable` on integers.
unfoldable pub insert_sorted : ℤ → List ℤ → List ℤ
insert_sorted a [] = a ∷ []
insert_sorted a (b ∷ bs) = if leb_ℤ a b then a ∷ b ∷ bs else b ∷ insert_sorted a bs

unfoldable pub sort : List ℤ → List ℤ
unfolding insert_sorted
sort [] = []
sort (a ∷ rest) = insert_sorted a (sort rest)

-- The differences of the `windows(2)`.
unfoldable pub gaps : List ℤ → List ℤ
unfolding saturating_sub
gaps [] = []
gaps (a ∷ []) = []
gaps (a ∷ b ∷ rest) = saturating_sub b a ∷ gaps (b ∷ rest)

abbrev pub neg : ℕ → ℤ
neg zero = pos 0
neg (suc n) = negsuc n

-- `/` and `%` by a positive divisor: they round toward 0.
abbrev pub quot : ℤ → ℕ → ℤ
quot (pos n) d = pos (n / d)
quot (negsuc n) d = neg ((n + 1) / d)

abbrev pub rem : ℤ → ℕ → ℤ
rem (pos n) d = pos (n % d)
rem (negsuc n) d = neg ((n + 1) % d)

-- The slice is not empty where the source calls this; it panics on an empty one.
unfoldable pub median_of_sorted : List ℤ → ℤ
unfolding saturating_add wrap ◌+ℤ◌
median_of_sorted sorted =
    let n = length sorted in
    let sum = saturating_add (get_or sorted (n / 2 - 1) (pos 0)) (get_or sorted (n / 2) (pos 0)) in
    if n % 2 == 1 then get_or sorted (n / 2) (pos 0) else wrap (quot sum 2 +ℤ rem sum 2)

unfoldable pub median_interval_ms : List ℤ → Option ℤ
unfolding median_of_sorted sort gaps
median_interval_ms starts =
    if ltb (length starts) 2 then none else some (median_of_sorted (sort (gaps (sort starts))))

abbrev pub min_ℤ : ℤ → ℤ → ℤ
min_ℤ a b = if leb_ℤ a b then a else b

abbrev pub max_ℤ : ℤ → ℤ → ℤ
max_ℤ a b = if leb_ℤ a b then b else a

unfoldable pub fold_left : (ℤ → ℤ → ℤ) → ℤ → List ℤ → ℤ
fold_left f acc [] = acc
fold_left f acc (a ∷ rest) = fold_left f (f acc a) rest

abbrev pub push_duration : ℤ → Option ℤ → List ℤ → List ℤ
push_duration start none rest = rest
push_duration start (some stop) rest = saturating_sub stop start ∷ rest

unfoldable pub durations : List LaunchEvent → List ℤ
unfolding saturating_sub
durations [] = []
durations (ev ∷ events) = push_duration ev.start_time_ms ev.stop_time_ms (durations events)

-- The mean and the longest duration; `/` on i64 by the length, which fits.
unfoldable pub duration_stats : List ℤ → Option ℤ × Option ℤ
unfolding fold_left saturating_add
duration_stats [] = (none, none)
duration_stats (d ∷ ds) = (
  some (quot (fold_left saturating_add (pos 0) (d ∷ ds)) (length (d ∷ ds))),
  some (fold_left max_ℤ (negsuc i64_max) (d ∷ ds)),
)

abbrev pub is_state : WindowState → WindowState → Bool
is_state windowed windowed = true
is_state never_windowed never_windowed = true
is_state unobserved unobserved = true
is_state running running = true
is_state _ _ = false

-- The occurrences that the `match` counts under this state.
unfoldable pub count_state : WindowState → List LaunchEvent → ℕ
count_state s [] = 0
count_state s (ev ∷ events) =
    let rest = count_state s events in if is_state s ev.window_state then rest + 1 else rest

-- Of the first occurrence and the others: the slice is not empty.
unfoldable pub build_group : Unicode → LaunchEvent → List LaunchEvent → LaunchGroup
unfolding median_interval_ms duration_stats durations fold_left count_state lineage_sig
build_group u representative others =
    let occurrences : List LaunchEvent = representative ∷ others in
    let starts : List ℤ = map (λ ev. ev.start_time_ms) occurrences in
    let (mean, longest) = duration_stats (durations occurrences) in
    record {
      exe_name = representative.exe_name;
      exe_path = representative.exe_path;
      lineage_sig = lineage_sig u representative.lineage;
      launcher_summary = launcher_summary representative.lineage;
      count = length occurrences;
      first_ms = fold_left min_ℤ (pos i64_max) starts;
      last_ms = fold_left max_ℤ (negsuc i64_max) starts;
      median_interval_ms = median_interval_ms starts;
      mean_duration_ms = mean;
      max_duration_ms = longest;
      windowed = count_state windowed occurrences;
      never_windowed = count_state never_windowed occurrences;
      unobserved = count_state unobserved occurrences;
      running = count_state running occurrences;
      console_host = representative.console_host;
    }

-- One entry of the map from `(exe_path, lineage_sig)` to the occurrences, in the order of their
-- first occurrence: the sort below leaves nothing of the map's order.
pub record Bucket : Type 0 where
  pub exe_path : Text
  pub sig : Text
  pub first : LaunchEvent
  pub others : List LaunchEvent

-- `buckets.entry(key).or_default().push(event)`
unfoldable pub push_event : Unicode → LaunchEvent → List Bucket → List Bucket
unfolding lineage_sig text_eq
push_event u ev [] =
    record { exe_path = ev.exe_path; sig = lineage_sig u ev.lineage; first = ev; others = [] } ∷ []
push_event u ev (b ∷ buckets) =
    let rest = push_event u ev buckets in
    if text_eq b.exe_path ev.exe_path && text_eq b.sig (lineage_sig u ev.lineage)
    then record {
      exe_path = b.exe_path;
      sig = b.sig;
      first = b.first;
      others = b.others ++ ev ∷ [];
    }
      ∷ buckets
    else b ∷ rest

unfoldable pub fill_buckets : Unicode → List LaunchEvent → List Bucket → List Bucket
unfolding push_event
fill_buckets u [] buckets = buckets
fill_buckets u (ev ∷ events) buckets = fill_buckets u events (push_event u ev buckets)

-- `.max().unwrap_or(0)`
unfoldable pub newest : List LaunchEvent → ℤ
unfolding fold_left
newest [] = pos 0
newest (ev ∷ events) = fold_left max_ℤ ev.start_time_ms (map (λ e. e.start_time_ms) events)

unfoldable pub count_between : ℤ → ℤ → List LaunchEvent → ℕ
count_between from upto [] = 0
count_between from upto (ev ∷ events) =
    let rest = count_between from upto events in
    if leb_ℤ from ev.start_time_ms && leb_ℤ ev.start_time_ms upto then rest + 1 else rest

abbrev pub score : Unicode → ℤ → Bucket → ℕ × LaunchGroup
score u at b = (
  count_between (saturating_sub at trailing_24h_ms) at (b.first ∷ b.others),
  build_group u b.first b.others,
)

unfoldable pub retain : Bool → List (ℕ × LaunchGroup) → List (ℕ × LaunchGroup)
retain console_hosts_only [] = []
retain console_hosts_only (g ∷ rest) =
    let kept = retain console_hosts_only rest in
    if not console_hosts_only || g.1.console_host then g ∷ kept else kept

-- The comparator of the sort, as "not greater".
unfoldable pub ranked_leb : ℕ × LaunchGroup → ℕ × LaunchGroup → Bool
unfolding text_leb text_eq
ranked_leb (n, a) (m, b) =
    if n == m
    then if eqb_ℤ a.last_ms b.last_ms
      then if text_eq a.exe_path b.exe_path
        then text_leb a.lineage_sig b.lineage_sig
        else text_leb a.exe_path b.exe_path
      else ltb_ℤ b.last_ms a.last_ms
    else ltb m n

unfoldable pub insert_ranked : ℕ × LaunchGroup → List (ℕ × LaunchGroup) → List (ℕ × LaunchGroup)
unfolding ranked_leb
insert_ranked g [] = g ∷ []
insert_ranked g (h ∷ rest) =
    let later = insert_ranked g rest in if ranked_leb g h then g ∷ h ∷ rest else h ∷ later

unfoldable pub rank : List (ℕ × LaunchGroup) → List (ℕ × LaunchGroup)
unfolding insert_ranked
rank [] = []
rank (g ∷ rest) = insert_ranked g (rank rest)

unfoldable pub group_launches : Unicode → List LaunchEvent → Bool → ℕ → List LaunchGroup
unfolding fill_buckets newest count_between build_group retain rank saturating_sub
group_launches u events console_hosts_only limit =
    let scored = map (score u (newest events)) (fill_buckets u events []) in
    map (λ g. g.1) (take limit (rank (retain console_hosts_only scored)))
