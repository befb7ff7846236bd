-- ===== src/Alerts/Offsets/Bounds.antt =====
-- How far the ratings move a notification floor, and what that leaves of the floors' order
-- (`PolicyOffsets::lookup` and `decide` of src/PcPulse.Service/src/quality.rs).
use pc_pulse.Prelude.{◌≡◌, Bool, true, Option, arith}
use pc_pulse.Text.{Text}
use pc_pulse.Float.{Float, clamp, IsOrdered}
use pc_pulse.Alerts.Model.{DemandBucket, Alert, AlertQuality}
use pc_pulse.Alerts.Quality.{decide}
use pc_pulse.Alerts.Quality.Policy.{decide-notify, Deserves-lower, Deserves}
use pc_pulse.Alerts.Offsets.{PolicyOffsets, rating_offset_bound, lookup_offset}

module _ {F : Type 0} ⦃f : Float F⦄ (laws : IsOrdered f) where
  clamp-Bounds :
      (x lo hi : F)
      → f.le lo hi ≡ true
      → f.le (clamp x lo hi) (clamp x lo hi) ≡ true
      → (f.le lo (clamp x lo hi) ≡ true) × (f.le (clamp x lo hi) hi ≡ true)
  clamp-Bounds x lo hi h n = ground (
    arith,
    laws.le_refl_left lo hi h,
    laws.le_refl_right lo hi h,
    laws.lt_iff x lo,
    laws.lt_iff hi x,
    laws.lt_iff hi lo,
    laws.le_total x lo,
    laws.le_total x hi,
  )

  -- What a rating history gives a kind stays between -0.15 and 0.15, where it is a number.
  pub lookup_offset-Bounds :
      (offsets : PolicyOffsets F) (kind : Text) (bucket : DemandBucket)
      → f.le (lookup_offset offsets kind bucket) (lookup_offset offsets kind bucket) ≡ true
      → (f.le (f.neg rating_offset_bound) (lookup_offset offsets kind bucket) ≡ true)
        × (f.le (lookup_offset offsets kind bucket) rating_offset_bound ≡ true)
  unfolding lookup_offset
  lookup_offset-Bounds offsets kind bucket n =
      clamp-Bounds _ (f.neg rating_offset_bound) rating_offset_bound (laws.neg_literal_le 15 2) n

  -- However the user rated, an incident that notifies deserves it with both floors taken down by
  -- 0.15, where the offset is a number.
  pub decide-lookup_offset-needs :
      (alert : Alert F) (q : AlertQuality F) (learning : Bool) (previous : Option (Alert F))
      (material_change : Bool) (offsets : PolicyOffsets F) (kind : Text) (bucket : DemandBucket)
      → f.le (lookup_offset offsets kind bucket) (lookup_offset offsets kind bucket) ≡ true
      → (decide alert q learning previous material_change
          (lookup_offset offsets kind bucket)).notify
        ≡ true
      → Deserves alert.severity learning q (f.neg rating_offset_bound)
  decide-lookup_offset-needs alert q learning previous material_change offsets kind bucket n h =
      Deserves-lower laws alert.severity learning q _ _
        (lookup_offset-Bounds offsets kind bucket n).0
        ((decide-notify alert q learning previous material_change _).0 h)

  -- However the user rated, an incident that deserves to notify with both floors put up by 0.15 does
  -- notify, where the offset is a number.
  pub decide-lookup_offset-suffices :
      (alert : Alert F) (q : AlertQuality F) (learning : Bool) (previous : Option (Alert F))
      (material_change : Bool) (offsets : PolicyOffsets F) (kind : Text) (bucket : DemandBucket)
      → f.le (lookup_offset offsets kind bucket) (lookup_offset offsets kind bucket) ≡ true
      → Deserves alert.severity learning q rating_offset_bound
      → (decide alert q learning previous material_change
          (lookup_offset offsets kind bucket)).notify
        ≡ true
  decide-lookup_offset-suffices alert q learning previous material_change offsets kind bucket n h =
      (decide-notify alert q learning previous material_change _).1 (
        Deserves-lower laws alert.severity learning q _ _
          (lookup_offset-Bounds offsets kind bucket n).1 h)
